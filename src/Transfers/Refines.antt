-- ===== src/Transfers/Refines.antt =====
-- personal_mcp/file_transfer.py: every call of the manager is made of the steps of Spec.
use unified_personal_mcp.Prelude.{
  stop, ℕ, ◌≡◌, refl, ap, String, Bool, true, not, List, [], ◌∷◌, ◌⊎◌, inl, inr, if-cases,
  Bool-cases, Option-cases,
}
use unified_personal_mcp.Transfers.State.{
  Code, Result, ok, err, and_then, Transfer, Limits, Manager, Look, Argument, fitting, Args, Reply,
}
use unified_personal_mcp.Transfers.Cache.{
  World, put_transfer, remove_staged, discard_transfer, discard_all,
}
use unified_personal_mcp.Transfers.Steps.{
  Same, HasRoom, capacity-cases, allocate-cases, remove_staged-cases, discard_transfer-cases,
}
use unified_personal_mcp.Transfers.Spec.{
  Aim, beginning, MayGo, same, dropped, began, Steps, one_step, Steps-trans,
}
use unified_personal_mcp.Transfers.Upload.{
  target, new_upload, text_of, add_transfer, begin_target, begin_checked, upload_begin,
}

pub Result-cases {ℓ} :
    {A : Type ℓ} (r : Result A) → ((code : Code) × (r ≡ err code)) ⊎ ((a : A) × (r ≡ ok a))
Result-cases (err code) = inl (code, refl)
Result-cases (ok a) = inr (a, refl)

module _ (w : World) (l : Limits) (aim : Aim) where
  -- Steps from a manager to that of a result.
  abbrev pub Goes {ℓ} : {A : Type ℓ} → Manager → Result A × Manager → Type 0
  Goes m r = Steps w l aim m r.1

  -- The same for the reply of an action.
  abbrev pub Replies : Manager → Result Reply × Manager → Type 0
  Replies m r = Steps w l aim m r.1

  pub Same-Steps : (m n : Manager) → Same m n → Steps w l aim m n
  Same-Steps m n s = one_step w l aim m n (same s.0 s.1)

  pub Goes-and_then {ℓ κ} :
      {A : Type ℓ} {B : Type κ} (m : Manager) (r : Result A × Manager)
      (f : A → Manager → Result B × Manager)
      → Goes m r
      → ((a : A) (n : Manager) → Steps w l aim m n → Goes n (f a n))
      → Goes m (and_then r f)
  Goes-and_then m (err code, n) f p q = p
  Goes-and_then m (ok a, n) f p q = Steps-trans w l aim m n (f a n).1 p (q a n p)

  pub Goes-remove_staged : (name : String) (m : Manager) → Goes m (remove_staged w name m)
  Goes-remove_staged name m =
      remove_staged-cases w name m (λ r. Goes m r) (λ r n s. Same-Steps m n s)

  pub Goes-discard : (t : Transfer) (m : Manager) → MayGo w aim t → Goes m (discard_transfer w t m)
  Goes-discard t m may =
      discard_transfer-cases w t m (λ r. Goes m r)
        (λ r n s. one_step w l aim m n (dropped t may s.0 s.1))

  pub Goes-discard_all :
      (test : Transfer → Bool) (ts : List Transfer) (m : Manager)
      → ((t : Transfer) → test t ≡ true → MayGo w aim t)
      → Goes m (discard_all w test ts m)
  unfolding discard_all
  Goes-discard_all test [] m may = stop m m refl
  Goes-discard_all test (t ∷ ts) m may = elim (Bool-cases (test t)) [
    | inr e ↦ rw (e, discard_all) (Goes-discard_all test ts m may)
    | inl e ↦
        rw (e, discard_all)
          (Goes-and_then m (discard_transfer w t m) (λ _ after. discard_all w test ts after)
            (Goes-discard t m (may t e)) (λ _ n _. Goes-discard_all test ts n may))
  ]

  -- Room is as much as the transfers leave.
  pub HasRoom-Same :
      (owner : String) (size : ℕ) (m n : Manager)
      → Same m n
      → HasRoom w l owner size m
      → HasRoom w l owner size n
  HasRoom-Same owner size m n s h = rw (s.0) h

  Goes-begin_target :
      (owner : String) (runtime size : ℕ) (digest : String) (path : Argument String)
      (look : Result Look) (m : Manager)
      → aim ≡ beginning owner runtime
      → HasRoom w l owner size m
      → Goes m (begin_target w l owner runtime size digest path look m)
  unfolding begin_target add_transfer
  Goes-begin_target owner runtime size digest path (err code) m begins room = stop m m refl
  Goes-begin_target owner runtime size digest path (ok look) m begins room =
      allocate-cases w l size m
        (λ r. Goes m (
          and_then r (λ (key, staged) after.
            add_transfer w l
              (new_upload w owner runtime (text_of path) look key staged size
                (w.codec.lower digest))
              after)))
        (λ code n s. Same-Steps m n s)
        (λ key staged n (s, _, _, _).
          let t =
            new_upload w owner runtime (text_of path) look key staged size (w.codec.lower digest) in
          one_step w l aim m (add_transfer w l t n).1
            (began t begins room refl refl (ap (λ ts. put_transfer t ts) s.0) s.1))

  Goes-begin_checked :
      (owner : String) (runtime size : ℕ) (digest : String) (path : Argument String) (m : Manager)
      → aim ≡ beginning owner runtime
      → Goes m (begin_checked w l owner runtime size digest path m)
  unfolding begin_checked
  Goes-begin_checked owner runtime size digest path m begins =
      capacity-cases w l owner size m
        (λ r. Goes m (
          and_then r (λ _ seen.
            begin_target w l owner runtime size digest path (target w.look path seen.project)
              seen)))
        (λ code n s _. Same-Steps m n s)
        (λ n s _ room. Steps-trans w l aim m n _ (Same-Steps m n s) (
          Goes-begin_target owner runtime size digest path (target w.look path n.project) n begins
            (HasRoom-Same owner size m n s room)))

  pub Goes-upload_begin :
      (owner : String) (runtime : ℕ) (args : Args) (m : Manager)
      → aim ≡ beginning owner runtime
      → Goes m (upload_begin w l owner runtime args m)
  unfolding upload_begin begin_checked
  Goes-upload_begin owner runtime args m begins = elim (Option-cases (fitting args.size)) [
    | inl e ↦ rw (e, upload_begin) (stop m m refl)
    | inr (size, e) ↦ elim (Option-cases (fitting args.sha256)) [
      | inl f ↦ rw (e, f, upload_begin) (stop m m refl)
      | inr (digest, f) ↦
          rw (e, f, upload_begin)
            (if-cases (Replies m) (not (w.codec.is_sha256 digest)) (λ _. stop m m refl)
              (λ _. Goes-begin_checked owner runtime size digest args.path m begins))
    ]
  ]
