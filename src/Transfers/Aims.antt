-- ===== src/Transfers/Aims.antt =====
-- personal_mcp/file_transfer.py: what a call of `handle` is there for, and what it finds after `_prune`.
use unified_personal_mcp.Prelude.{
  ap, ◌∙◌, stop, go, Option, false, Bool-cases, List, stop, ℕ, ◌≡◌, sym, subst, String, true, none,
  some, ◌==◌, inl, inr, eq_iff, Option-cases,
}
use unified_personal_mcp.Table.{select_one, delete, select_one-delete, select_one-delete_self}
use unified_personal_mcp.Transfers.State.{
  Transfer, Limits, Manager, Argument, absent, unfit, given, fitting, Args, Action, upload_begin,
  download_begin, upload_chunk, upload_commit, release,
}
use unified_personal_mcp.Transfers.Cache.{World, has_key}
use unified_personal_mcp.Transfers.Spec.{
  Aim, beginning, writing, committing, releasing, looking, Step, same, dropped, advanced, created,
  recorded, began, Steps,
}
use unified_personal_mcp.Transfers.Handle.{owned, find}

-- The aim of an action on the transfer that it finds, if it finds one.
abbrev pub aim_on : String → ℕ → Action → Option Transfer → Aim
aim_on owner runtime upload_begin found = beginning owner runtime
aim_on owner runtime download_begin found = beginning owner runtime
aim_on owner runtime upload_chunk (some t) = writing t
aim_on owner runtime upload_commit (some t) = committing t
aim_on owner runtime release (some t) = releasing t
aim_on owner runtime _ _ = looking

-- The aim of the actions that `fitting` has read; without one the call only looks.
abbrev pub aim_as : String → ℕ → Option Action → Option Transfer → Aim
aim_as owner runtime none found = looking
aim_as owner runtime (some action) found = aim_on owner runtime action found

-- The aim of a call, from the transfers that are there when it begins.
abbrev pub aim_of : String → ℕ → Args → Manager → Aim
aim_of owner runtime args m =
    aim_as owner runtime (fitting args.action) (find owner runtime args.transfer_id m)

-- What is found after transfers are dropped was found before.
find-delete :
    (key gone : String) (ts : List Transfer) (t : Transfer)
    → select_one (has_key key) (delete (has_key gone) ts) ≡ some t
    → select_one (has_key key) ts ≡ some t
find-delete key gone ts t e = elim (Bool-cases (key == gone)) [
  | inl same_key ↦
      let one : key ≡ gone = (eq_iff key gone).0 same_key in
      let lost : select_one (has_key key) (delete (has_key gone) ts) ≡ none =
        subst (λ g. select_one (has_key key) (delete (has_key g) ts) ≡ none) one
          (select_one-delete_self (has_key key) ts) in
      cc
  | inr other ↦
      let spare : (r : Transfer) → has_key key r ≡ true → has_key gone r ≡ false =
        λ r h. subst (λ k. (k == gone) ≡ false) (sym ((eq_iff r.key key).0 h)) other in
      sym (select_one-delete (has_key key) (has_key gone) ts spare) ∙ e
]

module _ (w : World) (l : Limits) where
  -- A call that only looks may lose transfers, and finds none that was not there.
  looking-Step :
      (key : String) (t : Transfer) (m n : Manager)
      → Step w l looking m n
      → select_one (has_key key) n.transfers ≡ some t
      → select_one (has_key key) m.transfers ≡ some t
  looking-Step key t m n (same e p) h = ap (λ ts. select_one (has_key key) ts) (sym e) ∙ h
  looking-Step key t m n (dropped u may e p) h =
      find-delete key u.key m.transfers t (ap (λ ts. select_one (has_key key) ts) (sym e) ∙ h)
  looking-Step key t m n (advanced u offset j a b e p) h = cc
  looking-Step key t m n (created u f j a b c d g e i p) h = cc
  looking-Step key t m n (recorded u finished j e p) h = cc
  looking-Step key t m n (began u j a b c e p) h = cc

  looking-Steps :
      (key : String) (t : Transfer) (m n : Manager)
      → Steps w l looking m n
      → select_one (has_key key) n.transfers ≡ some t
      → select_one (has_key key) m.transfers ≡ some t
  looking-Steps key t m n (stop _ _ e) h =
      subst (λ (k : Manager). select_one (has_key key) k.transfers ≡ some t) e h
  looking-Steps key t m n (go _ k _ s p) h = looking-Step key t m k s (looking-Steps key t k n p h)

  pub looking-find :
      (owner : String) (runtime : ℕ) (id : Argument String) (m n : Manager) (t : Transfer)
      → Steps w l looking m n
      → find owner runtime id n ≡ some t
      → find owner runtime id m ≡ some t
  looking-find owner runtime absent m n t p h = cc
  looking-find owner runtime unfit m n t p h = cc
  looking-find owner runtime (given key) m n t p h =
      elim (Option-cases (select_one (has_key key) n.transfers)) [
        | inl e ↦ let lost : owned owner runtime none ≡ some t = rw e at h in cc
        | inr (u, e) ↦
            let was = looking-Steps key u m n p e in
            ap (λ o. owned owner runtime o) (was ∙ sym e) ∙ h
      ]
