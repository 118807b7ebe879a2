-- ===== src/Transfers/Handling.antt =====
-- personal_mcp/file_transfer.py: `handle`, `close_owner` and `close` refine Spec.
use unified_personal_mcp.Prelude.{
  ap, ◌∙◌, stop, stop, ℕ, ◌≤◌, ◌≡◌, refl, sym, subst, String, true, not, ◌&&◌, ◌||◌, none, some,
  ◌==◌, arith, inl, inr, eq_iff, eqb, leb, length, if◌then◌else◌, if-cases, Option-cases,
}
use unified_personal_mcp.Table.{select_one, select_one-passes}
use unified_personal_mcp.Transfers.State.{
  Result, ok, err, and_then, Reply, Transfer, Limits, Manager, Argument, absent, unfit, given,
  fitting, Args, Action, upload_begin, download_begin, upload_chunk, upload_commit, download_chunk,
  status, release, unsupported, released,
}
use unified_personal_mcp.Transfers.Cache.{
  World, is_expired, has_key, discard_transfer, discard_all, prune,
}
use unified_personal_mcp.Transfers.Spec.{Aim, closing, looking, same, Steps, one_step, Steps-trans}
use unified_personal_mcp.Transfers.Handle.{
  is_upload, find, release_transfer, act, act_on, dispatch, requested, handle, close_owner,
  remove_cache, close,
}
use unified_personal_mcp.Transfers.Refines.{
  Goes, Replies, Goes-and_then, Goes-discard, Goes-discard_all, Goes-upload_begin,
}
use unified_personal_mcp.Transfers.Uploading.{Goes-upload_chunk, Goes-upload_commit}
use unified_personal_mcp.Transfers.Downloading.{Goes-download_begin}
use unified_personal_mcp.Transfers.Aims.{aim_on, aim_as, aim_of, looking-find}

-- What is found has its key in the table.
pub find-has_key :
    (owner : String) (runtime : ℕ) (id : Argument String) (m : Manager) {t : Transfer}
    → find owner runtime id m ≡ some t
    → select_one (has_key t.key) m.transfers ≡ some t
find-has_key owner runtime (given key) m {t} e =
    elim (Option-cases (select_one (has_key key) m.transfers)) [
      | inl n ↦ let absurd : none ≡ some t = rw (n, find) at e in cc
      | inr (u, f) ↦
          let found : (if u.owner == owner && eqb u.runtime runtime then some u else none)
              ≡ some t =
            rw (f, find) at e in
          let keyed : u.key ≡ key =
            (eq_iff u.key key).0 (select_one-passes (has_key key) m.transfers f) in
          let same_one : u ≡ t = ground arith in
          subst (λ v. select_one (has_key v.key) m.transfers ≡ some v) same_one
            (subst (λ k. select_one (has_key k) m.transfers ≡ some u) (sym keyed) f)
    ]
find-has_key owner runtime absent m e = cc
find-has_key owner runtime unfit m e = cc

module _ (w : World) (l : Limits) (aim : Aim) where
  Goes-act :
      (owner : String) (runtime : ℕ) (t : Transfer) (action : Action) (args : Args) (m : Manager)
      → aim ≡ aim_on owner runtime action (some t)
      → 1 ≤ l.chunk_bytes
      → select_one (has_key t.key) m.transfers ≡ some t
      → Goes w l aim m (act w l t action args m)
  unfolding act release_transfer
  Goes-act owner runtime t status args m fits blocks found = stop m m refl
  Goes-act owner runtime t release args m fits blocks found =
      Goes-and_then w l aim m (discard_transfer w t m) (λ _ after. (ok (released t.key), after))
        (Goes-discard w l aim t m (inr (inl fits))) (λ _ n _. stop n n refl)
  Goes-act owner runtime t upload_chunk args m fits blocks found =
      if-cases (Replies w l aim m) (is_upload t.direction)
        (λ _. Goes-upload_chunk w l aim t m found fits args) (λ _. stop m m refl)
  Goes-act owner runtime t upload_commit args m fits blocks found =
      if-cases (Replies w l aim m) (is_upload t.direction)
        (λ _. Goes-upload_commit w l aim t m blocks found fits) (λ _. stop m m refl)
  Goes-act owner runtime t download_chunk args m fits blocks found =
      if-cases (Replies w l aim m) (is_upload t.direction) (λ _. stop m m refl) (λ _. stop m m refl)
  Goes-act owner runtime t upload_begin args m fits blocks found = stop m m refl
  Goes-act owner runtime t download_begin args m fits blocks found = stop m m refl
  Goes-act owner runtime t unsupported args m fits blocks found = stop m m refl

  Goes-act_on :
      (owner : String) (runtime : ℕ) (action : Action) (args : Args) (m : Manager)
      → ((t : Transfer)
          → find owner runtime args.transfer_id m ≡ some t
          → aim ≡ aim_on owner runtime action (some t))
      → 1 ≤ l.chunk_bytes
      → Goes w l aim m (act_on w l owner runtime action args m)
  unfolding act_on
  Goes-act_on owner runtime action args m fits blocks =
      elim (Option-cases (find owner runtime args.transfer_id m)) [
        | inl e ↦ rw (e, act_on) (stop m m refl)
        | inr (t, e) ↦
            rw (e, act_on)
              (Goes-act owner runtime t action args m (fits t e) blocks
                (find-has_key owner runtime args.transfer_id m e))
      ]

  -- `start` is the manager that the call began with.
  module _ (owner : String) (runtime : ℕ) (args : Args) (start m : Manager)
      (before : (t : Transfer)
        → find owner runtime args.transfer_id m ≡ some t
        → find owner runtime args.transfer_id start ≡ some t)
      (blocks : 1 ≤ l.chunk_bytes) where
    Goes-found :
        (action : Action)
        → aim ≡ aim_on owner runtime action (find owner runtime args.transfer_id start)
        → Goes w l aim m (act_on w l owner runtime action args m)
    Goes-found action fits =
        Goes-act_on owner runtime action args m
          (λ t e. fits ∙ ap (λ o. aim_on owner runtime action o) (before t e)) blocks

    Goes-dispatch :
        (action : Action)
        → aim ≡ aim_on owner runtime action (find owner runtime args.transfer_id start)
        → Goes w l aim m (dispatch w l owner runtime action args m)
    unfolding dispatch
    Goes-dispatch upload_begin fits = Goes-upload_begin w l aim owner runtime args m fits
    Goes-dispatch download_begin fits = Goes-download_begin w l aim owner runtime args m blocks fits
    Goes-dispatch unsupported fits = stop m m refl
    Goes-dispatch upload_chunk fits = Goes-found upload_chunk fits
    Goes-dispatch upload_commit fits = Goes-found upload_commit fits
    Goes-dispatch download_chunk fits = Goes-found download_chunk fits
    Goes-dispatch status fits = Goes-found status fits
    Goes-dispatch release fits = Goes-found release fits

    Goes-requested :
        aim ≡ aim_of owner runtime args start → Goes w l aim m (requested w l owner runtime args m)
    unfolding requested
    Goes-requested fits = elim (Option-cases (fitting args.action)) [
      | inl e ↦ rw (e, requested) (stop m m refl)
      | inr (action, e) ↦
          rw (e, requested)
            (Goes-dispatch action (
              fits
              ∙ ap (λ o. aim_as owner runtime o (find owner runtime args.transfer_id start)) e))
    ]

module _ (w : World) (l : Limits) where
  -- What can be done with any aim can be done with none, before what is done with one.
  Goes-pruned :
      (aim : Aim) (m : Manager) (r : Result (Unit {0}) × Manager)
      (f : Unit {0} → Manager → Result Reply × Manager)
      → ((a : Aim) → Steps w l a m r.1)
      → ((n : Manager) → Steps w l looking m n → Goes w l aim n (f tt n))
      → Goes w l aim m (and_then r f)
  Goes-pruned aim m (err code, n) f p q = p aim
  Goes-pruned aim m (ok tt, n) f p q = Steps-trans w l aim m n (f tt n).1 (p aim) (q n (p looking))

  pub handle_refines :
      (owner : String) (runtime : ℕ) (args : Args) (m : Manager)
      → 1 ≤ l.chunk_bytes
      → Steps w l (aim_of owner runtime args m) m (handle w l owner runtime args m).1
  unfolding handle prune
  handle_refines owner runtime args m blocks =
      let aim = aim_of owner runtime args m in
      let first : (a : Aim) → Goes w l a m (prune w m) =
        λ a. Goes-discard_all w l a (is_expired w.now) m.transfers m (λ t e. inl e) in
      if-cases (Replies w l aim m) m.closed (λ _. stop m m refl)
        (λ _.
          if-cases (Replies w l aim m) (owner == "") (λ _. stop m m refl)
            (λ _.
              Goes-pruned aim m (prune w m) (λ _ after. requested w l owner runtime args after)
                first
                (λ n pruned.
                  Goes-requested w l aim owner runtime args m n
                    (λ t e. looking-find w l owner runtime args.transfer_id m n t pruned e) blocks
                    refl)))

  pub close_owner-Steps :
      (owner : String) (m : Manager) → Steps w l closing m (close_owner w owner m).1
  unfolding close_owner
  close_owner-Steps owner m =
      Goes-discard_all w l closing (λ t. t.owner == owner) m.transfers m (λ t e. inr (inr refl))

  Goes-remove_cache : (m : Manager) → Goes w l closing m (remove_cache w m)
  unfolding remove_cache
  Goes-remove_cache m =
      let P : Result (Unit {0}) × Manager → Type 0 = λ r. Steps w l closing m r.1 in
      if-cases P (not m.cache_created || not (leb (length m.files) 0)) (λ _. stop m m refl)
        (λ _.
          if-cases P w.removes_cache (λ _. one_step w l closing m _ (same refl refl))
            (λ _. stop m m refl))

  pub close-Steps : (m : Manager) → Steps w l closing m (close w m).1
  unfolding close
  close-Steps m =
      let shut : Manager = record m { closed = true } in
      if-cases (λ (r : Result (Unit {0}) × Manager). Steps w l closing m r.1) m.closed
        (λ _. stop m m refl)
        (λ _. Steps-trans w l closing m shut _ (one_step w l closing m shut (same refl refl)) (
          Goes-and_then w l closing shut (discard_all w (λ t. true) m.transfers shut)
            (λ _ after. remove_cache w after)
            (Goes-discard_all w l closing (λ t. true) m.transfers shut (λ t e. inr (inr refl)))
            (λ _ n _. Goes-remove_cache n)))
