-- ===== src/Transfers/Downloading.antt =====
-- personal_mcp/file_transfer.py: the downloads refine Spec.
use unified_personal_mcp.Prelude.{
  stop, ℕ, suc, ◌+◌, ◌≤◌, ◌≡◌, refl, sym, ap, ◌∙◌, String, not, ◌||◌, none, some, List, ◌==◌, arith,
  inl, inr, eqb, ltb, eqb→eq, length, if◌then◌else◌, if-cases, Bool-cases, Option-cases,
}
use unified_personal_mcp.Transfers.State.{
  io_error, source_changed, Result, ok, err, and_then, Limits, Manager, Source, fitting, Args,
  Reply,
}
use unified_personal_mcp.Transfers.Cache.{World, allocate, remove_staged}
use unified_personal_mcp.Transfers.Steps.{HasRoom, capacity-cases, allocate-cases}
use unified_personal_mcp.Transfers.Blocks.{snapshot-all}
use unified_personal_mcp.Transfers.Spec.{Aim, beginning, began, one_step, Steps-trans}
use unified_personal_mcp.Transfers.Download.{
  checked_copy, stable_copy, snapshot, new_download, keep_snapshot, take_snapshot, download_source,
}
use unified_personal_mcp.Transfers.Download
use unified_personal_mcp.Transfers.Refines.{
  Goes, Replies, Same-Steps, HasRoom-Same, Goes-and_then, Goes-remove_staged,
}

checked_copy-ok :
    (source : Source) (copied bytes : List ℕ)
    → checked_copy source copied ≡ ok bytes
    → (copied ≡ bytes) × (length copied ≡ source.size)
unfolding checked_copy
checked_copy-ok source copied bytes =
    let P : Result (List ℕ) → Type 0 =
      λ r. r ≡ ok bytes → (copied ≡ bytes) × (length copied ≡ source.size) in
    if-cases P (not (eqb (length copied) source.size) || not source.times_kept) (λ _ e. cc)
      (λ sized. elim (Option-cases source.refused_again) [
        | inr (code, f) ↦ rw f (λ e. cc)
        | inl f ↦ rw f (
            if-cases P
              (not (source.path_again == source.path)
                || not (eqb source.identity_again source.identity))
              (λ _ e. cc) (λ _ e. (cc, eqb→eq _ _ (ground arith))))
      ])

-- What is kept of a source is all of it, and as long as it was said to be.
pub stable_copy-ok :
    (l : Limits) (source : Source) (bytes : List ℕ)
    → 1 ≤ l.chunk_bytes
    → stable_copy l source ≡ ok bytes
    → (source.content ≡ bytes) × (length bytes ≡ source.size)
unfolding stable_copy
stable_copy-ok l source bytes blocks e =
    let all =
      snapshot-all (suc (length source.content)) l.chunk_bytes source.size 0 source.content blocks
        (omega arith) (omega arith) in
    elim (Bool-cases (ltb source.size (0 + length source.content))) [
      | inl grown ↦
          let nothing : snapshot (suc (length source.content)) l.chunk_bytes source.size 0
                source.content
              ≡ none =
            rw grown at all in
          let absurd : err source_changed ≡ ok bytes = rw (nothing, stable_copy) at e in cc
      | inr fits ↦
          let copied : snapshot (suc (length source.content)) l.chunk_bytes source.size 0
                source.content
              ≡ some source.content =
            rw fits at all in
          let checked : checked_copy source source.content ≡ ok bytes =
            rw (copied, stable_copy) at e in
          let (whole, sized) = checked_copy-ok source source.content bytes checked in
          (whole, ap length (sym whole) ∙ sized)
    ]

module _ (w : World) (l : Limits) (aim : Aim) where
  Goes-keep_snapshot :
      (owner : String) (runtime : ℕ) (source : Source) (key staged : String)
      (copied : Result (List ℕ)) (m : Manager)
      → ((bytes : List ℕ) → copied ≡ ok bytes → length bytes ≡ source.size)
      → aim ≡ beginning owner runtime
      → HasRoom w l owner source.size m
      → Goes w l aim m (keep_snapshot w l owner runtime source key staged copied m)
  unfolding keep_snapshot
  Goes-keep_snapshot owner runtime source key staged (err code) m sized begins room =
      Goes-and_then w l aim m (remove_staged w staged m) (λ _ after. (err code, after))
        (Goes-remove_staged w l aim staged m) (λ _ n _. stop n n refl)
  Goes-keep_snapshot owner runtime source key staged (ok bytes) m sized begins room =
      let t = new_download w owner runtime source key staged bytes in
      let fits : HasRoom w l owner (length bytes) m = rw (sized bytes refl) room in
      one_step w l aim m _ (began t begins fits refl refl refl refl)

  Goes-take_snapshot :
      (owner : String) (runtime : ℕ) (source : Source) (key staged : String) (m : Manager)
      → 1 ≤ l.chunk_bytes
      → aim ≡ beginning owner runtime
      → HasRoom w l owner source.size m
      → Goes w l aim m (take_snapshot w l owner runtime source key staged m)
  unfolding take_snapshot
  Goes-take_snapshot owner runtime source key staged m blocks begins room =
      Goes-keep_snapshot owner runtime source key staged
        (if w.opens staged then stable_copy l source else err io_error) m
        (λ bytes.
          if-cases (λ (r : Result (List ℕ)). r ≡ ok bytes → length bytes ≡ source.size)
            (w.opens staged) (λ _ e. (stable_copy-ok l source bytes blocks e).1) (λ _ e. cc))
        begins room

  Goes-download_source :
      (owner : String) (runtime : ℕ) (source : Source) (m : Manager)
      → 1 ≤ l.chunk_bytes
      → aim ≡ beginning owner runtime
      → Goes w l aim m (download_source w l owner runtime source m)
  unfolding download_source
  Goes-download_source owner runtime source m blocks begins =
      let with_file : String × String → Manager → Result Reply × Manager =
        λ (key, staged) after. take_snapshot w l owner runtime source key staged after in
      if-cases (Replies w l aim m) (not source.regular) (λ _. stop m m refl)
        (λ _.
          capacity-cases w l owner source.size m
            (λ r.
              Replies w l aim m
                (and_then r (λ _ seen. and_then (allocate w l source.size seen) with_file)))
            (λ code n s _. Same-Steps w l aim m n s)
            (λ n s _ room.
              allocate-cases w l source.size n (λ r. Replies w l aim m (and_then r with_file))
                (λ code k t.
                  Steps-trans w l aim m n k (Same-Steps w l aim m n s) (Same-Steps w l aim n k t))
                (λ key staged k (t, _, _, _).
                  Steps-trans w l aim m k _
                    (Steps-trans w l aim m n k (Same-Steps w l aim m n s)
                      (Same-Steps w l aim n k t))
                    (Goes-take_snapshot owner runtime source key staged k blocks begins (
                      HasRoom-Same w l aim owner source.size n k t
                        (HasRoom-Same w l aim owner source.size m n s room))))))

  pub Goes-download_begin :
      (owner : String) (runtime : ℕ) (args : Args) (m : Manager)
      → 1 ≤ l.chunk_bytes
      → aim ≡ beginning owner runtime
      → Goes w l aim m (Download.download_begin w l owner runtime args m)
  unfolding Download.download_begin
  Goes-download_begin owner runtime args m blocks begins = elim (Option-cases (fitting args.path)) [
    | inl e ↦ rw (e, Download.download_begin) (stop m m refl)
    | inr (raw, e) ↦
        rw (e, Download.download_begin)
          (if-cases (Replies w l aim m) (raw == "") (λ _. stop m m refl)
            (λ _. elim (Option-cases (w.source raw).refused) [
              | inr (code, f) ↦ rw f (stop m m refl)
              | inl f ↦ rw f (Goes-download_source owner runtime (w.source raw) m blocks begins)
            ]))
  ]
