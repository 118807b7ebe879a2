-- ===== src/Workflows/Validity/Ending.antt =====
-- `_end` keeps the invariant, and settles the workflow that it ends.
use unified_personal_mcp.Prelude.{
  String, true, false, not, none, some, List, ◌≡◌, refl, arith, contains, discard, leb, inl, inr,
  All, All-map, All-map₂, Bool-cases, Option-cases, eq_iff, if-cases, if◌then◌else◌,
}
use unified_personal_mcp.Table.{select_one, select_one-passes, select_one-none, All-update_at}
use unified_personal_mcp.Workflows.State.{
  State, closing, cleanup_blocked, ended, Workflow, Registry, Code, cleanup_in_progress,
  requests_in_progress, cleanup_failed, has_key, is_live, is_ended, set_state,
}
use unified_personal_mcp.Workflows.End.{
  Surroundings, end_start, end_finish, end_row, metadata_ended, released,
}
use unified_personal_mcp.Workflows.Evolution.{is_settled, Unique-only}
use unified_personal_mcp.Workflows.Mirror.{Mirrors-find, Alike-is_ended}
use unified_personal_mcp.Workflows.Validity.{
  IsValid, Follows, Follows-refl, Follows-trans, MayMove, set_state-Follows,
  set_state-Follows_found, same-Follows,
}

-- Every row with the key has begun to end.
abbrev pub SettledAt : String → List Workflow → Type 0
SettledAt key = All (λ r. has_key key r ≡ true → is_settled r.state ≡ true)

-- Without its key among the ended ones in the cache, no row with the key is ended.
not_ended :
    (key : String) (reg : Registry)
    → IsValid reg
    → metadata_ended key reg ≡ false
    → All (λ r. has_key key r ≡ true → is_ended r.state ≡ false) reg.rows
not_ended key reg v e = elim (Option-cases (select_one (has_key key) reg.rows)) [
  | inl no_row ↦ All-map _ _ reg.rows (λ r n k. cc) (select_one-none (has_key key) reg.rows no_row)
  | inr (w, found) ↦
      let k : has_key key w ≡ true = select_one-passes (has_key key) reg.rows found in
      let same : w.token_hash ≡ key = (eq_iff w.token_hash key).0 k in
      let (m, cached, alike) = Mirrors-find key reg.metadata reg.rows v.mirror found in
      let live : is_ended w.state ≡ false =
        Alike-is_ended m w alike (rw (cached, metadata_ended) at e) in
      All-map _ _ reg.rows (λ r is_w h. rw (is_w (rw same h)) live)
        (Unique-only (has_key key) reg.rows v.unique found)
]

-- A settled workflow that is not ended may be blocked, and may end unless it is starting.
may_block :
    (held : List String) (r : Workflow)
    → is_settled r.state ≡ true
    → is_ended r.state ≡ false
    → MayMove held cleanup_blocked r
may_block held r s e = record { move = ground arith; engaged = λ c g. refl }

may_end :
    (held : List String) (r : Workflow)
    → is_settled r.state ≡ true
    → contains r.token_hash held ≡ false
    → MayMove held ended r
may_end held r s e = record { move = ground arith; engaged = λ c g. cc }

module _ (key : String) (reg : Registry) (v : IsValid reg) (s : SettledAt key reg.rows) where
  block-Follows :
      (c : Code)
      → metadata_ended key reg ≡ false
      → Follows reg (set_state key cleanup_blocked (some c) reg)
  block-Follows c e =
      set_state-Follows key cleanup_blocked (some c) reg
        (All-map₂ _ _ _ reg.rows (λ r a b k. may_block reg.starting r (a k) (b k)) s
          (not_ended key reg v e))
        v

  finish-Follows :
      contains key reg.starting ≡ false
      → Follows reg
          (set_state key ended none (record reg { resources = discard key reg.resources }))
  finish-Follows e =
      let cleared : Registry = record reg { resources = discard key reg.resources } in
      let same : Follows reg cleared = same-Follows reg cleared refl refl refl v in
      Follows-trans same (
        set_state-Follows key ended none cleared
          (All-map _ _ reg.rows
            (λ r a k.
              may_end reg.starting r (a k)
                (let at_key : r.token_hash ≡ key = (eq_iff r.token_hash key).0 k in rw at_key e))
            s)
          same.valid)

  -- Whatever the wait and the clean-up bring, the end of `_end` keeps the invariant.
  pub end_finish-Follows :
      (env : Surroundings) (prior : State) → Follows reg (end_finish env key prior reg)
  unfolding end_finish
  end_finish-Follows env prior =
      if-cases P (not (env.gate_free key)) (λ busy. unless_ended cleanup_in_progress)
        λ free.
          if-cases P (metadata_ended key reg) (λ over. Follows-refl v)
            λ going.
              if-cases P (not (leb (reg.inflight key) 0))
                (λ used. block-Follows requests_in_progress going)
                λ unused.
                  if-cases P (contains key reg.starting)
                    (λ starts. block-Follows requests_in_progress going)
                    λ idle.
                      if-cases P (released env key prior reg) (λ gone. finish-Follows idle)
                        λ kept. block-Follows cleanup_failed going
    where
      P : Registry → Type 0
      P = Follows reg

      unless_ended :
          (c : Code)
          → Follows reg
              (if metadata_ended key reg then reg else set_state key cleanup_blocked (some c) reg)
      unless_ended c =
          if-cases (Follows reg) (metadata_ended key reg) (λ over. Follows-refl v)
            (λ going. block-Follows c going)

live_closing : (held : List String) (w : Workflow) → is_live w.state ≡ true → MayMove held closing w
live_closing held w e = record { move = ground arith; engaged = λ c g. refl }

module _ (key : String) (reg : Registry) (v : IsValid reg) where
  pub end_start-Follows : Follows reg (end_start key reg).1
  unfolding end_start
  end_start-Follows = elim (Option-cases (select_one (has_key key) reg.rows)) [
    | inl missing ↦ rw (missing, end_start) (Follows-refl v)
    | inr (w, found) ↦ elim (Bool-cases (is_live w.state)) [
      | inl live ↦
          rw (found, end_start, live)
            (let at_key : w.token_hash ≡ key =
                (eq_iff w.token_hash key).0 (select_one-passes (has_key key) reg.rows found) in
              rw at_key at (
                set_state-Follows_found (has_key key) closing none reg found
                  (live_closing reg.starting w live) v))
      | inr over ↦ rw (found, end_start, over) (Follows-refl v)
    ]
  ]

  -- What `end_start` begins to end is settled.
  pub end_start-SettledAt :
      (prior : State)
      → (end_start key reg).0 ≡ some prior
      → SettledAt key (end_start key reg).1.rows
  unfolding end_start set_state
  end_start-SettledAt prior e = elim (Option-cases (select_one (has_key key) reg.rows)) [
    | inl missing ↦ let e' : none ≡ some prior = rw (missing, end_start) at e in cc
    | inr (w, found) ↦ elim (Bool-cases (is_live w.state)) [
      | inl live ↦
          rw (found, end_start, live)
            (All-update_at (has_key key) (λ r. is_settled r.state ≡ true) _ reg.rows (λ r. refl))
      | inr over ↦ let e' : none ≡ some prior = rw (found, end_start, over) at e in cc
    ]
  ]

-- The whole `_end` keeps the invariant.
pub end_row-Follows :
    (env : Surroundings) (key : String) (reg : Registry)
    → IsValid reg
    → Follows reg (end_row env key reg)
unfolding end_row
end_row-Follows env key reg v = elim (Option-cases (end_start key reg).0) [
  | inl nothing ↦ rw (nothing, end_row) begun
  | inr (prior, e) ↦
      rw (e, end_row)
        (Follows-trans begun (
          end_finish-Follows key (end_start key reg).1 begun.valid
            (end_start-SettledAt key reg v prior e) env prior))
]
  where
    begun : Follows reg (end_start key reg).1
    begun = end_start-Follows key reg v
