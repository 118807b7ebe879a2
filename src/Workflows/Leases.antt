-- ===== src/Workflows/Leases.antt =====
-- Headline facts of `WorkflowRegistry` under every interleaving of its critical sections.
use unified_personal_mcp.Prelude.{
  ℕ, String, true, false, some, List, [], ◌∷◌, ◌≡◌, ◌≢◌, arith, inl, inr, Bool-cases, eq_iff,
}
use unified_personal_mcp.Table.{select_one, select_one-All}
use unified_personal_mcp.Workflows.Mirror.{Mirrors}
use unified_personal_mcp.Workflows.State.{FilePath, read, Workflow, Registry, has_key, is_live}
use unified_personal_mcp.Workflows.Begin.{overlaps}
use unified_personal_mcp.Workflows.Evolution.{Evolves}
use unified_personal_mcp.Workflows.Lease.{clash, Exclusive}
use unified_personal_mcp.Workflows.World.{Call, start, runs}
use unified_personal_mcp.Workflows.Schedules.{start-IsSound, runs-Goes}

overlaps_comm : (p q : FilePath) → overlaps p q ≡ overlaps q p
unfolding overlaps
overlaps_comm p q = ground arith

clash_comm : (r s : Workflow) → clash r s ≡ false → clash s r ≡ false
unfolding clash
clash_comm r s h = ground (arith, overlaps_comm r.project s.project)

-- Two rows with different keys that a `SELECT` finds do not clash.
Exclusive-two :
    (j k : String) (rows : List Workflow) {r s : Workflow}
    → j ≢ k
    → Exclusive rows
    → select_one (has_key j) rows ≡ some r
    → select_one (has_key k) rows ≡ some s
    → clash r s ≡ false
Exclusive-two j k [] ne h ej ek = cc
Exclusive-two j k (q ∷ rows) {r} {s} ne h ej ek = elim (Bool-cases (has_key j q)) [
  | inl at_j ↦
      let r_first : q ≡ r = ground arith in
      let later : select_one (has_key k) rows ≡ some s =
        ground (arith, eq_iff q.token_hash j, eq_iff q.token_hash k) in
      rw (← r_first) (select_one-All (has_key k) _ rows h.0 later).1
  | inr not_j ↦ elim (Bool-cases (has_key k q)) [
    | inl at_k ↦
        let s_first : q ≡ s = ground arith in
        let later : select_one (has_key j) rows ≡ some r = ground arith in
        rw (← s_first) (clash_comm q r (select_one-All (has_key j) _ rows h.0 later).1)
    | inr not_k ↦ Exclusive-two j k rows ne h.1 (ground arith) (ground arith)
  ]
]

no_clash-read :
    (r s : Workflow)
    → clash r s ≡ false
    → is_live r.state ≡ true
    → is_live s.state ≡ true
    → overlaps r.project s.project ≡ true
    → (r.access ≡ read) × (s.access ≡ read)
unfolding clash
no_clash-read r s h lr ls o = ground arith

module _ (sha256 : String → String) (idle : ℕ) (calls : List Call) where
  abbrev reached : Registry
  reached = (runs sha256 idle calls start).registry

  -- From the empty registry, whatever calls are interleaved: two live workflows with different keys,
  -- of which one's project directory is, or holds, or lies in the other's, are both read-only.
  pub exclusive_leases :
      (j k : String) {r s : Workflow}
      → j ≢ k
      → select_one (has_key j) reached.rows ≡ some r
      → select_one (has_key k) reached.rows ≡ some s
      → is_live r.state ≡ true
      → is_live s.state ≡ true
      → overlaps r.project s.project ≡ true
      → (r.access ≡ read) × (s.access ≡ read)
  exclusive_leases j k {r} {s} ne ej ek lr ls o =
      no_clash-read r s
        (Exclusive-two j k reached.rows ne
          (runs-Goes sha256 idle calls start start-IsSound).sound.valid.exclusive ej ek)
        lr ls o

  -- From the empty registry, whatever calls are interleaved: _metadata has the keys of the table's rows, in
  -- the same order, and their states, but that a reservation may be EXPIRED in one of them and still RESERVED
  -- in the other.
  pub metadata-Mirrors : Mirrors reached.metadata reached.rows
  metadata-Mirrors = (runs-Goes sha256 idle calls start start-IsSound).sound.valid.mirror

  -- Between two points of a schedule from the empty registry no row is removed or moved; each keeps
  -- its key, owner, request, digest, project and access, and its state goes on as `reaches` says: ENDED
  -- and EXPIRED are final, CLOSING and CLEANUP_BLOCKED lead to one another and to ENDED, ACTIVE to
  -- these, STARTING to ACTIVE and these, and only RESERVED leads to EXPIRED.
  pub rows_evolve :
      (later : List Call)
      → Evolves []
          (runs sha256 idle later (runs sha256 idle calls start)).registry.rows
          reached.rows
  rows_evolve later =
      (runs-Goes sha256 idle later (runs sha256 idle calls start)
        (runs-Goes sha256 idle calls start start-IsSound).sound).evolves
