-- ===== src/Workflows/Validity/Idle.antt =====
-- `release_idle` and `expire` keep the invariant.
use unified_personal_mcp.Prelude.{
  ℕ, ◌+◌, String, true, not, Option, none, some, List, [], ◌∷◌, ◌≡◌, refl, arith, leb, ltb, inl,
  inr, All-pointwise, if-cases,
}
use unified_personal_mcp.Workflows.State.{
  Workflow, Registry, Public, Result, is_live, is_active, reference_row, Result-cases,
}
use unified_personal_mcp.Workflows.End.{Surroundings}
use unified_personal_mcp.Workflows.Idle.{
  lapsed, mark_expired, blockers, release_unblocked, release_row, release_idle, expire_reserved,
  release_all, idle_rows, expire,
}
use unified_personal_mcp.Workflows.Mirror.{Mirrors-lapsed}
use unified_personal_mcp.Workflows.Evolution.{Evolve}
use unified_personal_mcp.Workflows.Validity.{
  IsValid, Follows, Follows-refl, Follows-trans, update-Follows,
}
use unified_personal_mcp.Workflows.Validity.Ending.{end_row-Follows}

-- A lapsed reservation expires, and nothing else does.
pub lapsed-Evolve :
    (held : List String) (now : ℕ) (r : Workflow)
    → lapsed now r ≡ true
    → Evolve held (mark_expired r) r
lapsed-Evolve held now r e = record {
  key = refl;
  owner = refl;
  request_id = refl;
  digest = refl;
  project = refl;
  access = refl;
  move = ground arith;
  engaged = λ c g. ground arith;
}

pub expire_reserved-Follows :
    (env : Surroundings) (reg : Registry) → IsValid reg → Follows reg (expire_reserved env reg)
unfolding expire_reserved
expire_reserved-Follows env reg v =
    update-Follows (lapsed env.now) mark_expired reg _ refl
      (Mirrors-lapsed env.cached_now env.now reg.metadata reg.rows v.mirror) refl
      (All-pointwise _ reg.rows (lapsed-Evolve reg.starting env.now)) v

module _ (env : Surroundings) (owner : String) where
  release_unblocked-Follows :
      (key : String) (answer : Option (List String)) (reg : Registry)
      → IsValid reg
      → Follows reg (release_unblocked env owner key answer reg).1
  unfolding release_unblocked
  release_unblocked-Follows key none reg v = Follows-refl v
  release_unblocked-Follows key (some (b ∷ bs)) reg v = Follows-refl v
  release_unblocked-Follows key (some []) reg v = end_row-Follows env key reg v

  release_row-Follows :
      (idle_timeout : ℕ) (w : Workflow) (reg : Registry)
      → IsValid reg
      → Follows reg (release_row idle_timeout env owner w reg).1
  unfolding release_row
  release_row-Follows idle_timeout w reg v =
      if-cases P (not (is_live w.state)) (λ _. Follows-refl v)
        λ _.
          if-cases P reg.closed (λ _. Follows-refl v)
            λ _.
              if-cases P (not (is_active w.state)) (λ _. Follows-refl v)
                λ _.
                  if-cases P (not (leb (reg.inflight w.token_hash) 0)) (λ _. Follows-refl v)
                    λ _.
                      if-cases P (ltb env.now (w.last_activity + idle_timeout))
                        (λ _. Follows-refl v)
                        λ _.
                          release_unblocked-Follows w.token_hash (blockers env w.token_hash reg) reg
                            v
    where
      P : Result Public × Registry → Type 0
      P out = Follows reg out.1

pub release_idle-Follows :
    (idle_timeout : ℕ) (env : Surroundings) (owner : String) (workflow_ref : Option String)
    (reg : Registry)
    → IsValid reg
    → Follows reg (release_idle idle_timeout env owner workflow_ref reg).1
unfolding release_idle
release_idle-Follows idle_timeout env owner workflow_ref reg v =
    elim (Result-cases (reference_row reg owner workflow_ref)) [
      | inl (e, denied) ↦ rw (denied, release_idle) (Follows-refl v)
      | inr (w, found) ↦
          rw (found, release_idle)
            (if-cases (λ (out : Result Public × Registry). Follows reg out.1)
              (env.gate_free w.token_hash) (λ _. release_row-Follows env owner idle_timeout w reg v)
              (λ _. Follows-refl v))
    ]

release_all-Follows :
    (idle_timeout : ℕ) (env : Surroundings) (ws : List Workflow) (reg : Registry)
    → IsValid reg
    → Follows reg (release_all idle_timeout env ws reg)
unfolding release_all
release_all-Follows idle_timeout env [] reg v = Follows-refl v
release_all-Follows idle_timeout env (w ∷ ws) reg v =
    let then_ : Surroundings = record env { now = env.release_now w.token_hash } in
    let one : Follows reg (release_idle idle_timeout then_ w.owner (some w.token_hash) reg).1 =
      release_idle-Follows idle_timeout then_ w.owner (some w.token_hash) reg v in
    Follows-trans one (release_all-Follows idle_timeout env ws _ one.valid)

pub expire-Follows :
    (idle_timeout : ℕ) (env : Surroundings) (reg : Registry)
    → IsValid reg
    → Follows reg (expire idle_timeout env reg)
unfolding expire
expire-Follows idle_timeout env reg v =
    let first : Follows reg (expire_reserved env reg) = expire_reserved-Follows env reg v in
    Follows-trans first (
      release_all-Follows idle_timeout env
        (idle_rows idle_timeout env.idle_now (expire_reserved env reg)) (expire_reserved env reg)
        first.valid)
