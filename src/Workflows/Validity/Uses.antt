-- ===== src/Workflows/Validity/Uses.antt =====
-- `use`, `resume` and the calls of the host keep the invariant.
use unified_personal_mcp.Prelude.{
  ℕ, ◌+◌, String, Bool, true, not, ◌&&◌, ◌||◌, count, Option, none, some, List, [], ◌∷◌, ◌==◌, ◌≡◌,
  refl, arith, leb, ltb, contains, inl, inr, All, All-pointwise, Option-cases, if-cases, is_some,
  if◌then◌else◌,
}
use unified_personal_mcp.Table.{select_one, delete}
use unified_personal_mcp.Workflows.State.{
  Workflow, ResumeResponse, Registry, Result, ok, err, Result-cases, has_key, hash, is_active,
  is_write, row, reference_row, touch,
}
use unified_personal_mcp.Workflows.End.{Surroundings, end_row, end}
use unified_personal_mcp.Workflows.Use.{
  takes_gate, same_ticket, use_request, enter, use_row, use_admit, use_exit,
}
use unified_personal_mcp.Workflows.Resume.{
  Vault, ResumeRequest, Resumed, replace_credential, store_credential, new_reply, same_generation,
  rotate, resume_row, resume,
}
use unified_personal_mcp.Workflows.Host.{
  is_running, mark_restarted, restart, end_all, close, recover, held_rows, blocked_rows,
}
use unified_personal_mcp.Workflows.Evolution.{Evolve, Evolve-state, Evolves-update}
use unified_personal_mcp.Workflows.Lease.{Exclusive-update, Unique-update}
use unified_personal_mcp.Workflows.Mirror.{Mirrors-at, Mirrors-refl}
use unified_personal_mcp.Workflows.Validity.{
  IsValid, Follows, Follows-refl, Follows-trans, update-Follows, same-Follows, touch-Follows,
}
use unified_personal_mcp.Workflows.Validity.Ending.{end_row-Follows}
use unified_personal_mcp.Workflows.Validity.Idle.{expire-Follows}
use unified_personal_mcp.Workflows.Validity.Calls.{Advances}

pub use_request-Follows :
    (sha256 : String → String) (ticket now : ℕ) (owner token : String) (writes control : Bool)
    (reg : Registry)
    → IsValid reg
    → Follows reg (use_request sha256 ticket now owner token writes control reg).1
unfolding use_request
use_request-Follows sha256 ticket now owner token writes control reg v =
    elim (Result-cases (row sha256 reg owner token)) [
      | inl (e, denied) ↦ rw (denied, use_request) (Follows-refl v)
      | inr (w, found) ↦
          rw (found, use_request)
            (if-cases (Follows reg) (takes_gate writes control)
              (λ _. same-Follows reg _ refl refl refl v) (λ _. Follows-refl v))
    ]

enter-Follows :
    (key : String) (gated : Bool) (reg : Registry) → IsValid reg → Follows reg (enter key gated reg)
unfolding enter
enter-Follows key gated reg v = same-Follows reg _ refl refl refl v

module _ (now : ℕ) (key : String) (writes control touches : Bool) where
  pub use_row-Follows :
      (w : Workflow) (reg : Registry)
      → IsValid reg
      → Follows reg (use_row now key writes control touches w reg).1
  unfolding use_row
  use_row-Follows w reg v =
      if-cases P (reg.closed || not (is_active w.state) || not (contains key reg.resources))
        (λ _. Follows-refl v)
        λ _.
          if-cases P (writes && not (is_write w.access)) (λ _. Follows-refl v)
            λ _.
              Follows-trans touched (enter-Follows key (takes_gate writes control) _ touched.valid)
    where
      P : Result String × Registry → Type 0
      P out = Follows reg out.1

      touched : Follows reg (if touches then touch key now reg else reg)
      touched =
          if-cases (Follows reg) touches (λ _. touch-Follows key now reg v) (λ _. Follows-refl v)

  pub use_exit-Follows :
      (reg : Registry) → IsValid reg → Follows reg (use_exit now key writes control touches reg)
  unfolding use_exit
  use_exit-Follows reg v =
      if-cases (Follows reg) touches
        (λ _.
          Follows-trans (same-Follows reg _ refl refl refl v)
            (touch-Follows key now _ (same-Follows reg _ refl refl refl v).valid))
        (λ _. same-Follows reg _ refl refl refl v)

-- An admission that was not blocked.
pub use_admit-Follows :
    (sha256 : String → String) (ticket now : ℕ) (owner token key : String)
    (writes control touches : Bool) (reg : Registry) {out : Result String × Registry}
    → IsValid reg
    → use_admit sha256 ticket now owner token key writes control touches reg ≡ some out
    → Follows reg out.1
unfolding use_admit
use_admit-Follows sha256 ticket now owner token key writes control touches reg {out} v e =
    Follows-trans first (elim (Result-cases (row sha256 unqueued owner token)) [
      | inl (f, denied) ↦
          let at : out ≡ (err f, unqueued) = ground arith in rw at (Follows-refl first.valid)
      | inr (w, found) ↦
          let at : out ≡ use_row now w.token_hash writes control touches w unqueued =
            ground arith in
          rw at (use_row-Follows now w.token_hash writes control touches w unqueued first.valid)
    ])
  where
    unqueued : Registry
    unqueued = record reg { queued = delete (same_ticket ticket) reg.queued }

    first : Follows reg unqueued
    first = same-Follows reg unqueued refl refl refl v

module _ (vault : Vault) (ttl now : ℕ) (token : String) (q : ResumeRequest) (reg : Registry)
    (v : IsValid reg) where
  abbrev Resumes : Result Resumed × Registry → Type 0
  Resumes out = Follows reg out.1

  replace_credential-Follows :
      (fresh encrypted : String)
      → Follows reg (replace_credential vault ttl now q fresh encrypted reg)
  unfolding replace_credential
  replace_credential-Follows fresh encrypted =
      update-Follows (has_key q.key)
        (λ w. record w { credential_generation = q.expected_generation + 1; last_activity = now })
        reg _ refl
        (Mirrors-at q.key
          (λ w. record w {
            credential_generation = q.expected_generation + 1;
            last_activity = vault.cached_at;
          })
          (λ w. record w { credential_generation = q.expected_generation + 1; last_activity = now })
          reg.metadata reg.rows (λ m w a. a) v.mirror)
        refl
        (All-pointwise _ reg.rows
          (λ r k. Evolve-state reg.starting _ r refl refl refl refl refl refl refl))
        v

  store_credential-Follows :
      (reply : Resumed) (encrypted : Option String) (fresh : Result String)
      → Resumes (store_credential vault ttl now q reply encrypted fresh reg)
  unfolding store_credential
  store_credential-Follows reply none fresh = Follows-refl v
  store_credential-Follows reply (some encrypted) (err e) = Follows-refl v
  store_credential-Follows reply (some encrypted) (ok fresh) =
      if-cases Resumes (is_some (select_one (λ c. c.credential_hash == fresh) reg.credentials))
        (λ _. Follows-refl v) (λ _. replace_credential-Follows fresh encrypted)

  rotate-Follows : (w : Workflow) → Resumes (rotate vault ttl now token q w reg)
  unfolding rotate
  rotate-Follows w =
      if-cases Resumes (not (same_generation q.expected_generation w.credential_generation))
        (λ _. Follows-refl v)
        (λ _. store_credential-Follows (new_reply token q) _ (hash vault.sha256 token))

  resume_row-Follows : (w : Workflow) → Resumes (resume_row vault ttl now token q w reg)
  unfolding resume_row
  resume_row-Follows w =
      if-cases Resumes (reg.closed || not (is_active w.state) || not (contains q.key reg.resources))
        (λ _. Follows-refl v)
        λ _.
          elim (Option-cases (
            select_one (λ (r : ResumeResponse). r.owner == q.owner && r.request_id == q.request_id)
              reg.responses)) [
                | inl new ↦ rw (new, resume_row) (rotate-Follows w)
                | inr (prior, known) ↦ rw (known, resume_row) (Follows-refl v)
              ]

pub resume-Follows :
    (vault : Vault) (ttl now : ℕ) (token owner : String) (workflow_ref : Option String)
    (request_id : String) (expected_generation : ℕ) (reg : Registry)
    → IsValid reg
    → Follows reg
        (resume vault ttl now token owner workflow_ref request_id expected_generation reg).1
unfolding resume
resume-Follows vault ttl now token owner workflow_ref request_id expected_generation reg v =
    if-cases (λ (out : Result Resumed × Registry). Follows reg out.1)
      (leb (count request_id) 0 || ltb 128 (count request_id)) (λ _. Follows-refl v)
      λ _. elim (Result-cases (reference_row reg owner workflow_ref)) [
        | inl (e, denied) ↦ rw (denied, resume) (Follows-refl v)
        | inr (w, found) ↦ rw (found, resume) (resume_row-Follows vault ttl now token _ reg v w)
      ]

pub restart-Advances : (reg : Registry) → IsValid reg → Advances reg (restart reg)
unfolding restart
restart-Advances reg v = record {
  valid = record {
    mirror = Mirrors-refl _;
    unique = Unique-update [] _ mark_restarted reg.rows crash v.unique;
    exclusive = Exclusive-update [] _ mark_restarted reg.rows crash v.exclusive;
    started = All-pointwise _ _ (λ r h. cc);
    present = λ key h. cc;
  };
  evolves = Evolves-update [] _ mark_restarted reg.rows crash;
}
  where
    crash : All (λ r. is_running r.state ≡ true → Evolve [] (mark_restarted r) r) reg.rows
    crash = All-pointwise _ reg.rows (λ r e. record {
      key = refl;
      owner = refl;
      request_id = refl;
      digest = refl;
      project = refl;
      access = refl;
      move = ground arith;
      engaged = λ c g. cc;
    })

pub end_all-Follows :
    (env : Surroundings) (ws : List Workflow) (reg : Registry)
    → IsValid reg
    → Follows reg (end_all env ws reg)
unfolding end_all
end_all-Follows env [] reg v = Follows-refl v
end_all-Follows env (w ∷ ws) reg v =
    let one : Follows reg (end_row env w.token_hash reg) = end_row-Follows env w.token_hash reg v in
    Follows-trans one (end_all-Follows env ws _ one.valid)

pub close-Follows :
    (env : Surroundings) (reg : Registry) → IsValid reg → Follows reg (close env reg).1
unfolding close
close-Follows env reg v =
    let stopped : Registry = record reg { closed = true } in
    let first : Follows reg stopped = same-Follows reg stopped refl refl refl v in
    Follows-trans first (end_all-Follows env (held_rows stopped) stopped first.valid)

pub recover-Follows :
    (idle_timeout : ℕ) (env : Surroundings) (reg : Registry)
    → IsValid reg
    → Follows reg (recover idle_timeout env reg).1
unfolding recover
recover-Follows idle_timeout env reg v =
    let first : Follows reg (end_all env (blocked_rows reg) reg) =
      end_all-Follows env (blocked_rows reg) reg v in
    Follows-trans first (expire-Follows idle_timeout env _ first.valid)

pub end-Follows :
    (sha256 : String → String) (env : Surroundings) (owner token : String) (reg : Registry)
    → IsValid reg
    → Follows reg (end sha256 env owner token reg).1
unfolding end
end-Follows sha256 env owner token reg v = elim (Result-cases (row sha256 reg owner token)) [
  | inl (e, denied) ↦ rw (denied, end) (Follows-refl v)
  | inr (w, found) ↦ rw (found, end) (end_row-Follows env w.token_hash reg v)
]
