-- ===== src/Workflows/Validity.antt =====
-- The invariant of `WorkflowRegistry`, and how a call may change the registry.
pub mod Ending
pub mod Idle
pub mod Begin
pub mod Calls
pub mod Uses
use unified_personal_mcp.Prelude.{
  ℕ, String, Bool, true, Option, some, List, [], ◌∷◌, ◌≡◌, refl, ◌∙◌, contains, is_some, inl, inr,
  All, All-pointwise, All-map, Bool-cases,
}
use unified_personal_mcp.Table.{select_one, update}
use unified_personal_mcp.Workflows.State.{
  State, Workflow, Registry, Code, has_key, set_state, touch,
}
use unified_personal_mcp.Workflows.Evolution.{
  Evolve, Evolve-state, Evolves, Evolves-refl, Evolves-trans, Evolves-update, Evolves-present,
  Unique, Unique-only, reaches, is_engaged,
}
use unified_personal_mcp.Workflows.Mirror.{Mirrors, Mirrors-at}
use unified_personal_mcp.Workflows.Lease.{Exclusive, Exclusive-update, Unique-update}

-- A workflow that is starting is past its reservation and not over.
abbrev pub Started : List String → List Workflow → Type 0
Started held = All (λ r. contains r.token_hash held ≡ true → is_engaged r.state ≡ true)

pub record IsValid (reg : Registry) : Type 0 where
  pub mirror : Mirrors reg.metadata reg.rows
  pub unique : Unique reg.rows
  pub exclusive : Exclusive reg.rows
  pub started : Started reg.starting reg.rows
  pub present :
      (key : String)
      → contains key reg.starting ≡ true
      → is_some (select_one (has_key key) reg.rows) ≡ true

-- A call that starts no workflow: the invariant holds after it, and every row has evolved.
pub record Follows (reg reg' : Registry) : Type 0 where
  pub valid : IsValid reg'
  pub evolves : Evolves reg.starting reg'.rows reg.rows
  pub same_starting : reg'.starting ≡ reg.starting

pub Follows-refl : {reg : Registry} → IsValid reg → Follows reg reg
Follows-refl {reg} v = record {
  valid = v;
  evolves = Evolves-refl reg.starting reg.rows;
  same_starting = refl;
}

pub Follows-trans : {a b c : Registry} → Follows a b → Follows b c → Follows a c
Follows-trans {a} {b} {c} f g = record {
  valid = g.valid;
  evolves =
      Evolves-trans a.starting c.rows b.rows a.rows (rw f.same_starting at g.evolves) f.evolves;
  same_starting = g.same_starting ∙ f.same_starting;
}

module _ (held : List String) (p : Workflow → Bool) (f : Workflow → Workflow) where
  pub Started-update :
      (rs : List Workflow)
      → All (λ r. p r ≡ true → Evolve held (f r) r) rs
      → Started held rs
      → Started held (update p f rs)
  Started-update [] c h = tt
  Started-update (r ∷ rs) c h = elim (Bool-cases (p r)) [
    | inl e ↦
        let v : Evolve held (f r) r = c.0 e in
        rw e ((λ k. v.engaged (rw v.key at k) (h.0 (rw v.key at k))), Started-update rs c.1 h.1)
    | inr e ↦ rw e (h.0, Started-update rs c.1 h.1)
  ]

-- One `UPDATE` of the table, made in the cache too.
pub update-Follows :
    (p : Workflow → Bool) (f : Workflow → Workflow) (reg reg' : Registry)
    → reg'.rows ≡ update p f reg.rows
    → Mirrors reg'.metadata (update p f reg.rows)
    → reg'.starting ≡ reg.starting
    → All (λ r. p r ≡ true → Evolve reg.starting (f r) r) reg.rows
    → IsValid reg
    → Follows reg reg'
update-Follows p f reg reg' er em es c v = record {
  valid = record {
    mirror = rw er em;
    unique = rw er (Unique-update reg.starting p f reg.rows c v.unique);
    exclusive = rw er (Exclusive-update reg.starting p f reg.rows c v.exclusive);
    started = rw (er, es) (Started-update reg.starting p f reg.rows c v.started);
    present = λ key h. rw er (
        Evolves-present reg.starting key (update p f reg.rows) reg.rows
          (Evolves-update reg.starting p f reg.rows c) (v.present key (rw es at h)));
  };
  evolves = rw er (Evolves-update reg.starting p f reg.rows c);
  same_starting = es;
}

-- Fields that no statement here reads may change freely.
pub same-Follows :
    (reg reg' : Registry)
    → reg'.rows ≡ reg.rows
    → reg'.metadata ≡ reg.metadata
    → reg'.starting ≡ reg.starting
    → IsValid reg
    → Follows reg reg'
same-Follows reg reg' er em es v = record {
  valid = record {
    mirror = rw (er, em) (v.mirror);
    unique = rw er v.unique;
    exclusive = rw er v.exclusive;
    started = rw (er, es) v.started;
    present = λ key h. rw er (v.present key (rw es at h));
  };
  evolves = rw er (Evolves-refl reg.starting reg.rows);
  same_starting = es;
}

-- The states that a row may be moved to.
pub record MayMove (held : List String) (s : State) (r : Workflow) : Type 0 where
  pub move : reaches r.state s ≡ true
  pub engaged : contains r.token_hash held ≡ true → is_engaged r.state ≡ true → is_engaged s ≡ true

pub set_state-Follows :
    (key : String) (s : State) (e : Option Code) (reg : Registry)
    → All (λ r. has_key key r ≡ true → MayMove reg.starting s r) reg.rows
    → IsValid reg
    → Follows reg (set_state key s e reg)
unfolding set_state
set_state-Follows key s e reg c v =
    update-Follows (has_key key) (λ w. record w { state = s; error = e }) reg _ refl
      (Mirrors-at key (λ w. record w { state = s; error = e })
        (λ w. record w { state = s; error = e }) reg.metadata reg.rows (λ m w a. (a.0, inl refl))
        v.mirror)
      refl
      (All-map _ _ reg.rows
        (λ r m k. record {
          key = refl;
          owner = refl;
          request_id = refl;
          digest = refl;
          project = refl;
          access = refl;
          move = (m k).move;
          engaged = (m k).engaged;
        })
        c)
      v

-- The row that a `SELECT` found is moved by its key.
pub set_state-Follows_found :
    (q : Workflow → Bool) (s : State) (e : Option Code) (reg : Registry) {w : Workflow}
    → select_one q reg.rows ≡ some w
    → MayMove reg.starting s w
    → IsValid reg
    → Follows reg (set_state w.token_hash s e reg)
set_state-Follows_found q s e reg {w} found m v =
    set_state-Follows w.token_hash s e reg
      (All-map _ _ reg.rows (λ r same k. rw (same k) m) (Unique-only q reg.rows v.unique found)) v

pub touch-Follows :
    (key : String) (now : ℕ) (reg : Registry) → IsValid reg → Follows reg (touch key now reg)
unfolding touch
touch-Follows key now reg v =
    update-Follows (has_key key) (λ w. record w { last_activity = now }) reg _ refl
      (Mirrors-at key (λ w. record w { last_activity = now })
        (λ w. record w { last_activity = now }) reg.metadata reg.rows (λ m w a. a) v.mirror)
      refl
      (All-pointwise _ reg.rows
        (λ r k. Evolve-state reg.starting _ r refl refl refl refl refl refl refl))
      v
