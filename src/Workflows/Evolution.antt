-- ===== src/Workflows/Evolution.antt =====
-- How the rows of `workflows` change: the graph of their states, rows of which each call keeps the
-- identity, and keys that stay unique.
use unified_personal_mcp.Prelude.{
  String, Bool, true, false, some, List, [], ◌∷◌, ◌++◌, ◌≡◌, refl, ◌∙◌, arith, contains, is_some,
  ◌==◌, ◌==◌, eq_iff, eq_refl, inl, inr, All, All-map, Bool-cases,
}
use unified_personal_mcp.Table.{select_one, select_one-All, update}
use unified_personal_mcp.Workflows.State.{
  State, reserved, starting, active, closing, cleanup_blocked, ended, expired, Workflow, is_live,
  has_key,
}

-- The states that a workflow may still get to.
abbrev pub reaches : State → State → Bool
reaches reserved t = true
reaches starting reserved = false
reaches starting expired = false
reaches starting t = true
reaches active active = true
reaches active closing = true
reaches active cleanup_blocked = true
reaches active ended = true
reaches active t = false
reaches closing closing = true
reaches closing cleanup_blocked = true
reaches closing ended = true
reaches closing t = false
reaches cleanup_blocked closing = true
reaches cleanup_blocked cleanup_blocked = true
reaches cleanup_blocked ended = true
reaches cleanup_blocked t = false
reaches ended ended = true
reaches ended t = false
reaches expired expired = true
reaches expired t = false

pub reaches_refl : (s : State) → reaches s s ≡ true
reaches_refl reserved = refl
reaches_refl s = refl

pub reaches_trans : (s t u : State) → reaches s t ≡ true → reaches t u ≡ true → reaches s u ≡ true
reaches_trans reserved t u h k = refl
reaches_trans starting t u h k = ground arith
reaches_trans active t u h k = ground arith
reaches_trans closing t u h k = ground arith
reaches_trans cleanup_blocked t u h k = ground arith
reaches_trans ended t u h k = ground arith
reaches_trans expired t u h k = ground arith

pub reaches-live : (s t : State) → reaches s t ≡ true → is_live t ≡ true → is_live s ≡ true
reaches-live s t h k = ground arith

-- Past its reservation and not over.
abbrev pub is_engaged : State → Bool
is_engaged reserved = false
is_engaged s = is_live s

-- `_end` has begun.
abbrev pub is_settled : State → Bool
is_settled closing = true
is_settled cleanup_blocked = true
is_settled ended = true
is_settled s = false

pub reaches-settled : (s t : State) → reaches s t ≡ true → is_settled s ≡ true → is_settled t ≡ true
reaches-settled s t h k = ground arith

-- What becomes of one row `r` while the keys in `held` are starting.
pub record Evolve (held : List String) (s r : Workflow) : Type 0 where
  pub key : s.token_hash ≡ r.token_hash
  pub owner : s.owner ≡ r.owner
  pub request_id : s.request_id ≡ r.request_id
  pub digest : s.digest ≡ r.digest
  pub project : s.project ≡ r.project
  pub access : s.access ≡ r.access
  pub move : reaches r.state s.state ≡ true
  pub engaged :
      contains r.token_hash held ≡ true → is_engaged r.state ≡ true → is_engaged s.state ≡ true

pub Evolve-refl : (held : List String) (r : Workflow) → Evolve held r r
Evolve-refl held r = record {
  key = refl;
  owner = refl;
  request_id = refl;
  digest = refl;
  project = refl;
  access = refl;
  move = reaches_refl r.state;
  engaged = λ c e. e;
}

pub Evolve-trans :
    {held : List String} {t s r : Workflow} → Evolve held t s → Evolve held s r → Evolve held t r
Evolve-trans {held} {t} {s} {r} f g = record {
  key = f.key ∙ g.key;
  owner = f.owner ∙ g.owner;
  request_id = f.request_id ∙ g.request_id;
  digest = f.digest ∙ g.digest;
  project = f.project ∙ g.project;
  access = f.access ∙ g.access;
  move = reaches_trans r.state s.state t.state g.move f.move;
  engaged = λ c e. f.engaged (rw g.key c) (g.engaged c e);
}

-- A change of the state column alone.
pub Evolve-state :
    (held : List String) (s r : Workflow)
    → s.token_hash ≡ r.token_hash
    → s.owner ≡ r.owner
    → s.request_id ≡ r.request_id
    → s.digest ≡ r.digest
    → s.project ≡ r.project
    → s.access ≡ r.access
    → s.state ≡ r.state
    → Evolve held s r
Evolve-state held s r a b c d e f g = record {
  key = a;
  owner = b;
  request_id = c;
  digest = d;
  project = e;
  access = f;
  move = rw g (reaches_refl r.state);
  engaged = λ _ h. rw g h;
}

-- The rows after a call: each row before it, evolved, in its place, and then new ones.
abbrev pub Evolves : List String → List Workflow → List Workflow → Type 0
Evolves held ss [] = Unit
Evolves held [] (r ∷ rs) = ⊥
Evolves held (s ∷ ss) (r ∷ rs) = Evolve held s r × Evolves held ss rs

pub Evolves-refl : (held : List String) (rs : List Workflow) → Evolves held rs rs
Evolves-refl held [] = tt
Evolves-refl held (r ∷ rs) = (Evolve-refl held r, Evolves-refl held rs)

pub Evolves-trans :
    (held : List String) (ts ss rs : List Workflow)
    → Evolves held ts ss
    → Evolves held ss rs
    → Evolves held ts rs
Evolves-trans held ts ss [] f g = tt
Evolves-trans held ts [] (r ∷ rs) f g = absurd g
Evolves-trans held [] (s ∷ ss) (r ∷ rs) f g = absurd f
Evolves-trans held (t ∷ ts) (s ∷ ss) (r ∷ rs) f g =
    (Evolve-trans f.0 g.0, Evolves-trans held ts ss rs f.1 g.1)

pub Evolves-append : (held : List String) (rs new : List Workflow) → Evolves held (rs ++ new) rs
Evolves-append held [] new = tt
Evolves-append held (r ∷ rs) new = (Evolve-refl held r, Evolves-append held rs new)

pub Evolves-update :
    (held : List String) (p : Workflow → Bool) (f : Workflow → Workflow) (rs : List Workflow)
    → All (λ r. p r ≡ true → Evolve held (f r) r) rs
    → Evolves held (update p f rs) rs
Evolves-update held p f [] h = tt
Evolves-update held p f (r ∷ rs) h = elim (Bool-cases (p r)) [
  | inl e ↦ rw e (h.0 e, Evolves-update held p f rs h.1)
  | inr e ↦ rw e (Evolve-refl held r, Evolves-update held p f rs h.1)
]

-- No two rows have one key.
abbrev pub Unique : List Workflow → Type 0
Unique [] = Unit
Unique (r ∷ rs) = All (λ s. has_key r.token_hash s ≡ false) rs × Unique rs

flip_key : (a b : String) → (a == b) ≡ false → (b == a) ≡ true → ⊥
flip_key a b h k = ground (arith, eq_iff a b, eq_iff b a)

-- The row that a `SELECT` finds is the only one with its key.
pub Unique-only :
    (q : Workflow → Bool) (rs : List Workflow) {w : Workflow}
    → Unique rs
    → select_one q rs ≡ some w
    → All (λ r. has_key w.token_hash r ≡ true → r ≡ w) rs
Unique-only q [] u e = tt
Unique-only q (r ∷ rs) {w} u e = elim (Bool-cases (q r)) [
  | inl t ↦
      let e' : some r ≡ some w = rw t at e in
      let same : r ≡ w = cc in rw (← same) ((λ _. refl), All-map _ _ rs (λ s no h. cc) u.0)
  | inr t ↦
      let e' : select_one q rs ≡ some w = rw t at e in
      (
        (λ h. absurd (flip_key w.token_hash r.token_hash (select_one-All q _ rs u.0 e').1 h)),
        Unique-only q rs u.1 e',
      )
]

-- Rows are never removed: a key that is there stays there.
pub Evolves-present :
    (held : List String) (key : String) (ss rs : List Workflow)
    → Evolves held ss rs
    → is_some (select_one (has_key key) rs) ≡ true
    → is_some (select_one (has_key key) ss) ≡ true
Evolves-present held key ss [] f h = cc
Evolves-present held key [] (r ∷ rs) f h = absurd f
Evolves-present held key (s ∷ ss) (r ∷ rs) f h = elim (Bool-cases (r.token_hash == key)) [
  | inl e ↦ rw (f.0.key, e)
  | inr e ↦ rw (f.0.key, e) (Evolves-present held key ss rs f.1 (rw e at h))
]

Evolve-forget : {held : List String} {s r : Workflow} → Evolve held s r → Evolve [] s r
Evolve-forget e = record {
  key = e.key;
  owner = e.owner;
  request_id = e.request_id;
  digest = e.digest;
  project = e.project;
  access = e.access;
  move = e.move;
  engaged = λ c g. cc;
}

pub Evolves-forget :
    (held : List String) (ss rs : List Workflow) → Evolves held ss rs → Evolves [] ss rs
Evolves-forget held ss [] f = tt
Evolves-forget held [] (r ∷ rs) f = absurd f
Evolves-forget held (s ∷ ss) (r ∷ rs) f = (Evolve-forget f.0, Evolves-forget held ss rs f.1)

-- The key of a row that a `SELECT` found is there.
pub select_one-there :
    (q : Workflow → Bool) (w : Workflow) (rs : List Workflow)
    → select_one q rs ≡ some w
    → is_some (select_one (has_key w.token_hash) rs) ≡ true
select_one-there q w [] e = cc
select_one-there q w (r ∷ rs) e = elim (Bool-cases (has_key w.token_hash r)) [
  | inl k ↦ rw k
  | inr k ↦ rw k (select_one-there q w rs (ground (arith, eq_refl w.token_hash)))
]
