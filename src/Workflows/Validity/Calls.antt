-- ===== src/Workflows/Validity/Calls.antt =====
-- The other calls of `WorkflowRegistry` keep the invariant: `activate` in its three parts, `use`,
-- `resume` and the restart of the host.
use unified_personal_mcp.Prelude.{
  ℕ, String, Bool, true, false, not, ◌||◌, none, some, [], ◌∷◌, ◌==◌, ◌≡◌, refl, arith, contains,
  discard, contains-discard, inl, inr, All, All-map, All-map₂, Bool-cases, Option-cases, if-cases,
  is_some, eq_iff,
}
use unified_personal_mcp.Table.{select_one, select_one-passes, All-update_at}
use unified_personal_mcp.Workflows.State.{
  expired, starting, active, cleanup_blocked, startup_failed, Workflow, Registry, Result-cases,
  has_key, is_reserved, is_active, is_starting, row, set_state,
}
use unified_personal_mcp.Workflows.End.{Surroundings}
use unified_personal_mcp.Workflows.Idle.{lapsed, expire}
use unified_personal_mcp.Workflows.Activate.{
  Admission, activate_row, activate_start, activate_failed, cancelled, keep_resource,
  activate_ready,
}
use unified_personal_mcp.Workflows.Found.{row-Found}
use unified_personal_mcp.Workflows.Evolution.{
  Evolves, Evolves-refl, Evolves-trans, Evolves-forget, Evolves-present, select_one-there,
  is_engaged,
}
use unified_personal_mcp.Workflows.Mirror.{Mirrors-find, Mirrors-missing, Alike-is_starting}
use unified_personal_mcp.Workflows.Validity.{
  IsValid, Follows, Follows-refl, Follows-trans, set_state-Follows, set_state-Follows_found,
  touch-Follows,
}
use unified_personal_mcp.Workflows.Validity.Idle.{expire-Follows}

-- A call after which the invariant holds and every row has evolved.
pub record Advances (reg reg' : Registry) : Type 0 where
  pub valid : IsValid reg'
  pub evolves : Evolves [] reg'.rows reg.rows

pub Advances-Follows : {reg reg' : Registry} → Follows reg reg' → Advances reg reg'
Advances-Follows {reg} {reg'} f = record {
  valid = f.valid;
  evolves = Evolves-forget reg.starting reg'.rows reg.rows f.evolves;
}

pub Advances-trans : {a b c : Registry} → Advances a b → Advances b c → Advances a c
Advances-trans {a} {b} {c} f g = record {
  valid = g.valid;
  evolves = Evolves-trans [] c.rows b.rows a.rows g.evolves f.evolves;
}

-- Keys that stop starting.
fewer_starting :
    (reg reg' : Registry)
    → reg'.rows ≡ reg.rows
    → reg'.metadata ≡ reg.metadata
    → ((k : String) → contains k reg'.starting ≡ true → contains k reg.starting ≡ true)
    → IsValid reg
    → Advances reg reg'
fewer_starting reg reg' er em less v = record {
  valid = record {
    mirror = rw (er, em) (v.mirror);
    unique = rw er v.unique;
    exclusive = rw er v.exclusive;
    started = rw er (All-map _ _ reg.rows (λ r h k. h (less r.token_hash k)) v.started);
    present = λ key h. rw er (v.present key (less key h));
  };
  evolves = rw er (Evolves-refl [] reg.rows);
}

-- A key whose rows are past their reservation begins to start.
more_starting :
    (key : String) (reg reg' : Registry)
    → reg'.rows ≡ reg.rows
    → reg'.metadata ≡ reg.metadata
    → reg'.starting ≡ key ∷ discard key reg.starting
    → All (λ r. has_key key r ≡ true → is_engaged r.state ≡ true) reg.rows
    → is_some (select_one (has_key key) reg.rows) ≡ true
    → IsValid reg
    → Advances reg reg'
more_starting key reg reg' er em es at_key there v = record {
  valid = record {
    mirror = rw (er, em) (v.mirror);
    unique = rw er v.unique;
    exclusive = rw er v.exclusive;
    started =
        rw (er, es)
          (All-map₂ _ _ _ reg.rows
            (λ r a h c. ground (
              arith,
              a,
              h,
              eq_iff key r.token_hash,
              eq_iff r.token_hash key,
              contains-discard r.token_hash key reg.starting,
            ))
            at_key v.started);
    present = λ k h. rw er (elim (Bool-cases (key == k)) [
      | inl e ↦ let same : key ≡ k = (eq_iff key k).0 e in rw (← same) there
      | inr e ↦ v.present k (contains-discard k key reg.starting (rw (es, e) at h))
    ]);
  };
  evolves = rw er (Evolves-refl [] reg.rows);
}

module _ (now : ℕ) (q : Workflow → Bool) (w : Workflow) (reg : Registry)
    (found : select_one q reg.rows ≡ some w) (v : IsValid reg) where
  start-Advances :
      is_reserved w.state ≡ true
      → (reg' : Registry) → reg'.rows ≡ (set_state w.token_hash starting none reg).rows
      → reg'.metadata ≡ (set_state w.token_hash starting none reg).metadata
      → reg'.starting ≡ w.token_hash ∷ discard w.token_hash reg.starting
      → Advances reg reg'
  unfolding set_state
  start-Advances is_new reg' er em es = Advances-trans (Advances-Follows marked) (
      more_starting w.token_hash (set_state w.token_hash starting none reg) reg' er em es
        (All-update_at (has_key w.token_hash) (λ r. is_engaged r.state ≡ true) _ reg.rows
          (λ r. refl))
        (Evolves-present reg.starting w.token_hash _ reg.rows marked.evolves there) marked.valid)
    where
      marked : Follows reg (set_state w.token_hash starting none reg)
      marked =
          set_state-Follows_found q starting none reg found
            (record { move = ground arith; engaged = λ c e. refl }) v

      there : is_some (select_one (has_key w.token_hash) reg.rows) ≡ true
      there = select_one-there q w reg.rows found

  pub activate_row-Advances : Advances reg (activate_row now w reg).1
  unfolding activate_row
  activate_row-Advances =
      if-cases P (lapsed now w)
        (λ late. Advances-Follows (
          set_state-Follows_found q expired none reg found
            (record { move = ground arith; engaged = λ c e. ground arith }) v))
        λ _.
          if-cases P (reg.closed || not (is_reserved w.state || is_active w.state))
            (λ _. Advances-Follows (Follows-refl v))
            λ may.
              if-cases P (is_active w.state)
                (λ _. Advances-Follows (touch-Follows w.token_hash now reg v))
                (λ idle. start-Advances (ground arith) _ refl refl refl)
    where
      P : Admission × Registry → Type 0
      P out = Advances reg out.1

pub activate_start-Advances :
    (sha256 : String → String) (idle_timeout : ℕ) (env : Surroundings) (owner token : String)
    (reg : Registry)
    → IsValid reg
    → Advances reg (activate_start sha256 idle_timeout env owner token reg).1
unfolding activate_start
activate_start-Advances sha256 idle_timeout env owner token reg v =
    elim (Result-cases (row sha256 (expire idle_timeout env reg) owner token)) [
      | inl (e, denied) ↦ rw (denied, activate_start) (Advances-Follows first)
      | inr (w, found) ↦
          rw (found, activate_start)
            (Advances-trans (Advances-Follows first) (
              activate_row-Advances env.now _ w (expire idle_timeout env reg)
                (row-Found sha256 (expire idle_timeout env reg) owner token found).selected
                first.valid))
    ]
  where
    first : Follows reg (expire idle_timeout env reg)
    first = expire-Follows idle_timeout env reg v

-- A start that was not cancelled may become active.
activated :
    (key : String) (reg : Registry)
    → IsValid reg
    → cancelled key reg ≡ false
    → Follows reg (set_state key active none reg)
unfolding cancelled
activated key reg v on = elim (Option-cases (select_one (has_key key) reg.rows)) [
  | inl missing ↦
      let lost = Mirrors-missing key reg.metadata reg.rows v.mirror missing in
      let no : true ≡ false = rw (lost, cancelled) at on in cc
  | inr (w, found) ↦
      let same : w.token_hash ≡ key =
        (eq_iff w.token_hash key).0 (select_one-passes (has_key key) reg.rows found) in
      let (m, cached, alike) = Mirrors-find key reg.metadata reg.rows v.mirror found in
      let goes : reg.closed || not (is_starting m.state) ≡ false = rw (cached, cancelled) at on in
      let starts : is_starting w.state ≡ true = Alike-is_starting m w alike (ground arith) in
      rw same at (
        set_state-Follows_found (has_key key) active none reg found
          (record { move = ground arith; engaged = λ c e. refl }) v)
]

module _ (key : String) (reg : Registry) (v : IsValid reg)
    (starts : contains key reg.starting ≡ true) where
  -- The rows of a starting key are engaged.
  engaged_at : All (λ r. has_key key r ≡ true → is_engaged r.state ≡ true) reg.rows
  engaged_at =
      All-map _ _ reg.rows
        (λ r h k.
          h (let same : r.token_hash ≡ key = (eq_iff r.token_hash key).0 k in rw same starts))
        v.started

  pub activate_failed-Advances : Advances reg (activate_failed key reg)
  unfolding activate_failed set_state
  activate_failed-Advances = Advances-trans (Advances-Follows blocked) (
      fewer_starting (set_state key cleanup_blocked (some startup_failed) reg) _ refl refl
        (λ k. contains-discard k key reg.starting) blocked.valid)
    where
      blocked : Follows reg (set_state key cleanup_blocked (some startup_failed) reg)
      blocked =
          set_state-Follows key cleanup_blocked (some startup_failed) reg
            (All-map _ _ reg.rows
              (λ r e k. record { move = ground (arith, e k); engaged = λ c g. refl }) engaged_at)
            v

  pub activate_ready-Advances : (now : ℕ) → Advances reg (activate_ready now key reg).1
  unfolding activate_ready
  activate_ready-Advances now = Advances-trans kept (
      if-cases P (cancelled key (keep_resource key reg))
        (λ _. Advances-Follows (touch-Follows key now _ kept.valid))
        (λ on. Advances-Follows (
          Follows-trans (activated key _ kept.valid on)
            (touch-Follows key now _ (activated key _ kept.valid on).valid))))
    where
      P : Bool × Registry → Type 0
      P out = Advances (keep_resource key reg) out.1

      kept : Advances reg (keep_resource key reg)
      kept =
          unfold keep_resource in
          fewer_starting reg _ refl refl (λ k. contains-discard k key reg.starting) v
