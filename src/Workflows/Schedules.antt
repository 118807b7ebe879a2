-- ===== src/Workflows/Schedules.antt =====
-- The invariant along every schedule.
use unified_personal_mcp.Prelude.{
  ℕ, String, true, false, Option, none, some, List, [], ◌∷◌, ◌≡◌, refl, arith, contains, is_some,
  inl, inr, All, All-pointwise, All-map, All-map₂, Bool-cases, Option-cases, if-cases, eq_iff,
  if◌then◌else◌, ◌==◌,
}
use unified_personal_mcp.Table.{select_one}
use unified_personal_mcp.Workflows.State.{State, Workflow, Registry, Result, has_key}
use unified_personal_mcp.Workflows.End.{end_start}
use unified_personal_mcp.Workflows.Use.{use_admit}
use unified_personal_mcp.Workflows.Host.{restart}
use unified_personal_mcp.Workflows.Evolution.{
  Evolves, Evolves-refl, Evolves-trans, Evolves-present, Unique, is_settled, reaches-settled,
}
use unified_personal_mcp.Workflows.Validity.{IsValid, Follows, Follows-refl}
use unified_personal_mcp.Workflows.Validity.Ending.{
  SettledAt, end_start-Follows, end_start-SettledAt, end_finish-Follows,
}
use unified_personal_mcp.Workflows.Validity.Idle.{release_idle-Follows, expire-Follows}
use unified_personal_mcp.Workflows.Validity.Begin.{begin-Follows}
use unified_personal_mcp.Workflows.Validity.Calls.{
  Advances, Advances-Follows, activate_start-Advances, activate_failed-Advances,
  activate_ready-Advances,
}
use unified_personal_mcp.Workflows.Validity.Uses.{
  use_request-Follows, use_admit-Follows, use_exit-Follows, resume-Follows, restart-Advances,
  close-Follows, recover-Follows,
}
use unified_personal_mcp.Workflows.World.{
  World, Call, begin_call, activate_call, factory_failed, factory_ready, use_call, admit_call,
  exit_call, resume_call, release_call, expire_call, end_begins, end_returns, close_call,
  recover_call, restart_call, admitted_registry, perform, runs, start, with_registry,
}

-- The workflows of the calls of `_end` under way are settled and in the table.
abbrev pub Settled : List String → List Workflow → Type 0
Settled keys = All (λ r. contains r.token_hash keys ≡ true → is_settled r.state ≡ true)

abbrev pub InTable : List String → List Workflow → Type 0
InTable keys rows =
    (key : String) → contains key keys ≡ true → is_some (select_one (has_key key) rows) ≡ true

pub record IsSound (w : World) : Type 0 where
  pub valid : IsValid w.registry
  pub settled : Settled w.ending w.registry.rows
  pub in_table : InTable w.ending w.registry.rows

pub start-IsSound : IsSound start
start-IsSound = record {
  valid = record { mirror = tt; unique = tt; exclusive = tt; started = tt; present = λ k h. cc };
  settled = tt;
  in_table = λ k h. cc;
}

-- Sound, and every row evolved.
pub record Goes (w w' : World) : Type 0 where
  pub sound : IsSound w'
  pub evolves : Evolves [] w'.registry.rows w.registry.rows

-- The keys of the rows `ss` that are in `keys` are keys of `rs`.
abbrev InOld : List String → List Workflow → List Workflow → Type 0
InOld keys ss rs =
    All
      (λ s.
        contains s.token_hash keys ≡ true → is_some (select_one (has_key s.token_hash) rs) ≡ true)
      ss

InOld-tail :
    (keys : List String) (key : String) (r : Workflow) (ss rs : List Workflow)
    → key ≡ r.token_hash
    → All (λ s. has_key key s ≡ false) ss
    → InOld keys ss (r ∷ rs)
    → InOld keys ss rs
InOld-tail keys key r ss rs same other h =
    All-map₂ _ _ _ ss
      (λ s no old c.
        ground (arith, same, no, old c, eq_iff r.token_hash s.token_hash, eq_iff s.token_hash key))
      other h

Settled-Evolves :
    (keys : List String) (ss rs : List Workflow)
    → Evolves [] ss rs
    → Unique ss
    → InOld keys ss rs
    → Settled keys rs
    → Settled keys ss
Settled-Evolves keys [] rs f u o h = tt
Settled-Evolves keys (s ∷ ss) [] f u o h =
    ((λ c. let no : false ≡ true = o.0 c in cc), Settled-Evolves keys ss [] tt u.1 o.1 tt)
Settled-Evolves keys (s ∷ ss) (r ∷ rs) f u o h = (
  (λ c. reaches-settled r.state s.state f.0.move (h.0 (rw f.0.key at c))),
  Settled-Evolves keys ss rs f.1 u.1 (InOld-tail keys s.token_hash r ss rs f.0.key u.0 o.1) h.1,
)

-- A call that begins no `_end` and ends none.
keeps :
    (w : World) (reg : Registry)
    → IsSound w
    → Advances w.registry reg
    → Goes w (with_registry w reg)
keeps w reg s a = record {
  sound = record {
    valid = a.valid;
    settled =
        Settled-Evolves w.ending reg.rows w.registry.rows a.evolves a.valid.unique
          (All-pointwise _ reg.rows (λ r c. s.in_table r.token_hash c)) s.settled;
    in_table = λ k h. Evolves-present [] k reg.rows w.registry.rows a.evolves (s.in_table k h);
  };
  evolves = a.evolves;
}

stays : (w : World) → IsSound w → Goes w w
stays w s = record { sound = s; evolves = Evolves-refl [] w.registry.rows }

-- An `_end` under way may return.
returns :
    (key : String) (w : World)
    → IsSound w
    → contains key w.ending ≡ true
    → SettledAt key w.registry.rows
returns key w s e =
    All-map _ _ w.registry.rows
      (λ r h k. h (let same : r.token_hash ≡ key = (eq_iff r.token_hash key).0 k in rw same e))
      s.settled

end_start-there :
    (key : String) (reg : Registry) (prior : State)
    → (end_start key reg).0 ≡ some prior
    → is_some (select_one (has_key key) reg.rows) ≡ true
unfolding end_start
end_start-there key reg prior e = elim (Option-cases (select_one (has_key key) reg.rows)) [
  | inl missing ↦ let no : none ≡ some prior = rw (missing, end_start) at e in cc
  | inr (w, found) ↦ rw found
]

-- `_end` begins: its key joins the ones under way, if there is something to end.
begins :
    (key : String) (w : World)
    → IsSound w
    → Goes w (record {
      registry = (end_start key w.registry).1;
      ending = if is_some (end_start key w.registry).0 then key ∷ w.ending else w.ending;
    })
begins key w s = elim (Option-cases (end_start key w.registry).0) [
  | inl nothing ↦ rw nothing (keeps w reg s moved)
  | inr (prior, e) ↦
      let old : Goes w (with_registry w reg) = keeps w reg s moved in
      rw e (record {
        sound = record {
          valid = moved.valid;
          settled =
              All-map₂ _ _ _ reg.rows
                (λ r a b c. ground (arith, a, b, eq_iff key r.token_hash, eq_iff r.token_hash key))
                (end_start-SettledAt key w.registry s.valid prior e) old.sound.settled;
          in_table = λ k h. elim (Bool-cases (key == k)) [
            | inl same ↦
                let at_key : key ≡ k = (eq_iff key k).0 same in
                rw (← at_key) (
                  Evolves-present [] key reg.rows w.registry.rows moved.evolves
                    (end_start-there key w.registry prior e))
            | inr other ↦ old.sound.in_table k (rw other at h)
          ];
        };
        evolves = moved.evolves;
      })
]
  where
    reg : Registry
    reg = (end_start key w.registry).1

    moved : Advances w.registry reg
    moved = Advances-Follows (end_start-Follows key w.registry s.valid)

admits :
    (w : World) (out : Option (Result String × Registry))
    → IsSound w
    → ((o : Result String × Registry) → out ≡ some o → Follows w.registry o.1)
    → Goes w (with_registry w (admitted_registry w.registry out))
unfolding admitted_registry
admits w none s f = keeps w w.registry s (Advances-Follows (Follows-refl s.valid))
admits w (some o) s f = keeps w o.1 s (Advances-Follows (f o refl))

module _ (sha256 : String → String) (idle : ℕ) where
  pub perform-Goes : (c : Call) (w : World) → IsSound w → Goes w (perform sha256 idle c w)
  unfolding perform
  perform-Goes (begin_call b env owner project request_id access ttl) w s = keeps w _ s (
      Advances-Follows (begin-Follows b env owner request_id ttl project access w.registry s.valid))
  perform-Goes (activate_call env owner token) w s =
      keeps w _ s (activate_start-Advances sha256 idle env owner token w.registry s.valid)
  perform-Goes (factory_failed key) w s =
      if-cases (Goes w) (contains key w.registry.starting)
        (λ e. keeps w _ s (activate_failed-Advances key w.registry s.valid e)) (λ _. stays w s)
  perform-Goes (factory_ready now key) w s =
      if-cases (Goes w) (contains key w.registry.starting)
        (λ e. keeps w _ s (activate_ready-Advances key w.registry s.valid e now)) (λ _. stays w s)
  perform-Goes (use_call ticket now owner token writes control) w s = keeps w _ s (
      Advances-Follows
        (use_request-Follows sha256 ticket now owner token writes control w.registry s.valid))
  perform-Goes (admit_call ticket now owner token key writes control touches) w s =
      admits w (use_admit sha256 ticket now owner token key writes control touches w.registry) s
        (λ o e.
          use_admit-Follows sha256 ticket now owner token key writes control touches w.registry
            s.valid e)
  perform-Goes (exit_call now key writes control touches) w s =
      keeps w _ s
        (Advances-Follows (use_exit-Follows now key writes control touches w.registry s.valid))
  perform-Goes (resume_call vault ttl now token owner workflow_ref request_id generation) w s =
      keeps w _ s (
        Advances-Follows (
          resume-Follows vault ttl now token owner workflow_ref request_id generation w.registry
            s.valid))
  perform-Goes (release_call env owner workflow_ref) w s =
      keeps w _ s
        (Advances-Follows (release_idle-Follows idle env owner workflow_ref w.registry s.valid))
  perform-Goes (expire_call env) w s =
      keeps w _ s (Advances-Follows (expire-Follows idle env w.registry s.valid))
  perform-Goes (end_begins key) w s = begins key w s
  perform-Goes (end_returns env key prior) w s =
      if-cases (Goes w) (contains key w.ending)
        (λ e. keeps w _ s (
          Advances-Follows
            (end_finish-Follows key w.registry s.valid (returns key w s e) env prior)))
        (λ _. stays w s)
  perform-Goes (close_call env) w s =
      keeps w _ s (Advances-Follows (close-Follows env w.registry s.valid))
  perform-Goes (recover_call env) w s =
      keeps w _ s (Advances-Follows (recover-Follows idle env w.registry s.valid))
  perform-Goes restart_call w s =
      let a : Advances w.registry (restart w.registry) = restart-Advances w.registry s.valid in
      record {
        sound = record {
          valid = a.valid;
          settled = All-pointwise _ _ (λ r c. cc);
          in_table = λ k h. cc;
        };
        evolves = a.evolves;
      }

  pub runs-Goes : (calls : List Call) (w : World) → IsSound w → Goes w (runs sha256 idle calls w)
  unfolding runs
  runs-Goes [] w s = stays w s
  runs-Goes (c ∷ calls) w s =
      let one : Goes w (perform sha256 idle c w) = perform-Goes c w s in
      let more : Goes (perform sha256 idle c w) (runs sha256 idle calls (perform sha256 idle c w)) =
        runs-Goes calls (perform sha256 idle c w) one.sound in
      record {
        sound = more.sound;
        evolves =
            Evolves-trans [] _ (perform sha256 idle c w).registry.rows w.registry.rows more.evolves
              one.evolves;
      }
