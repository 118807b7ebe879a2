-- ===== src/Tasks/Calls.antt =====
-- bf_automation/task_store.py: what the calls do to the records, the claims, the jobs and the fences.
use unified_personal_mcp.Prelude.{
  ℕ, ◌≡◌, refl, sym, subst, String, Bool, true, false, not, ◌&&◌, Option, none, some, [], ◌∷◌, ◌++◌,
  ◌==◌, arith, inl, inr, contains, discard, starts_with, if◌then◌else◌, if-cases, Option-cases,
  Chain, stop, Chain-one, Chain-trans,
}
use unified_personal_mcp.Table.{select_one, select_one-passes}
use unified_personal_mcp.Table.Keys.{==→eq}
use unified_personal_mcp.Tasks.State.{
  Code, task_ending, Project, Result-cases, Result, ok, err, and_then, Task, Store, Codec, Lookup,
  found, no_such_process, denied,
}
use unified_personal_mcp.Tasks.Store.{
  task_key, has_key, is_active, require, with_pid, add_owned_pid, spawned_reply, spawn_in,
  spawn_owned, is_job, stop_owned, bind_window, begin, project_path, valid_context, new_task,
  write_pid,
}
use unified_personal_mcp.Tasks.End.{fence}
use unified_personal_mcp.Tasks.Claims.{is_active_task}
use unified_personal_mcp.Tasks.Spec.{Step, Core, core, wrote, begun, listed, dropped, fenced}

-- A task that is let through is there, under the token's key, and active.
pub record Required (c : Codec) (token : String) (t : Task) (s : Store) : Type 0 where
  pub there : select_one (has_key t.key) s.tasks ≡ some t
  pub key : t.key ≡ task_key c token
  pub alive : is_active t.status ≡ true
  pub starts : starts_with token "bf_" ≡ true
  pub hash : (t.token_sha256 == c.sha256 token) ≡ true

module _ (c : Codec) where
  pub require-cases {κ} :
      (allow_ending : Bool) (token : String) (s : Store) (P : Result Task → Type κ)
      → ((code : Code) → P (err code))
      → ((t : Task)
          → Required c token t s
          → (allow_ending ≡ false → contains t.key s.ending ≡ false)
          → P (ok t))
      → P (require c allow_ending token s)
  unfolding require
  require-cases allow_ending token s P refused passed =
      if-cases P (not (starts_with token "bf_")) (λ _. refused _)
        (λ starts. elim (Option-cases (select_one (has_key (task_key c token)) s.tasks)) [
          | inl e ↦ rw e (refused _)
          | inr (t, e) ↦
              let key : t.key ≡ task_key c token =
                ==→eq t.key (task_key c token)
                  (select_one-passes (has_key (task_key c token)) s.tasks e) in
              rw e (
                if-cases P (not (t.token_sha256 == c.sha256 token)) (λ _. refused _)
                  (λ hash.
                    if-cases P (not (is_active t.status)) (λ _. refused _)
                      (λ alive.
                        if-cases P (not allow_ending && contains (task_key c token) s.ending)
                          (λ _. refused _)
                          (λ open_.
                            passed t
                              (record {
                                there =
                                    subst (λ k. select_one (has_key k) s.tasks ≡ some t) (sym key)
                                      e;
                                key = key;
                                alive = ground arith;
                                starts = ground arith;
                                hash = ground arith;
                              })
                              (λ f.
                                subst (λ k. contains k s.ending ≡ false) (sym key)
                                  (ground arith))))))
        ])

  pub Required-ok :
      (allow_ending : Bool) (token : String) (s : Store) (t : Task)
      → require c allow_ending token s ≡ ok t
      → Required c token t s
  Required-ok allow_ending token s t =
      require-cases allow_ending token s (λ r. r ≡ ok t → Required c token t s) (λ code e. cc)
        (λ u r _ e. let same : u ≡ t = cc in subst (λ v. Required c token v s) same r)

  -- What require answers for a task that is there.
  pub require-Required :
      (allow_ending : Bool) (token : String) (s : Store) (t : Task)
      → Required c token t s
      → require c allow_ending token s ≡ (
          if not allow_ending && contains (task_key c token) s.ending
          then err task_ending
          else ok t)
  unfolding require
  require-Required allow_ending token s t r =
      let there : select_one (has_key (task_key c token)) s.tasks ≡ some t =
        subst (λ k. select_one (has_key k) s.tasks ≡ some t) r.key r.there in
      rw (r.starts, there, r.hash, r.alive, require) refl

abbrev pub Steps : Bool → String → Store → Store → Type 0
Steps free k m n = Chain (Step free k) (core m) (core n)

module _ (c : Codec) (free : Bool) (k : String) where
  pub none_taken : (s : Store) → Steps free k s s
  none_taken s = stop (core s) (core s) refl

  pub one_taken : (m n : Core) → Step free k m n → Chain (Step free k) m n
  one_taken m n s = Chain-one (Step free k) m n s

  pub both_taken :
      (m s n : Core) → Chain (Step free k) m s → Chain (Step free k) s n → Chain (Step free k) m n
  both_taken m s n p q = Chain-trans (Step free k) m s n p q

  pub Steps-and_then {ℓ κ} :
      {A : Type ℓ} {B : Type κ} (m : Store) (x : Result A × Store)
      (next : A → Store → Result B × Store)
      → Steps free k m x.1
      → ((a : A) (s : Store) → Steps free k s (next a s).1)
      → Steps free k m (and_then x next).1
  Steps-and_then m (err code, s) next p q = p
  Steps-and_then m (ok a, s) next p q = both_taken (core m) (core s) (core (next a s).1) p (q a s)

  pub is_active-Required :
      (token : String) (t : Task) (s : Store)
      → Required c token t s
      → is_active_task t.key s.tasks ≡ true
  is_active-Required token t s r = rw (r.there, is_active_task) r.alive

  pub begin-Steps :
      (external : Bool) (now : ℕ) (project : Project) (context : Option String) (token : String)
      (s : Store)
      → (task_key c token == k) ≡ false
      → Steps free k s (begin c external now project context token s).1
  unfolding begin
  begin-Steps external now project context token s other =
      let P : Result String × Store → Type 0 = λ x. Steps free k s x.1 in
      if-cases P (not (valid_context c context)) (λ _. none_taken s)
        (λ _. elim (Result-cases (project_path external project)) [
          | inl (code, e) ↦ rw e (none_taken s)
          | inr (path, e) ↦
              rw e (one_taken (core s) _ (begun (new_task c now token path context) other refl))
        ])

  with_pid-Steps :
      (pid : ℕ) (lookup : Lookup) (t : Task) (s : Store)
      → is_active_task t.key s.tasks ≡ true
      → Steps free k s (write_pid (with_pid pid lookup t) s).1
  unfolding with_pid
  with_pid-Steps pid (found i) t s h = one_taken (core s) _ (wrote _ h refl)
  with_pid-Steps pid no_such_process t s h = one_taken (core s) _ (wrote _ h refl)
  with_pid-Steps pid denied t s h = none_taken s

  pub add_owned_pid-Steps :
      (token : String) (pid : ℕ) (lookup : Lookup) (s : Store)
      → Steps free k s (add_owned_pid c token pid lookup s).1
  unfolding add_owned_pid
  add_owned_pid-Steps token pid lookup s =
      require-cases c false token s
        (λ r.
          Steps free k s
            (elim r as (λ _. Result (Unit {0}) × Store) [
              | err code ↦ (err code, s)
              | ok t ↦ write_pid (with_pid pid lookup t) s
            ]).1)
        (λ code. none_taken s)
        (λ t r _. with_pid-Steps pid lookup t s (is_active-Required token t s r))

  spawned_reply-Steps :
      (job pid : ℕ) (closes : Bool) (x : Result (Unit {0}) × Store)
      → Steps free k x.1 (spawned_reply job pid closes x).1
  spawned_reply-Steps job pid closes (ok done, s) = none_taken s
  spawned_reply-Steps job pid true (err code, s) = one_taken (core s) _ (dropped (is_job job) refl)
  spawned_reply-Steps job pid false (err code, s) = none_taken s

  spawn_in-Steps :
      (token : String) (job : ℕ) (spawned : Option ℕ) (lookup : Lookup) (closes : Bool) (s : Store)
      → Steps free k s (spawn_in c token job spawned lookup closes s).1
  unfolding spawn_in
  spawn_in-Steps token job none lookup true s = one_taken (core s) _ (dropped (is_job job) refl)
  spawn_in-Steps token job none lookup false s = none_taken s
  spawn_in-Steps token job (some pid) lookup closes s =
      let added = add_owned_pid c token pid lookup s in
      both_taken (core s) (core added.1) (core (spawned_reply job pid closes added).1)
        (add_owned_pid-Steps token pid lookup s) (spawned_reply-Steps job pid closes added)

  pub spawn_owned-Steps :
      (token : String) (job : ℕ) (spawned : Option ℕ) (lookup : Lookup) (closes : Bool) (s : Store)
      → Steps free k s (spawn_owned c token job spawned lookup closes s).1
  unfolding spawn_owned
  spawn_owned-Steps token job spawned lookup closes s =
      let with_job : Task → Store =
        λ t. record s { jobs = s.jobs ++ record { owner = t.key; id = job } ∷ [] } in
      require-cases c false token s
        (λ r.
          Steps free k s
            (elim r as (λ _. Result ℕ × Store) [
              | err code ↦ (err code, s)
              | ok t ↦ spawn_in c token job spawned lookup closes (with_job t)
            ]).1)
        (λ code. none_taken s)
        (λ t r _.
          both_taken (core s) (core (with_job t)) _
            (one_taken (core s) _
              (listed (record { owner = t.key; id = job }) (is_active-Required token t s r) refl))
            (spawn_in-Steps token job spawned lookup closes (with_job t)))

  pub stop_owned-Steps :
      (job : ℕ) (closes waits : Bool) (s : Store) → Steps free k s (stop_owned job closes waits s).1
  unfolding stop_owned
  stop_owned-Steps job closes waits s =
      if-cases (λ (x : Result (Unit {0}) × Store). Steps free k s x.1) (closes && waits)
        (λ _. one_taken (core s) _ (dropped (is_job job) refl)) (λ _. none_taken s)

  pub bind_window-Steps :
      (now : ℕ) (token : String) (hwnd pid : ℕ) (title : String) (s : Store)
      → core (bind_window c now token hwnd pid title s).1 ≡ core s
  unfolding bind_window
  bind_window-Steps now token hwnd pid title s = elim (Result-cases (require c false token s)) [
    | inl (code, e) ↦ rw (e, bind_window) refl
    | inr (t, e) ↦ rw (e, bind_window) refl
  ]

  pub fence-Steps : (token : String) (s : Store) → Steps free k s (fence c token s).1
  unfolding fence
  fence-Steps token s =
      require-cases c true token s
        (λ r.
          Steps free k s
            (elim r as (λ _. Result Task × Store) [
              | err code ↦ (err code, s)
              | ok t ↦ (ok t, record s { ending = t.key ∷ discard t.key s.ending })
            ]).1)
        (λ code. none_taken s)
        (λ t r _. one_taken (core s) _ (fenced t.key (is_active-Required token t s r) refl))
