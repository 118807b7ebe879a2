-- ===== src/Tasks/Ending.antt =====
-- bf_automation/task_store.py: what is left of a task after `end`.
use unified_personal_mcp.Prelude.{
  arith, ◌≤◌, ◌+◌, if◌then◌else◌, ℕ, ◌≡◌, refl, sym, subst, ap, ◌∙◌, String, Bool, true, false, not,
  ◌||◌, List, [], ◌∷◌, ◌==◌, inl, inr, eq_refl, leb, length, contains, discard, if-cases, All,
  Chain-keep,
}
use unified_personal_mcp.Table.{select, select_one, delete}
use unified_personal_mcp.Table.Counts.{length-select-append, length-select-delete}
use unified_personal_mcp.Tasks.State.{
  Result-cases, is_ok, Result, ok, err, and_then, Task, Claim, Store, Codec,
}
use unified_personal_mcp.Tasks.Store.{task_key, require}
use unified_personal_mcp.Tasks.End.{
  fence, hook_failed, owned_by, close_jobs, ended_task, finish_jobs, drop_claims, write_ended,
  LateClaim, insert_all, finish, Cleanup, end,
}
use unified_personal_mcp.Tasks.Claims.{is_active_task, claim_insert, taken, is_claim}
use unified_personal_mcp.Tasks.Spec.{Step, core, claim_of}
use unified_personal_mcp.Tasks.Events.{Event, steps, spares}
use unified_personal_mcp.Tasks.Calls.{is_active-Required, Required-ok}
use unified_personal_mcp.Tasks.Refines.{steps-Steps}
use unified_personal_mcp.Tasks.Exclusive.{is_active_task-write_task}
use unified_personal_mcp.Tasks.Over.{none_deleted, Over, Over-Step, contains-discard_same}

abbrev pub claims_of : String → Store → List Claim
claims_of k s = select (λ (r : Claim). r.owner == k) s.claims

-- The claims among these that are of the task.
abbrev pub late_of : String → List LateClaim → List LateClaim
late_of k ls = select (λ (l : LateClaim). l.key == k) ls

-- What a call of end leaves that has returned the key.
record Released (key k : String) (late : List LateClaim) (n : Store) : Type 0 where
  names : key ≡ k
  over : Over k (core n)
  few_claims : length (claims_of k n) ≤ length (late_of k late)

-- A transaction of claim_window touches nothing but the claims, and adds one of its own task at most.
claim_insert-claims :
    (k : String) (now hwnd pid : ℕ) (key : String) (s : Store)
    → (length (claims_of k (claim_insert now hwnd pid key s).1)
        ≤ length (claims_of k s) + (if key == k then 1 else 0))
      × ((claim_insert now hwnd pid key s).1.jobs ≡ s.jobs)
unfolding claim_insert
claim_insert-claims k now hwnd pid key s =
    let own : Claim → Bool = λ r. r.owner == k in
    let new = claim_of now hwnd pid key in
    if-cases
      (λ (x : Result (Unit {0}) × Store).
        (length (claims_of k x.1) ≤ length (claims_of k s) + (if key == k then 1 else 0))
        × (x.1.jobs ≡ s.jobs))
      (taken key s.tasks (select_one (is_claim hwnd pid) s.claims)) (λ _. (omega arith, refl))
      (λ _. (
        rw (length-select-append own (delete (is_claim hwnd pid) s.claims) new)
            (omega (arith, length-select-delete own (is_claim hwnd pid) s.claims)),
        refl,
      ))

insert_all-claims :
    (k : String) (ls : List LateClaim) (s : Store)
    → (length (claims_of k (insert_all ls s)) ≤ length (claims_of k s) + length (late_of k ls))
      × ((insert_all ls s).jobs ≡ s.jobs)
unfolding insert_all
insert_all-claims k [] s = (omega arith, refl)
insert_all-claims k (l ∷ ls) s =
    let after = (claim_insert l.now l.hwnd l.pid l.key s).1 in
    let (few, jobs) = claim_insert-claims k l.now l.hwnd l.pid l.key s in
    let (rest, same) = insert_all-claims k ls after in (ground (arith, few, rest), same ∙ jobs)

-- A result has a property if it is no error.
abbrev Succeeds {ℓ} : {A : Type ℓ} → (A → Store → Type 0) → Result A × Store → Type 0
Succeeds P (err code, n) = Unit {0}
Succeeds P (ok a, n) = P a n

Succeeds-and_then {ℓ κ} :
    {A : Type ℓ} {B : Type κ} (Q : A → Store → Type 0) (P : B → Store → Type 0)
    (x : Result A × Store) (next : A → Store → Result B × Store)
    → Succeeds Q x
    → ((a : A) (n : Store) → Q a n → Succeeds P (next a n))
    → Succeeds P (and_then x next)
Succeeds-and_then Q P (err code, n) next h f = tt
Succeeds-and_then Q P (ok a, n) next h f = f a n h

module _ (c : Codec) (token : String) where
  finish_jobs-none :
      (failed : Bool) (closes : ℕ → Bool) (t : Task) (s : Store)
      → Succeeds
          (λ (_ : Unit {0}) n. select (owned_by t.key) n.jobs ≡ [])
          (finish_jobs failed closes t s)
  unfolding finish_jobs
  finish_jobs-none failed closes t s =
      let P : Result (Unit {0}) × Store → Type 0 =
        Succeeds (λ _ n. select (owned_by t.key) n.jobs ≡ []) in
      let left = close_jobs closes t.key s.jobs in
      if-cases P (failed || not (leb (length (select (owned_by t.key) left)) 0)) (λ _. tt)
        (λ _. none_deleted (owned_by t.key) left)

  drop_claims-none :
      (database : Bool) (t : Task) (s : Store)
      → Succeeds
          (λ (_ : Unit {0}) n. (claims_of t.key n ≡ []) × (n.jobs ≡ s.jobs))
          (drop_claims database t s)
  unfolding drop_claims
  drop_claims-none database t s =
      let P : Result (Unit {0}) × Store → Type 0 =
        Succeeds (λ _ n. (claims_of t.key n ≡ []) × (n.jobs ≡ s.jobs)) in
      if-cases P (not database) (λ _. tt)
        (λ _. (none_deleted (λ (r : Claim). r.owner == t.key) s.claims, refl))

  write_ended-Over :
      (now : ℕ) (written : Bool) (t : Task) (late : List LateClaim) (s : Store)
      → select (owned_by t.key) s.jobs ≡ []
      → length (claims_of t.key s) ≤ length (late_of t.key late)
      → Succeeds (λ key n. Released key t.key late n) (write_ended now written t s)
  unfolding write_ended
  write_ended-Over now written t late s jobs few =
      let P : Result String × Store → Type 0 = Succeeds (λ key n. Released key t.key late n) in
      if-cases P (not written) (λ _. tt)
        (λ _. record {
          names = refl;
          over = record {
            inactive =
                is_active_task-write_task t.key (ended_task now t) s.tasks
                ∙ rw (eq_refl t.key) refl;
            no_jobs = jobs;
            not_ending = contains-discard_same t.key s.ending;
          };
          few_claims = few;
        })

  finish-Released :
      (now : ℕ) (w : Cleanup) (failed : Bool) (t : Task) (s : Store)
      → Succeeds (λ key n. Released key t.key w.after_drop n) (finish now w failed t s)
  unfolding finish
  finish-Released now w failed t s =
      Succeeds-and_then _ _ (finish_jobs failed w.closes t s) _
        (finish_jobs-none failed w.closes t s)
        (λ _ closed jobs.
          let ready = insert_all w.before_drop closed in
          Succeeds-and_then _ _ (drop_claims w.database t ready) _
            (drop_claims-none w.database t ready)
            (λ _ gone (none_left, same).
              let (few, kept) = insert_all-claims t.key w.after_drop gone in
              let start = insert_all-claims t.key w.before_drop closed in
              let nothing : length (claims_of t.key gone) ≡ 0 = rw none_left refl in
              write_ended-Over now w.written t w.after_drop (insert_all w.after_drop gone)
                (rw (kept, same, start.1) jobs) (omega (arith, few, nothing))))

  abbrev fenced_store : Task → Store → Store
  fenced_store t s = record s { ending = t.key ∷ discard t.key s.ending }

  end-Released :
      (now : ℕ) (w : Cleanup) (s : Store)
      → Succeeds (λ key n. Released key (task_key c token) w.after_drop n) (end c now w token s)
  unfolding end fence
  end-Released now w s =
      let P : Result String × Store → Type 0 =
        Succeeds (λ key n. Released key (task_key c token) w.after_drop n) in
      elim (Result-cases (require c true token s)) [
        | inl (code, e) ↦ rw (e, end) tt
        | inr (u, e) ↦
            rw (e, end)
              (elim (Result-cases (require c true token (w.before_fence s))) [
                | inl (code, f) ↦ rw (f, fence) tt
                | inr (t, f) ↦
                    let key = (Required-ok c true token (w.before_fence s) t f).key in
                    rw (f, fence)
                      (subst
                        (λ k.
                          Succeeds (λ key n. Released key k w.after_drop n)
                            (finish now w (hook_failed w.raises (w.before_fence s).end_hooks) t
                              (w.during_hooks (fenced_store t (w.before_fence s)))))
                        key
                        (finish-Released now w (hook_failed w.raises (w.before_fence s).end_hooks) t
                          (w.during_hooks (fenced_store t (w.before_fence s)))))
              ])
      ]

  refused_inactive :
      (allow_ending : Bool) (s : Store)
      → is_active_task (task_key c token) s.tasks ≡ false
      → is_ok (require c allow_ending token s) ≡ false
  refused_inactive allow_ending s h = elim (Result-cases (require c allow_ending token s)) [
    | inl (code, e) ↦ rw e refl
    | inr (t, e) ↦
        let r = Required-ok c allow_ending token s t e in
        let there = is_active-Required c true (task_key c token) token t s r in
        let clash : true ≡ false = sym there ∙ ap (λ k. is_active_task k s.tasks) r.key ∙ h in cc
  ]

  -- If end returns, whatever other calls do before its fence and while its hooks run, and whatever claims of
  -- windows come before and after its deletion: the task has no more claims than claim calls of its own came
  -- after the deletion, and whatever calls come later, while no task begins with this key: require refuses
  -- the token, and the task has no job and is not ending.
  pub ended_task_leaves_nothing :
      (now : ℕ) (w : Cleanup) (s n : Store) (key : String) (es : List Event) (allow_ending : Bool)
      → end c now w token s ≡ (ok key, n)
      → All (λ e. spares c true (task_key c token) e ≡ true) es
      → (length (claims_of (task_key c token) n) ≤ length (late_of (task_key c token) w.after_drop))
        × (is_ok (require c allow_ending token (steps c es n)) ≡ false)
        × (select (owned_by (task_key c token)) (steps c es n).jobs ≡ [])
        × (contains (task_key c token) (steps c es n).ending ≡ false)
  ended_task_leaves_nothing now w s n key es allow_ending done spared =
      let k = task_key c token in
      let h : Released key k w.after_drop n =
        subst (Succeeds (λ key n. Released key k w.after_drop n)) done (end-Released now w s) in
      let later : Over k (core (steps c es n)) =
        Chain-keep (Step true k) (Over k) (Over-Step k) (core n) (core (steps c es n))
          (steps-Steps c true k es n spared) h.over in
      (
        h.few_claims,
        refused_inactive allow_ending (steps c es n) later.inactive,
        later.no_jobs,
        later.not_ending,
      )
