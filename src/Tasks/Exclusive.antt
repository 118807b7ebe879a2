-- ===== src/Tasks/Exclusive.antt =====
-- bf_automation/task_store.py: whose a claimed window is.
use unified_personal_mcp.Prelude.{
  ℕ, ◌≡◌, refl, sym, ap, ◌∙◌, ◌⊎◌, String, Bool, true, false, not, ◌&&◌, Option, none, some, List,
  [], ◌∷◌, ◌++◌, ◌==◌, arith, inl, inr, eqb, eqb→eq, eqb_refl, eq_refl, if◌then◌else◌, All,
  Bool-cases, Option-cases, Chain-keep,
}
use unified_personal_mcp.Table.{
  select_one, delete, select_one-delete, select_one-append, select_one-append_new,
}
use unified_personal_mcp.Table.Keys.{==→eq, select_one-put, select_one-delete_other}
use unified_personal_mcp.Tasks.State.{Task, Claim, Store, Codec}
use unified_personal_mcp.Tasks.Store.{is_active, write_task}
use unified_personal_mcp.Tasks.Claims.{is_claim, was_active, is_active_task, taken}
use unified_personal_mcp.Tasks.Spec.{
  Step, Core, core, claim_of, wrote, begun, listed, dropped, fenced, unfenced, ended, released,
  deleted, claimed,
}
use unified_personal_mcp.Tasks.Events.{Event, steps, spares}
use unified_personal_mcp.Tasks.Refines.{steps-Steps}

-- The row of this window names the task.
abbrev pub is_owner : String → Option Claim → Bool
is_owner k none = false
is_owner k (some r) = r.owner == k

abbrev pub owns : String → ℕ → ℕ → List Claim → Bool
owns k hwnd pid claims = is_owner k (select_one (is_claim hwnd pid) claims)

-- Which task is active after a record is written.
pub is_active_task-write_task :
    (k : String) (t : Task) (ts : List Task)
    → is_active_task k (write_task t ts)
      ≡ (if t.key == k then is_active t.status else is_active_task k ts)
is_active_task-write_task k t ts =
    ap was_active (select_one-put (λ (u : Task). u.key) k t ts)
    ∙ elim (Bool-cases (t.key == k)) [ inl e ↦ rw e refl | inr e ↦ rw e refl ]

-- A record that is over activates nothing.
pub inactive-write_task :
    (k : String) (t : Task) (ts : List Task)
    → is_active t.status ≡ false
    → is_active_task k ts ≡ false
    → is_active_task k (write_task t ts) ≡ false
inactive-write_task k t ts e h = elim (Bool-cases (t.key == k)) [
  | inl g ↦ is_active_task-write_task k t ts ∙ rw g e
  | inr g ↦ is_active_task-write_task k t ts ∙ rw g h
]

-- A write of an active task's record does not bring back another one.
pub inactive-wrote :
    (k : String) (t : Task) (ts : List Task)
    → is_active_task t.key ts ≡ true
    → is_active_task k ts ≡ false
    → is_active_task k (write_task t ts) ≡ false
inactive-wrote k t ts e h = elim (Bool-cases (t.key == k)) [
  | inl g ↦
      let same : is_active_task t.key ts ≡ is_active_task k ts =
        ap (λ j. is_active_task j ts) (==→eq t.key k g) in
      let clash : false ≡ true = cc in cc
  | inr g ↦ is_active_task-write_task k t ts ∙ rw g h
]

pub inactive-begun :
    (k : String) (t : Task) (ts : List Task)
    → (t.key == k) ≡ false
    → is_active_task k ts ≡ false
    → is_active_task k (write_task t ts) ≡ false
inactive-begun k t ts e h = is_active_task-write_task k t ts ∙ rw e h

select_one-delete_same : (p : Claim → Bool) (rs : List Claim) → select_one p (delete p rs) ≡ none
select_one-delete_same p [] = refl
select_one-delete_same p (r ∷ rs) = elim (Bool-cases (p r)) [
  | inl e ↦ rw e (select_one-delete_same p rs)
  | inr e ↦ rw (e, e) (select_one-delete_same p rs)
]

another_key : (a b k : String) → a ≡ k → (b == k) ≡ false → (a == b) ≡ false
another_key a b k e h = elim (Bool-cases (a == b)) [
  | inl f ↦
      let same : b ≡ k = sym (==→eq a b f) ∙ e in
      let yes_ : (b == k) ≡ true = rw same (eq_refl k) in cc
  | inr f ↦ f
]

module _ (k : String) (hwnd pid : ℕ) where
  abbrev Kept : Core → Type 0
  Kept m = (owns k hwnd pid m.claims ≡ true) ⊎ (is_active_task k m.tasks ≡ false)

  windows_apart :
      (a b hwnd' pid' : ℕ)
      → eqb a hwnd && eqb b pid ≡ true
      → eqb hwnd' hwnd && eqb pid' pid ≡ false
      → eqb a hwnd' && eqb b pid' ≡ false
  windows_apart a b hwnd' pid' this there = ground arith

  -- The row that makes the task the owner.
  owning_row :
      (claims : List Claim)
      → owns k hwnd pid claims ≡ true
      → (r : Claim) × (select_one (is_claim hwnd pid) claims ≡ some r) × (r.owner ≡ k)
  owning_row claims h = elim (Option-cases (select_one (is_claim hwnd pid) claims)) [
    | inl e ↦ let clash : false ≡ true = sym (ap (is_owner k) e) ∙ h in cc
    | inr (r, e) ↦ (r, e, ==→eq r.owner k (sym (ap (is_owner k) e) ∙ h))
  ]

  owns-row :
      (claims : List Claim) (r : Claim)
      → select_one (is_claim hwnd pid) claims ≡ some r
      → r.owner ≡ k
      → owns k hwnd pid claims ≡ true
  owns-row claims r e o = ap (is_owner k) e ∙ rw o (eq_refl k)

  -- The claims of another task go.
  owns-delete :
      (key : String) (claims : List Claim)
      → (key == k) ≡ false
      → owns k hwnd pid claims ≡ true
      → owns k hwnd pid (delete (λ (r : Claim). r.owner == key) claims) ≡ true
  owns-delete key claims g h =
      let (r, found, mine) = owning_row claims h in
      let other = another_key r.owner key k mine g in
      owns-row _ r
        (select_one-delete_other (λ (u : Claim). u.owner) (is_claim hwnd pid)
          (λ (r : Claim). r.owner == key) claims found other)
        mine

  Kept-released :
      (t : Task) (m : Core)
      → is_active t.status ≡ false
      → Kept m
      → Kept (record m {
        tasks = write_task t m.tasks;
        claims = delete (λ (r : Claim). r.owner == t.key) m.claims;
      })
  Kept-released t m e (inr h) = inr (inactive-write_task k t m.tasks e h)
  Kept-released t m e (inl h) = elim (Bool-cases (t.key == k)) [
    | inl g ↦ inr (is_active_task-write_task k t m.tasks ∙ rw g e)
    | inr g ↦ inl (owns-delete t.key m.claims g h)
  ]

  Kept-claim_here :
      (now : ℕ) (key : String) (m : Core)
      → taken key m.tasks (select_one (is_claim hwnd pid) m.claims) ≡ false
      → owns k hwnd pid m.claims ≡ true
      → Kept (record m {
        claims = delete (is_claim hwnd pid) m.claims ++ claim_of now hwnd pid key ∷ [];
      })
  Kept-claim_here now key m e h =
      let (r, found, mine) = owning_row m.claims h in
      elim (Bool-cases (key == k)) [
        | inl f ↦ inl (
            owns-row _ (claim_of now hwnd pid key)
              (select_one-append_new (is_claim hwnd pid) (delete (is_claim hwnd pid) m.claims)
                (claim_of now hwnd pid key) (select_one-delete_same (is_claim hwnd pid) m.claims)
                (rw (eqb_refl hwnd, eqb_refl pid) refl))
              (==→eq key k f))
        | inr f ↦
            let refused : not (r.owner == key) && is_active_task r.owner m.tasks ≡ false =
              ap (taken key m.tasks) (sym found) ∙ e in
            let over : is_active_task r.owner m.tasks ≡ false =
              rw (another_key r.owner key k mine f) at refused in
            inr (ap (λ j. is_active_task j m.tasks) (sym mine) ∙ over)
      ]

  Kept-claimed :
      (now hwnd' pid' : ℕ) (key : String) (m : Core)
      → taken key m.tasks (select_one (is_claim hwnd' pid') m.claims) ≡ false
      → owns k hwnd pid m.claims ≡ true
      → Kept (record m {
        claims = delete (is_claim hwnd' pid') m.claims ++ claim_of now hwnd' pid' key ∷ [];
      })
  Kept-claimed now hwnd' pid' key m e h = elim (Bool-cases (eqb hwnd' hwnd && eqb pid' pid)) [
    | inl here ↦
        let same_hwnd : hwnd' ≡ hwnd = eqb→eq hwnd' hwnd (ground arith) in
        let same_pid : pid' ≡ pid = eqb→eq pid' pid (ground arith) in
        let e' : taken key m.tasks (select_one (is_claim hwnd pid) m.claims) ≡ false =
          rw (← same_hwnd, ← same_pid) e in
        rw (same_hwnd, same_pid) (Kept-claim_here now key m e' h)
    | inr there ↦
        let (r, found, mine) = owning_row m.claims h in
        inl (
          owns-row _ r
            (select_one-append (is_claim hwnd pid) (delete (is_claim hwnd' pid') m.claims)
              (claim_of now hwnd' pid' key) r
              (select_one-delete (is_claim hwnd pid) (is_claim hwnd' pid') m.claims
                  (λ u this. windows_apart u.hwnd u.pid hwnd' pid' this there)
                ∙ found))
            mine)
  ]

  Kept-Step : (m n : Core) → Step false k m n → Kept m → Kept n
  Kept-Step m n (wrote t e p) (inl h) = rw p (inl h)
  Kept-Step m n (wrote t e p) (inr h) = rw p (inr (inactive-wrote k t m.tasks e h))
  Kept-Step m n (begun t e p) (inl h) = rw p (inl h)
  Kept-Step m n (begun t e p) (inr h) = rw p (inr (inactive-begun k t m.tasks e h))
  Kept-Step m n (listed j e p) h = rw p h
  Kept-Step m n (dropped q p) h = rw p h
  Kept-Step m n (fenced key e p) h = rw p h
  Kept-Step m n (unfenced key p) h = rw p h
  Kept-Step m n (ended t e p) (inl h) = rw p (inl h)
  Kept-Step m n (ended t e p) (inr h) = rw p (inr (inactive-write_task k t m.tasks e h))
  Kept-Step m n (released t e p) h = rw p (Kept-released t m e h)
  Kept-Step m n (deleted key (inl no_) p) h = cc
  Kept-Step m n (deleted key (inr g) p) (inl h) = rw p (inl (owns-delete key m.claims g h))
  Kept-Step m n (deleted key (inr g) p) (inr h) = rw p (inr h)
  Kept-Step m n (claimed now hwnd' pid' key e p) (inl h) =
      rw p (Kept-claimed now hwnd' pid' key m e h)
  Kept-Step m n (claimed now hwnd' pid' key e p) (inr h) = rw p (inr h)

  -- Whatever calls come between, in whatever order, the parts of end and of claim_window apart, while no task
  -- begins with this key again and no end of this task has come to the deletion of its claims: a window that
  -- a task has claimed is its own for as long as the task is active.
  pub windows_are_exclusive :
      (c : Codec) (es : List Event) (s : Store)
      → All (λ e. spares c false k e ≡ true) es
      → owns k hwnd pid s.claims ≡ true
      → is_active_task k (steps c es s).tasks ≡ true
      → owns k hwnd pid (steps c es s).claims ≡ true
  windows_are_exclusive c es s spared mine alive =
      elim (Chain-keep (Step false k) Kept Kept-Step (core s) (core (steps c es s))
        (steps-Steps c false k es s spared) (inl mine)) [
          | inl h ↦ h
          | inr h ↦ let clash : false ≡ true = sym h ∙ alive in cc
        ]
