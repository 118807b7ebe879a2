-- ===== src/Workflows/Views.antt =====
-- personal_mcp/workflows.py: `list` and `snapshot`, the views of an owner.
use unified_personal_mcp.Prelude.{
  ℕ, ◌+◌, ◌-◌, ◌≡◌, refl, ◌∙◌, String, Bool, true, false, not, ◌&&◌, ◌||◌, Option, none, some, List,
  [], ◌∷◌, map, ◌==◌, arith, inl, inr, length, contains, ltb, if◌then◌else◌, Bool-cases,
}
use Prim.Native.Nat.{Ordering}
use Prim.Native.String.{compare}
use unified_personal_mcp.Table.{select}
use unified_personal_mcp.Workflows.State.{
  State, reserved, starting, active, closing, cleanup_blocked, ended, expired, FilePath, Workflow,
  Registry, Queued, Public, is_live, public,
}

abbrev is_before : String → String → Bool
is_before a b = elim (compare a b) [ Ordering.lt ↦ true | _ ↦ false ]

-- `ORDER BY created, token_hash`
abbrev pub comes_first : Workflow → Workflow → Bool
comes_first v w =
    ltb v.created w.created || not (ltb w.created v.created) && is_before v.token_hash w.token_hash

unfoldable pub insert_by_created : Workflow → List Workflow → List Workflow
insert_by_created w [] = w ∷ []
insert_by_created w (v ∷ vs) =
    let rest = insert_by_created w vs in if comes_first v w then v ∷ rest else w ∷ v ∷ vs

unfoldable pub by_created : List Workflow → List Workflow
unfolding insert_by_created
by_created [] = []
by_created (w ∷ ws) = insert_by_created w (by_created ws)

-- `list`; `none` if it raises OWNER_REQUIRED.
unfoldable pub list : ℕ → String → Registry → Option (List Public)
unfolding by_created public
list now owner reg =
    if owner == ""
    then none
    else some
        (map (public now) (by_created (select (λ w. w.owner == owner && is_live w.state) reg.rows)))

abbrev pub state_text : State → String
state_text reserved = "RESERVED"
state_text starting = "STARTING"
state_text active = "ACTIVE"
state_text closing = "CLOSING"
state_text cleanup_blocked = "CLEANUP_BLOCKED"
state_text ended = "ENDED"
state_text expired = "EXPIRED"

-- `counts[state]` after the loop, 0 where the dict has no entry.
unfoldable pub tally : State → List Workflow → ℕ
tally s [] = 0
tally s (w ∷ ws) = (if state_text w.state == state_text s then 1 else 0) + tally s ws

-- `sum(key in self.resources for key in rows)`
unfoldable pub held : List String → List Workflow → ℕ
held resources [] = 0
held resources (w ∷ ws) = (if contains w.token_hash resources then 1 else 0) + held resources ws

-- `sum(self.inflight.get(key, 0) for key in rows)`
unfoldable pub in_flight : (String → ℕ) → List Workflow → ℕ
in_flight inflight [] = 0
in_flight inflight (w ∷ ws) = inflight w.token_hash + in_flight inflight ws

pub record Waiting : Type 0 where
  pub project : FilePath
  pub workflow_ref : String
  pub wait_seconds : ℕ

pub record Snapshot : Type 0 where
  pub workflows : State → ℕ
  pub resources : ℕ
  pub inflight : ℕ
  pub queued : List Waiting

-- What `snapshot` computes when the lock is free.
unfoldable pub fresh_snapshot : ℕ → String → Registry → Snapshot
unfolding tally held in_flight
fresh_snapshot now owner reg =
    let own = select (λ w. w.owner == owner) reg.metadata in
    record {
      workflows = λ s. tally s own;
      resources = held reg.resources own;
      inflight = in_flight reg.inflight own;
      queued =
          map
            (λ (q : Queued). record {
              project = q.project;
              workflow_ref = q.key;
              wait_seconds = now - q.since;
            })
            (select (λ q. contains q.key (map (λ w. w.token_hash) own)) reg.queued);
    }

-- `snapshot`: whether it is stale, and what it shows and leaves in the cache; `cached` is the owner's entry of the cache, or the
-- empty one. `none` if it raises OWNER_REQUIRED.
unfoldable pub snapshot : Bool → Snapshot → ℕ → String → Registry → Option (Bool × Snapshot)
unfolding fresh_snapshot
snapshot locked cached now owner reg =
    if owner == ""
    then none
    else some (if locked then (true, cached) else (false, fresh_snapshot now owner reg))

length-insert_by_created :
    (w : Workflow) (ws : List Workflow) → length (insert_by_created w ws) ≡ 1 + length ws
unfolding insert_by_created
length-insert_by_created w [] = omega arith
length-insert_by_created w (v ∷ vs) = elim (Bool-cases (comes_first v w)) [
  | inl e ↦ rw e (omega (arith, length-insert_by_created w vs))
  | inr e ↦ rw e (omega arith)
]

length-by_created : (ws : List Workflow) → length (by_created ws) ≡ length ws
unfolding by_created
length-by_created [] = refl
length-by_created (w ∷ ws) =
    omega (arith, length-insert_by_created w (by_created ws), length-by_created ws)

length-map {ℓ κ} :
    {A : Type ℓ} {B : Type κ} (f : A → B) (xs : List A) → length (map f xs) ≡ length xs
length-map f [] = refl
length-map f (x ∷ xs) = omega (arith, length-map f xs)

-- The workflows in a state that is not ENDED or EXPIRED.
abbrev pub live_total : (State → ℕ) → ℕ
live_total counts =
    counts reserved + counts starting + counts active + counts closing + counts cleanup_blocked

abbrev one_if : Bool → ℕ
one_if b = if b then 1 else 0

live_once :
    (t : State) → live_total (λ s. one_if (state_text t == state_text s)) ≡ one_if (is_live t)
live_once reserved = refl
live_once starting = refl
live_once active = refl
live_once closing = refl
live_once cleanup_blocked = refl
live_once ended = refl
live_once expired = refl

length-live :
    (owner : String) (ws : List Workflow)
    → length (select (λ w. w.owner == owner && is_live w.state) ws)
      ≡ live_total (λ s. tally s (select (λ w. w.owner == owner) ws))
unfolding tally
length-live owner [] = refl
length-live owner (w ∷ ws) = elim (Bool-cases (w.owner == owner)) [
  | inr e ↦ rw e (length-live owner ws)
  | inl e ↦ elim (Bool-cases (is_live w.state)) [
    | inl l ↦
        let once : live_total (λ s. one_if (state_text w.state == state_text s)) ≡ 1 =
          rw l at (live_once w.state) in
        rw (e, l) (omega (arith, length-live owner ws, once))
    | inr l ↦
        let once : live_total (λ s. one_if (state_text w.state == state_text s)) ≡ 0 =
          rw l at (live_once w.state) in
        rw (e, l) (omega (arith, length-live owner ws, once))
  ]
]

-- A registry whose cached rows are those of the table, and an owner: list shows as many workflows as
-- the snapshot that is not stale counts in the states that are neither ENDED nor EXPIRED.
pub views_agree :
    (now : ℕ) (owner : String) (reg : Registry) {shown : List Public}
    → reg.metadata ≡ reg.rows
    → list now owner reg ≡ some shown
    → length shown ≡ live_total (fresh_snapshot now owner reg).workflows
unfolding list fresh_snapshot
views_agree now owner reg {shown} mirror e = elim (Bool-cases (owner == "")) [
  | inl t ↦ let absurd : none ≡ some shown = rw t at e in cc
  | inr t ↦
      let own = select (λ w. w.owner == owner && is_live w.state) reg.rows in
      let both : some (map (public now) (by_created own)) ≡ some shown = rw t at e in
      let same : map (public now) (by_created own) ≡ shown = cc in
      rw (← same, mirror)
        (length-map (public now) (by_created own)
          ∙ length-by_created own
          ∙ length-live owner reg.rows)
]
