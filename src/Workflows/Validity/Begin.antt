-- ===== src/Workflows/Validity/Begin.antt =====
-- `begin` keeps the invariant: what it inserts clashes with nothing.
use unified_personal_mcp.Prelude.{
  ℕ, String, true, false, ◌&&◌, ◌||◌, count, Option, none, some, List, [], ◌∷◌, ◌++◌, ◌==◌, ◌≡◌,
  refl, arith, leb, ltb, contains, inl, inr, All-pointwise, All-append, Bool-cases, Option-cases,
  List-cases, if-cases, is_some,
}
use unified_personal_mcp.Table.{select_one, select, update}
use unified_personal_mcp.Workflows.State.{
  FilePath, Access, Workflow, Registry, Result, Result-cases, has_key, hash,
}
use unified_personal_mcp.Workflows.End.{Surroundings}
use unified_personal_mcp.Workflows.Idle.{lapsed, mark_expired, expire}
use unified_personal_mcp.Workflows.Begin.{
  Request, Begun, conflicts_with, new_row, insert_workflow, reserve_new, reserve, Beginning,
  ttl_refused, begin_checked, begin,
}
use unified_personal_mcp.Workflows.Evolution.{
  Evolves, Evolves-append, Evolves-trans, Evolves-present,
}
use unified_personal_mcp.Workflows.Mirror.{Mirrors-lapsed, Mirrors-append}
use unified_personal_mcp.Workflows.Lease.{Exclusive-append, Unique-append, conflicts_with-clash}
use unified_personal_mcp.Workflows.Validity.{
  IsValid, Follows, Follows-refl, Follows-trans, update-Follows,
}
use unified_personal_mcp.Workflows.Validity.Idle.{lapsed-Evolve, expire-Follows}

module _ (now : ℕ) (request : Request) (reg : Registry) (v : IsValid reg) where
  abbrev swept : Registry
  swept = record reg {
    rows = update (lapsed now) mark_expired reg.rows;
    metadata = update (lapsed now) mark_expired reg.metadata;
  }

  swept-Follows : Follows reg swept
  swept-Follows =
      update-Follows (lapsed now) mark_expired reg swept refl
        (Mirrors-lapsed (λ _. now) now reg.metadata reg.rows v.mirror) refl
        (All-pointwise _ reg.rows (lapsed-Evolve reg.starting now)) v

  -- A key that no row has is not starting, and is still free after the expiry.
  not_starting :
      (key : String) → select_one (has_key key) reg.rows ≡ none → contains key reg.starting ≡ false
  not_starting key fresh = elim (Bool-cases (contains key reg.starting)) [
    | inl e ↦
        let some_row : is_some (select_one (has_key key) reg.rows) ≡ true = v.present key e in
        let none_row : false ≡ true = rw fresh at some_row in cc
    | inr e ↦ e
  ]

  still_free :
      (key : String) (rs : List Workflow)
      → select_one (has_key key) rs ≡ none
      → select_one (has_key key) (update (lapsed now) mark_expired rs) ≡ none
  still_free key [] e = refl
  still_free key (r ∷ rs) e = elim (Bool-cases (lapsed now r)) [
    | inl l ↦ rw l (ground (arith, still_free key rs))
    | inr l ↦ rw l (ground (arith, still_free key rs))
  ]

  added-Follows :
      (key : String) (reg' : Registry)
      → reg'.rows ≡ swept.rows ++ new_row now key request ∷ []
      → reg'.metadata ≡ swept.metadata ++ new_row now key request ∷ []
      → reg'.starting ≡ reg.starting
      → select (conflicts_with request.project request.access) swept.rows ≡ []
      → select_one (has_key key) reg.rows ≡ none
      → Follows reg reg'
  unfolding new_row
  added-Follows key reg' er em es free fresh = record {
    valid = record {
      mirror = rw (er, em) (Mirrors-append swept.metadata swept.rows w swept-Follows.valid.mirror);
      unique =
          rw er
            (Unique-append swept.rows w (still_free key reg.rows fresh) swept-Follows.valid.unique);
      exclusive = rw er (
          Exclusive-append swept.rows w (conflicts_with-clash w swept.rows free)
            swept-Follows.valid.exclusive);
      started =
          rw (er, es)
            (All-append _ swept.rows (w ∷ []) swept-Follows.valid.started (
              (λ h. let no : contains key reg.starting ≡ false = not_starting key fresh in cc),
              tt,
            ));
      present = λ k h. rw er (
          Evolves-present reg.starting k (swept.rows ++ w ∷ []) reg.rows grown
            (v.present k (rw es at h)));
    };
    evolves = rw er grown;
    same_starting = es;
  }
    where
      w : Workflow
      w = new_row now key request

      grown : Evolves reg.starting (swept.rows ++ w ∷ []) reg.rows
      grown =
          Evolves-trans reg.starting _ swept.rows reg.rows
            (Evolves-append reg.starting swept.rows (w ∷ [])) swept-Follows.evolves

no_row : {A B : Type 0} (a : Option A) (b : Option B) → is_some a || is_some b ≡ false → a ≡ none
no_row a b h = ground arith

module _ (sha256 : String → String) (now : ℕ) (token : String) (request : Request) (reg : Registry)
    (v : IsValid reg) where
  abbrev Kept : Result Begun × Registry → Type 0
  Kept out = Follows reg out.1

  insert_workflow-Follows :
      (key : String)
      → select (conflicts_with request.project request.access) (swept now request reg v).rows ≡ []
      → Kept (insert_workflow now token key request reg)
  unfolding insert_workflow
  insert_workflow-Follows key free =
      if-cases Kept
        (is_some (select_one (λ w. w.token_hash == key) reg.rows)
          || is_some (select_one (λ c. c.credential_hash == key) reg.credentials))
        (λ _. Follows-refl v)
        (λ new. added-Follows now request reg v key _ refl refl refl free (no_row _ _ new))

  reserve_new-Follows : Kept (reserve_new sha256 now token request reg)
  unfolding reserve_new
  reserve_new-Follows =
      elim (List-cases
        (select (conflicts_with request.project request.access) (swept now request reg v).rows)) [
          | inl free ↦ elim (Result-cases (hash sha256 token)) [
            | inl (e, bad) ↦ rw (free, bad, reserve_new) (Follows-refl v)
            | inr (key, good) ↦ rw (free, good, reserve_new) (insert_workflow-Follows key free)
          ]
          | inr (w, ws, busy) ↦ rw (busy, reserve_new) (Follows-refl v)
        ]

  pub reserve-Follows : Kept (reserve sha256 now token request reg)
  unfolding reserve
  reserve-Follows =
      if-cases Kept reg.closed (λ _. Follows-refl v)
        λ _.
          elim (Option-cases (
            select_one
              (λ (w : Workflow). w.owner == request.owner && w.request_id == request.request_id)
              reg.rows)) [
                | inl unknown ↦ rw (unknown, reserve) reserve_new-Follows
                | inr (w, known) ↦ rw (known, reserve) (Follows-refl v)
              ]

module _ (b : Beginning) (env : Surroundings) (owner request_id : String) (ttl : ℕ) where
  begin_checked-Follows :
      (access : Option Access) (project : Option FilePath) (reg : Registry)
      → IsValid reg
      → Follows reg (begin_checked b env owner request_id ttl access project reg).1
  unfolding begin_checked
  begin_checked-Follows none project reg v = Follows-refl v
  begin_checked-Follows (some access) none reg v = Follows-refl v
  begin_checked-Follows (some access) (some project) reg v =
      if-cases (λ (out : Result Begun × Registry). Follows reg out.1) (ttl_refused ttl)
        (λ _. Follows-refl v)
        (λ _. Follows-trans first (reserve-Follows b.sha256 env.now b.token _ _ first.valid))
    where
      first : Follows reg (expire b.idle_timeout env reg)
      first = expire-Follows b.idle_timeout env reg v

  pub begin-Follows :
      (project : Option FilePath) (access : Option Access) (reg : Registry)
      → IsValid reg
      → Follows reg (begin b env owner project request_id access ttl reg).1
  unfolding begin
  begin-Follows project access reg v =
      if-cases P (owner == "") (λ _. Follows-refl v)
        λ _.
          if-cases P (leb (count request_id) 0 || ltb 128 (count request_id)) (λ _. Follows-refl v)
            λ _. begin_checked-Follows access project reg v
    where
      P : Result Begun × Registry → Type 0
      P out = Follows reg out.1
