-- ===== src/Table.antt =====
-- The SQL statements of the program, over a table as a list of rows: `SELECT`, `UPDATE`, `DELETE`
-- and `COUNT(*)` with a `WHERE` test, as sqlite3 runs them for workflows, operations and claims.
pub mod Counts
pub mod Keys
use unified_personal_mcp.Prelude.{
  ◌≤◌, ◌≡◌, refl, Bool, true, false, Option, none, some, List, [], ◌∷◌, ◌++◌, arith, if◌then◌else◌,
  length, All, All-pointwise, if-cases, Bool-cases, inl, inr,
}

module _ {ℓ} {A : Type ℓ} (p : A → Bool) where
  -- `SELECT … WHERE p` with `fetchone`
  abbrev pub select_one : List A → Option A
  select_one [] = none
  select_one (r ∷ rs) = if p r then some r else select_one rs

  -- `SELECT … WHERE p`
  abbrev pub select : List A → List A
  select [] = []
  select (r ∷ rs) = let rest = select rs in if p r then r ∷ rest else rest

  -- `UPDATE … SET f WHERE p`
  abbrev pub update : (A → A) → List A → List A
  update f [] = []
  update f (r ∷ rs) = (if p r then f r else r) ∷ update f rs

  -- `DELETE … WHERE p`
  abbrev pub delete : List A → List A
  delete [] = []
  delete (r ∷ rs) = let rest = delete rs in if p r then rest else r ∷ rest

  pub length-update : (f : A → A) (rs : List A) → length (update f rs) ≡ length rs
  length-update f [] = refl
  length-update f (r ∷ rs) = omega (arith, length-update f rs)

  pub length-delete : (rs : List A) → length (delete rs) ≤ length rs
  length-delete [] = omega arith
  length-delete (r ∷ rs) = ground (arith, length-delete rs)

  pub All-update {κ} :
      (P : A → Type κ) (f : A → A) (rs : List A)
      → ((r : A) → p r ≡ true → P r → P (f r))
      → All P rs
      → All P (update f rs)
  All-update P f [] keep h = tt
  All-update P f (r ∷ rs) keep h = elim (Bool-cases (p r)) [
    | inl e ↦ rw e (keep r e h.0, All-update P f rs keep h.1)
    | inr e ↦ rw e (h.0, All-update P f rs keep h.1)
  ]

  pub All-delete {κ} : (P : A → Type κ) (rs : List A) → All P rs → All P (delete rs)
  All-delete P [] h = tt
  All-delete P (r ∷ rs) h = elim (Bool-cases (p r)) [
    | inl e ↦ rw e (All-delete P rs h.1)
    | inr e ↦ rw e (h.0, All-delete P rs h.1)
  ]

  -- The row that a `SELECT` returns passes its test, and has what every row has.
  pub select_one-All {κ} :
      (P : A → Type κ) (rs : List A) {r : A}
      → All P rs
      → select_one rs ≡ some r
      → (p r ≡ true) × P r
  select_one-All P [] h e = cc
  select_one-All P (q ∷ rs) {r} h e = elim (Bool-cases (p q)) [
    | inl t ↦ let e' : some q ≡ some r = rw t at e in let e'' : q ≡ r = cc in rw (← e'') (t, h.0)
    | inr t ↦ let e' : select_one rs ≡ some r = rw t at e in select_one-All P rs h.1 e'
  ]

  pub select_one-passes : (rs : List A) {r : A} → select_one rs ≡ some r → p r ≡ true
  select_one-passes rs e = (select_one-All (λ _. Unit {0}) rs (All-pointwise _ rs (λ _. tt)) e).0

  pub select_one-none : (rs : List A) → select_one rs ≡ none → All (λ r. p r ≡ false) rs
  select_one-none [] e = tt
  select_one-none (r ∷ rs) e = (ground arith, select_one-none rs (ground arith))

  -- What an `UPDATE` writes, and what it passes over.
  pub All-update_split {κ} :
      (P : A → Type κ) (f : A → A) (rs : List A)
      → ((r : A) → p r ≡ true → P (f r))
      → ((r : A) → p r ≡ false → P r)
      → All P (update f rs)
  All-update_split P f [] h k = tt
  All-update_split P f (r ∷ rs) h k =
      (if-cases P (p r) (λ e. h r e) (λ e. k r e), All-update_split P f rs h k)

  -- A `DELETE` that finds no row changes nothing.
  pub delete-absent : (rs : List A) → select_one rs ≡ none → delete rs ≡ rs
  delete-absent [] e = refl
  delete-absent (r ∷ rs) e = ground (arith, delete-absent rs)

  -- A deleted row is not found.
  pub select_one-delete_self : (rs : List A) → select_one (delete rs) ≡ none
  select_one-delete_self [] = refl
  select_one-delete_self (r ∷ rs) = elim (Bool-cases (p r)) [
    | inl e ↦ rw e (select_one-delete_self rs)
    | inr e ↦ rw (e, e) (select_one-delete_self rs)
  ]

  pub select-nothing : (rs : List A) → All (λ r. p r ≡ false) rs → select rs ≡ []
  select-nothing [] h = refl
  select-nothing (r ∷ rs) h = rw h.0 (select-nothing rs h.1)

  -- Each row that an `UPDATE` meets, or that still passes its test, is one that it wrote.
  pub All-update_at {κ} :
      (Q : A → Type κ) (f : A → A) (rs : List A)
      → ((r : A) → Q (f r))
      → All (λ r. p r ≡ true → Q r) (update f rs)
  All-update_at Q f [] h = tt
  All-update_at Q f (r ∷ rs) h = elim (Bool-cases (p r)) [
    | inl e ↦ rw e ((λ _. h r), All-update_at Q f rs h)
    | inr e ↦ rw e ((λ k. cc), All-update_at Q f rs h)
  ]

module _ {ℓ} {A : Type ℓ} where
  -- A `SELECT` after an `UPDATE` that leaves its test alone finds the same row, updated.
  pub select_one-update :
      (p q : A → Bool) (f : A → A) (rs : List A) {r : A}
      → ((r : A) → p (f r) ≡ p r)
      → select_one p rs ≡ some r
      → select_one p (update q f rs) ≡ some (if q r then f r else r)
  select_one-update p q f [] keep e = cc
  select_one-update p q f (s ∷ rs) {r} keep e = elim (Bool-cases (p s)) [
    | inl t ↦
        let first : s ≡ r = ground arith in
        elim (Bool-cases (q s)) [
          | inl w ↦ rw (← first) (rw (w, keep, t))
          | inr w ↦ rw (← first) (rw (w, t))
        ]
    | inr t ↦
        let later : select_one p rs ≡ some r = ground arith in
        elim (Bool-cases (q s)) [
          | inl w ↦ rw (w, keep, t) (select_one-update p q f rs keep later)
          | inr w ↦ rw (w, t) (select_one-update p q f rs keep later)
        ]
  ]

  pub select_one-update-none :
      (p q : A → Bool) (f : A → A) (rs : List A)
      → ((r : A) → p (f r) ≡ p r)
      → select_one p rs ≡ none
      → select_one p (update q f rs) ≡ none
  select_one-update-none p q f [] keep e = refl
  select_one-update-none p q f (s ∷ rs) keep e =
      ground (arith, keep s, select_one-update-none p q f rs keep)

  -- An inserted row is found if no older one is.
  pub select_one-append :
      (p : A → Bool) (rs : List A) (r s : A)
      → select_one p rs ≡ some s
      → select_one p (rs ++ r ∷ []) ≡ some s
  select_one-append p [] r s e = cc
  select_one-append p (q ∷ rs) r s e = ground (arith, select_one-append p rs r s)

  pub select_one-append_new :
      (p : A → Bool) (rs : List A) (r : A)
      → select_one p rs ≡ none
      → p r ≡ true
      → select_one p (rs ++ r ∷ []) ≡ some r
  select_one-append_new p [] r e h = rw h
  select_one-append_new p (q ∷ rs) r e h = ground (arith, select_one-append_new p rs r)

  -- A `DELETE` of rows that do not pass the test leaves what a `SELECT` finds.
  pub select_one-delete :
      (p q : A → Bool) (rs : List A)
      → ((r : A) → p r ≡ true → q r ≡ false)
      → select_one p (delete q rs) ≡ select_one p rs
  select_one-delete p q [] spare = refl
  select_one-delete p q (r ∷ rs) spare = elim (Bool-cases (p r)) [
    | inl t ↦ rw (spare r t, t) refl
    | inr t ↦ elim (Bool-cases (q r)) [
      | inl w ↦ rw (w, t) (select_one-delete p q rs spare)
      | inr w ↦ rw (w, t) (select_one-delete p q rs spare)
    ]
  ]

  -- An inserted row that passes leaves something to find.
  pub select_one-append_any :
      (p : A → Bool) (rs : List A) (r : A)
      → p r ≡ true
      → (s : A) × (select_one p (rs ++ r ∷ []) ≡ some s)
  select_one-append_any p [] r h = (r, rw h refl)
  select_one-append_any p (q ∷ rs) r h = elim (Bool-cases (p q)) [
    | inl e ↦ (q, rw e refl)
    | inr e ↦ let (s, f) = select_one-append_any p rs r h in (s, rw e f)
  ]
