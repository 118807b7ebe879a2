-- ===== src/Table/Counts.antt =====
-- How many rows a test selects and what they sum to, after the SQL statements.
use unified_personal_mcp.Prelude.{
  ℕ, ◌+◌, ◌≤◌, ◌≡◌, refl, Bool, List, [], ◌∷◌, ◌++◌, arith, inl, inr, length, sum_by, Bool-cases,
  if◌then◌else◌,
}
use unified_personal_mcp.Table.{select, update, delete}

module _ {ℓ} {A : Type ℓ} where
  pub length-select-delete :
      (p q : A → Bool) (rs : List A) → length (select p (delete q rs)) ≤ length (select p rs)
  length-select-delete p q [] = omega arith
  length-select-delete p q (r ∷ rs) = elim (Bool-cases (q r)) [
    | inl e ↦ elim (Bool-cases (p r)) [
      | inl f ↦ rw (e, f) (omega (arith, length-select-delete p q rs))
      | inr f ↦ rw (e, f) (length-select-delete p q rs)
    ]
    | inr e ↦ elim (Bool-cases (p r)) [
      | inl f ↦ rw (e, f) (omega (arith, length-select-delete p q rs))
      | inr f ↦ rw (e, f) (length-select-delete p q rs)
    ]
  ]

  pub length-select-update :
      (p q : A → Bool) (f : A → A) (rs : List A)
      → ((r : A) → p (f r) ≡ p r)
      → length (select p (update q f rs)) ≡ length (select p rs)
  length-select-update p q f [] same = refl
  length-select-update p q f (r ∷ rs) same = elim (Bool-cases (q r)) [
    | inl e ↦ elim (Bool-cases (p r)) [
      | inl g ↦ rw (e, same, g) (omega (arith, length-select-update p q f rs same))
      | inr g ↦ rw (e, same, g) (length-select-update p q f rs same)
    ]
    | inr e ↦ elim (Bool-cases (p r)) [
      | inl g ↦ rw (e, g) (omega (arith, length-select-update p q f rs same))
      | inr g ↦ rw (e, g) (length-select-update p q f rs same)
    ]
  ]

  pub length-select-append :
      (p : A → Bool) (rs : List A) (r : A)
      → length (select p (rs ++ r ∷ [])) ≡ length (select p rs) + (if p r then 1 else 0)
  length-select-append p [] r = elim (Bool-cases (p r)) [
    | inl e ↦ rw e (omega arith)
    | inr e ↦ rw e (omega arith)
  ]
  length-select-append p (q ∷ rs) r = elim (Bool-cases (p q)) [
    | inl e ↦ rw e (omega (arith, length-select-append p rs r))
    | inr e ↦ rw e (length-select-append p rs r)
  ]

  pub sum_by-delete :
      (g : A → ℕ) (q : A → Bool) (rs : List A) → sum_by g (delete q rs) ≤ sum_by g rs
  sum_by-delete g q [] = omega arith
  sum_by-delete g q (r ∷ rs) = elim (Bool-cases (q r)) [
    | inl e ↦ rw e (omega (arith, sum_by-delete g q rs))
    | inr e ↦ rw e (omega (arith, sum_by-delete g q rs))
  ]

  pub sum_by-update :
      (g : A → ℕ) (q : A → Bool) (f : A → A) (rs : List A)
      → ((r : A) → g (f r) ≡ g r)
      → sum_by g (update q f rs) ≡ sum_by g rs
  sum_by-update g q f [] same = refl
  sum_by-update g q f (r ∷ rs) same = elim (Bool-cases (q r)) [
    | inl e ↦ rw (e, same) (omega (arith, sum_by-update g q f rs same))
    | inr e ↦ rw e (omega (arith, sum_by-update g q f rs same))
  ]

  pub sum_by-append :
      (g : A → ℕ) (rs : List A) (r : A) → sum_by g (rs ++ r ∷ []) ≡ g r + sum_by g rs
  sum_by-append g [] r = omega arith
  sum_by-append g (q ∷ rs) r = omega (arith, sum_by-append g rs r)
