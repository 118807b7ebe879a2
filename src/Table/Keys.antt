-- ===== src/Table/Keys.antt =====
-- A list of rows as a dict: a row is put under its key, in place of the one that was there.
use unified_personal_mcp.Prelude.{
  ◌≡◌, refl, sym, ◌∙◌, String, Bool, true, false, some, List, [], ◌∷◌, ◌++◌, ◌==◌, inl, inr, eq_iff,
  eq_refl, if◌then◌else◌, Bool-cases,
}
use unified_personal_mcp.Table.{select_one, delete}

-- Strings that the test calls equal are equal.
pub ==→eq : (a b : String) → (a == b) ≡ true → a ≡ b
==→eq a b e = (eq_iff a b).0 e

module _ {ℓ} {A : Type ℓ} (key : A → String) where
  abbrev pub keyed : String → A → Bool
  keyed k r = key r == k

  other_key :
      (k : String) (u r : A) → (key r == key u) ≡ false → (key r == k) ≡ true → (key u == k) ≡ false
  other_key k u r e f = elim (Bool-cases (key u == k)) [
    | inl h ↦
        let same : key r ≡ key u = ==→eq (key r) k f ∙ sym (==→eq (key u) k h) in
        let here : (key r == key u) ≡ true = rw same (eq_refl (key u)) in cc
    | inr h ↦ h
  ]

  -- What is found under a key after a row is put.
  pub select_one-put :
      (k : String) (u : A) (rs : List A)
      → select_one (keyed k) (delete (keyed (key u)) rs ++ u ∷ [])
        ≡ (if key u == k then some u else select_one (keyed k) rs)
  select_one-put k u [] = refl
  select_one-put k u (r ∷ rs) = elim (Bool-cases (key r == key u)) [
    | inl e ↦
        let same : key r ≡ key u = ==→eq (key r) (key u) e in
        rw e (
          select_one-put k u rs ∙ elim (Bool-cases (key u == k)) [
            | inl g ↦ rw g refl
            | inr g ↦ let f : (key r == k) ≡ false = rw same g in rw (g, f) refl
          ])
    | inr e ↦ elim (Bool-cases (key r == k)) [
      | inl f ↦ rw (e, f, other_key k u r e f) refl
      | inr f ↦ rw (e, f) (select_one-put k u rs)
    ]
  ]

  -- A row that stays is found as before.
  pub select_one-delete_other :
      (p q : A → Bool) (rs : List A) {r : A}
      → select_one p rs ≡ some r
      → q r ≡ false
      → select_one p (delete q rs) ≡ some r
  select_one-delete_other p q [] e f = cc
  select_one-delete_other p q (s ∷ rs) {r} e f = elim (Bool-cases (p s)) [
    | inl g ↦
        let e' : some s ≡ some r = rw g at e in
        let first : s ≡ r = cc in let stays : q s ≡ false = rw first f in rw (stays, g) e'
    | inr g ↦ elim (Bool-cases (q s)) [
      | inl h ↦ rw h (select_one-delete_other p q rs (rw g at e) f)
      | inr h ↦ rw (h, g) (select_one-delete_other p q rs (rw g at e) f)
    ]
  ]
