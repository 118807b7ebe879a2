-- ===== src/Prelude/Chains.antt =====
-- Any number of steps of a relation, one after the other.
use mathlib.Core.Path.{◌≡◌, refl, sym, subst}

pub data Chain {ℓ κ} {A : Type ℓ} (R : A → A → Type κ) : A → A → Type (ℓ ⊔ κ) where
  stop : (m n : A) → n ≡ m → Chain R m n
  go : (m k n : A) → R m k → Chain R k n → Chain R m n

module _ {ℓ κ} {A : Type ℓ} (R : A → A → Type κ) where
  pub Chain-one : (m n : A) → R m n → Chain R m n
  Chain-one m n s = go m n n s (stop n n refl)

  pub Chain-trans : (m k n : A) → Chain R m k → Chain R k n → Chain R m n
  Chain-trans m k n (stop _ _ e) q = subst (λ j. Chain R j n) e q
  Chain-trans m k n (go _ j _ s p) q = go m j n s (Chain-trans j k n p q)

  -- What each step keeps, the chain keeps.
  pub Chain-keep {μ} :
      (P : A → Type μ) → ((m n : A) → R m n → P m → P n) → (m n : A) → Chain R m n → P m → P n
  Chain-keep P keep m n (stop _ _ e) h = subst P (sym e) h
  Chain-keep P keep m n (go _ k _ s p) h = Chain-keep P keep k n p (keep m k s h)
