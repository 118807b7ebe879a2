-- ===== src/Workflows/Mirror.antt =====
-- personal_mcp/workflows.py: `_metadata` against the table. A cached row has the key of its row and its
-- state, but that a reservation may be over in one of them and not yet in the other, since `expire` reads
-- the clock again for the cache.
use unified_personal_mcp.Prelude.{
  ℕ, String, Bool, true, false, none, some, List, [], ◌∷◌, ◌++◌, ◌≡◌, refl, sym, ◌∙◌, ap, ◌⊎◌,
  arith, inl, inr, Bool-cases, if◌then◌else◌,
}
use unified_personal_mcp.Table.{select_one, update}
use unified_personal_mcp.Workflows.State.{
  State, Workflow, has_key, is_waiting, is_reserved, is_ended, is_starting,
}
use unified_personal_mcp.Workflows.Idle.{lapsed, mark_expired}

abbrev pub Alike : Workflow → Workflow → Type 0
Alike m w =
    (m.token_hash ≡ w.token_hash)
    × ((m.state ≡ w.state) ⊎ ((is_waiting m.state ≡ true) × (is_waiting w.state ≡ true)))

abbrev pub Mirrors : List Workflow → List Workflow → Type 0
Mirrors [] [] = Unit
Mirrors (m ∷ ms) (w ∷ ws) = Alike m w × Mirrors ms ws
Mirrors _ _ = ⊥

pub Mirrors-refl : (ws : List Workflow) → Mirrors ws ws
Mirrors-refl [] = tt
Mirrors-refl (w ∷ ws) = ((refl, inl refl), Mirrors-refl ws)

pub Mirrors-append :
    (ms ws : List Workflow) (w : Workflow) → Mirrors ms ws → Mirrors (ms ++ w ∷ []) (ws ++ w ∷ [])
Mirrors-append [] [] w h = ((refl, inl refl), tt)
Mirrors-append [] (x ∷ ws) w h = absurd h
Mirrors-append (m ∷ ms) [] w h = absurd h
Mirrors-append (m ∷ ms) (x ∷ ws) w h = (h.0, Mirrors-append ms ws w h.1)

pub Mirrors-update :
    (p q : Workflow → Bool) (f g : Workflow → Workflow) (ms ws : List Workflow)
    → ((m w : Workflow) → Alike m w → Alike (if p m then f m else m) (if q w then g w else w))
    → Mirrors ms ws
    → Mirrors (update p f ms) (update q g ws)
Mirrors-update p q f g [] [] keep h = tt
Mirrors-update p q f g [] (w ∷ ws) keep h = absurd h
Mirrors-update p q f g (m ∷ ms) [] keep h = absurd h
Mirrors-update p q f g (m ∷ ms) (w ∷ ws) keep h =
    (keep m w h.0, Mirrors-update p q f g ms ws keep h.1)

-- A write by key, in both.
pub Mirrors-at :
    (key : String) (f g : Workflow → Workflow) (ms ws : List Workflow)
    → ((m w : Workflow) → Alike m w → Alike (f m) (g w))
    → Mirrors ms ws
    → Mirrors (update (has_key key) f ms) (update (has_key key) g ws)
Mirrors-at key f g ms ws keep = Mirrors-update (has_key key) (has_key key) f g ms ws (λ m w a.
    elim (Bool-cases (has_key key w)) [
      | inl e ↦ let own : has_key key m ≡ true = rw (a.0) e in rw (own, e) (keep m w a)
      | inr e ↦ let other : has_key key m ≡ false = rw (a.0) e in rw (other, e) a
    ])

reserved_waits : (s : State) → is_reserved s ≡ true → is_waiting s ≡ true
reserved_waits s h = ground arith

lapsed_waits : (now : ℕ) (w : Workflow) → lapsed now w ≡ true → is_waiting w.state ≡ true
lapsed_waits now w h = reserved_waits w.state (ground arith)

waits-Alike : (m w : Workflow) → Alike m w → is_waiting m.state ≡ true → is_waiting w.state ≡ true
waits-Alike m w (k, inl e) h = ap is_waiting (sym e) ∙ h
waits-Alike m w (k, inr h) _ = h.1

Alike-waits : (m w : Workflow) → Alike m w → is_waiting w.state ≡ true → is_waiting m.state ≡ true
Alike-waits m w (k, inl e) h = ap is_waiting e ∙ h
Alike-waits m w (k, inr h) _ = h.0

waiting_not_ended : (s : State) → is_waiting s ≡ true → is_ended s ≡ false
waiting_not_ended s h = ground arith

waiting_not_starting : (s : State) → is_waiting s ≡ true → is_starting s ≡ false
waiting_not_starting s h = ground arith

-- The expiry, at one time in the table and for each key at another in the cache.
pub Mirrors-lapsed :
    (at : String → ℕ) (now : ℕ) (ms ws : List Workflow)
    → Mirrors ms ws
    → Mirrors
        (update (λ m. lapsed (at m.token_hash) m) mark_expired ms)
        (update (lapsed now) mark_expired ws)
Mirrors-lapsed at now ms ws =
    Mirrors-update (λ m. lapsed (at m.token_hash) m) (lapsed now) mark_expired mark_expired ms ws
      (λ m w a. elim (Bool-cases (lapsed (at m.token_hash) m)) [
        | inl e ↦
            let early = lapsed_waits (at m.token_hash) m e in
            let row_early = waits-Alike m w a early in
            elim (Bool-cases (lapsed now w)) [
              | inl f ↦ rw (e, f) (a.0, inl refl)
              | inr f ↦ rw (e, f) (a.0, inr (refl, row_early))
            ]
        | inr e ↦ elim (Bool-cases (lapsed now w)) [
          | inl f ↦ rw (e, f) (a.0, inr (Alike-waits m w a (lapsed_waits now w f), refl))
          | inr f ↦ rw (e, f) a
        ]
      ])

-- What the cache has under a key.
pub Mirrors-find :
    (key : String) (ms ws : List Workflow) {w : Workflow}
    → Mirrors ms ws
    → select_one (has_key key) ws ≡ some w
    → (m : Workflow) × (select_one (has_key key) ms ≡ some m) × Alike m w
Mirrors-find key [] [] {w} h e = cc
Mirrors-find key [] (x ∷ ws) {w} h e = absurd h
Mirrors-find key (m ∷ ms) [] {w} h e = absurd h
Mirrors-find key (m ∷ ms) (x ∷ ws) {w} h e = elim (Bool-cases (has_key key x)) [
  | inl t ↦
      let own : has_key key m ≡ true = rw (h.0.0) t in
      let same : some x ≡ some w = rw t at e in
      let x_is : x ≡ w = cc in (m, rw own refl, rw (← x_is) (h.0))
  | inr t ↦
      let other : has_key key m ≡ false = rw (h.0.0) t in
      let later : select_one (has_key key) ws ≡ some w = rw t at e in
      rw other (Mirrors-find key ms ws h.1 later)
]

pub Mirrors-missing :
    (key : String) (ms ws : List Workflow)
    → Mirrors ms ws
    → select_one (has_key key) ws ≡ none
    → select_one (has_key key) ms ≡ none
Mirrors-missing key [] [] h e = refl
Mirrors-missing key [] (x ∷ ws) h e = absurd h
Mirrors-missing key (m ∷ ms) [] h e = absurd h
Mirrors-missing key (m ∷ ms) (x ∷ ws) h e = elim (Bool-cases (has_key key x)) [
  | inl t ↦ let clash : some x ≡ none = rw t at e in cc
  | inr t ↦
      let other : has_key key m ≡ false = rw (h.0.0) t in
      let later : select_one (has_key key) ws ≡ none = rw t at e in
      rw other (Mirrors-missing key ms ws h.1 later)
]

-- A row is not ended if its cached row is not, and is starting if that is.
pub Alike-is_ended :
    (m w : Workflow) → Alike m w → is_ended m.state ≡ false → is_ended w.state ≡ false
Alike-is_ended m w (k, inl e) h = ap is_ended (sym e) ∙ h
Alike-is_ended m w (k, inr h) _ = waiting_not_ended w.state h.1

pub Alike-is_starting :
    (m w : Workflow) → Alike m w → is_starting m.state ≡ true → is_starting w.state ≡ true
Alike-is_starting m w (k, inl e) h = ap is_starting (sym e) ∙ h
Alike-is_starting m w (k, inr h) s = let clash = waiting_not_starting m.state h.0 in cc
