-- ===== src/Workflows/Lease.antt =====
-- The project leases: which two rows clash, and which changes of the table keep clashes out.
use unified_personal_mcp.Prelude.{
  Bool, true, false, ◌&&◌, ◌||◌, List, [], ◌∷◌, ◌++◌, String, none, ◌≡◌, arith, inl, inr, All,
  All-append, eq_iff, Bool-cases, if◌then◌else◌,
}
use unified_personal_mcp.Table.{select, select_one, update}
use unified_personal_mcp.Workflows.State.{Workflow, is_live, is_write, has_key}
use unified_personal_mcp.Workflows.Begin.{overlaps, conflicts_with}
use unified_personal_mcp.Workflows.Evolution.{Evolve, Evolve-refl, Unique, reaches-live}

-- Two live rows, one of them a writer, of which one project holds the other.
unfoldable pub clash : Workflow → Workflow → Bool
clash r s =
    is_live r.state
    && is_live s.state
    && (is_write r.access || is_write s.access)
    && overlaps r.project s.project

abbrev pub Exclusive : List Workflow → Type 0
Exclusive [] = Unit
Exclusive (r ∷ rs) = All (λ s. clash r s ≡ false) rs × Exclusive rs

-- Rows that evolve do not begin to clash.
pub clash-Evolve :
    (held : List String) (r s r' s' : Workflow)
    → Evolve held r' r
    → Evolve held s' s
    → clash r s ≡ false
    → clash r' s' ≡ false
unfolding clash
clash-Evolve held r s r' s' f g h =
    rw (f.project, g.project, f.access, g.access)
      (ground
        (arith, h, reaches-live r.state r'.state f.move, reaches-live s.state s'.state g.move))

module _ (held : List String) (p : Workflow → Bool) (f : Workflow → Workflow) where
  abbrev Changes : List Workflow → Type 0
  Changes rs = All (λ r. p r ≡ true → Evolve held (f r) r) rs

  abbrev changed : Workflow → Workflow
  changed r = if p r then f r else r

  changed-Evolve : (r : Workflow) → (p r ≡ true → Evolve held (f r) r) → Evolve held (changed r) r
  changed-Evolve r h = elim (Bool-cases (p r)) [
    | inl e ↦ rw e (h e)
    | inr e ↦ rw e (Evolve-refl held r)
  ]

  no_clash-update :
      (r r' : Workflow) (rs : List Workflow)
      → Evolve held r' r
      → Changes rs
      → All (λ s. clash r s ≡ false) rs
      → All (λ s. clash r' s ≡ false) (update p f rs)
  no_clash-update r r' [] e c h = tt
  no_clash-update r r' (s ∷ rs) e c h = (
    clash-Evolve held r s r' (changed s) e (changed-Evolve s c.0) h.0,
    no_clash-update r r' rs e c.1 h.1,
  )

  pub Exclusive-update :
      (rs : List Workflow) → Changes rs → Exclusive rs → Exclusive (update p f rs)
  Exclusive-update [] c h = tt
  Exclusive-update (r ∷ rs) c h =
      (no_clash-update r (changed r) rs (changed-Evolve r c.0) c.1 h.0, Exclusive-update rs c.1 h.1)

  other_key-update :
      (r r' : Workflow) (rs : List Workflow)
      → Evolve held r' r
      → Changes rs
      → All (λ s. has_key r.token_hash s ≡ false) rs
      → All (λ s. has_key r'.token_hash s ≡ false) (update p f rs)
  other_key-update r r' [] e c h = tt
  other_key-update r r' (s ∷ rs) e c h =
      (rw (e.key, (changed-Evolve s c.0).key) h.0, other_key-update r r' rs e c.1 h.1)

  pub Unique-update : (rs : List Workflow) → Changes rs → Unique rs → Unique (update p f rs)
  Unique-update [] c h = tt
  Unique-update (r ∷ rs) c h =
      (other_key-update r (changed r) rs (changed-Evolve r c.0) c.1 h.0, Unique-update rs c.1 h.1)

-- A new row joins rows that it clashes with nowhere.
pub Exclusive-append :
    (rs : List Workflow) (w : Workflow)
    → All (λ r. clash r w ≡ false) rs
    → Exclusive rs
    → Exclusive (rs ++ w ∷ [])
Exclusive-append [] w c h = (tt, tt)
Exclusive-append (r ∷ rs) w c h =
    (All-append _ rs (w ∷ []) h.0 (c.0, tt), Exclusive-append rs w c.1 h.1)

pub Unique-append :
    (rs : List Workflow) (w : Workflow)
    → select_one (has_key w.token_hash) rs ≡ none
    → Unique rs
    → Unique (rs ++ w ∷ [])
Unique-append [] w c h = (tt, tt)
Unique-append (r ∷ rs) w c h = (
  All-append _ rs (w ∷ []) h.0
      (ground (arith, eq_iff w.token_hash r.token_hash, eq_iff r.token_hash w.token_hash), tt),
  Unique-append rs w (ground arith) h.1,
)

-- The loop of `begin` finds no conflict: the row that it inserts clashes with none.
pub conflicts_with-clash :
    (w : Workflow) (rs : List Workflow)
    → select (conflicts_with w.project w.access) rs ≡ []
    → All (λ r. clash r w ≡ false) rs
conflicts_with-clash w [] h = tt
conflicts_with-clash w (r ∷ rs) h =
    (no_clash w r (ground arith), conflicts_with-clash w rs (ground arith))
  where
    no_clash : (w r : Workflow) → conflicts_with w.project w.access r ≡ false → clash r w ≡ false
    no_clash w r e = unfold clash conflicts_with in ground arith
