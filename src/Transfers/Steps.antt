-- ===== src/Transfers/Steps.antt =====
-- personal_mcp/file_transfer.py: the ways in which the operations on the private cache end.
use unified_personal_mcp.Prelude.{
  ℕ, ◌+◌, ◌≤◌, ◌<◌, ◌≡◌, refl, ◌∙◌, String, Bool, true, false, not, ◌||◌, Option, none, some, [],
  ◌∷◌, ◌++◌, arith, inl, inr, ◌==◌, eq_refl, ltb, leb, leb→lt, ltb→ge, length, sum_by, is_some,
  if-cases, Option-cases,
}
use unified_personal_mcp.Table.{select_one, select, delete, select_one-append_new}
use unified_personal_mcp.Transfers.State.{
  Code, io_error, file_too_large, owner_limit, cleanup_required, capacity_exceeded, Result, ok, err,
  and_then, Transfer, Registered, Limits, Manager, new_manager,
}
use unified_personal_mcp.Transfers.Neighbours.{named, max_cache_files}
use unified_personal_mcp.Transfers.Cache.{
  World, is_file, has_key, is_registered, refresh, construct, capacity, max_owner_transfers,
  ensure_cache, allocate_file, allocate, forget_staged, remove_staged, empty_file, discard_transfer,
}

-- The transfers, the files created, and whether it is closed are as before.
abbrev pub Same : Manager → Manager → Type 0
Same m n = (n.transfers ≡ m.transfers) × (n.project ≡ m.project) × (n.closed ≡ m.closed)

pub Same-trans : (k m n : Manager) → Same k m → Same m n → Same k n
Same-trans k m n h j = (j.0 ∙ h.0, j.1 ∙ h.1, j.2 ∙ h.2)

pub not_some {ℓ} : {A : Type ℓ} (o : Option A) → is_some o ≡ false → o ≡ none
not_some none h = refl
not_some (some a) h = cc

module _ (w : World) where
  -- What a passed check of the capacity says.
  abbrev pub HasRoom : Limits → String → ℕ → Manager → Type 0
  HasRoom l owner size m =
      (size ≤ l.max_file_bytes)
      × (length (select (λ (t : Transfer). t.owner == owner) m.transfers) < 2)
      × (size + sum_by (λ (t : Transfer). t.size) m.transfers ≤ l.max_total_bytes)

  pub capacity-cases {κ} :
      (l : Limits) (owner : String) (size : ℕ) (m : Manager)
      (P : Result (Unit {0}) × Manager → Type κ)
      → ((code : Code) (n : Manager) → Same m n → n.files ≡ m.files → P (err code, n))
      → ((n : Manager) → Same m n → n.files ≡ m.files → HasRoom l owner size m → P (ok tt, n))
      → P (capacity w l owner size m)
  unfolding capacity refresh
  capacity-cases l owner size m P refused passed =
      let owned = length (select (λ (t : Transfer). t.owner == owner) m.transfers) in
      let seen = refresh w w.neighbours m in
      if-cases P (ltb l.max_file_bytes size) (λ _. refused file_too_large m (refl, refl, refl) refl)
        (λ small.
          if-cases P (leb max_owner_transfers owned)
            (λ _. refused owner_limit m (refl, refl, refl) refl)
            (λ few.
              if-cases P seen.cleanup_required
                (λ _. refused cleanup_required seen (refl, refl, refl) refl)
                (λ _.
                  if-cases P
                    (ltb l.max_total_bytes (
                      size
                      + seen.external_bytes
                      + sum_by (λ (t : Transfer). t.size) seen.transfers))
                    (λ _. refused _ seen (refl, refl, refl) refl)
                    (λ room.
                      passed seen (refl, refl, refl) refl
                        (ltb→ge _ _ small, leb→lt _ _ few, omega (arith, ltb→ge _ _ room))))))

  ensure_cache-cases {κ} :
      (m : Manager) (P : Result (Unit {0}) × Manager → Type κ)
      → ((code : Code) (n : Manager) → Same m n → P (err code, n))
      → ((n : Manager) → Same m n → P (ok tt, n))
      → P (ensure_cache w m)
  unfolding ensure_cache
  ensure_cache-cases m P refused done =
      if-cases P m.cache_created (λ _. done m (refl, refl, refl))
        (λ _.
          if-cases P (not w.mkdir) (λ _. refused io_error m (refl, refl, refl))
            (λ _. elim (Option-cases (w.marker_error m.marker)) [
              | inl e ↦ rw e (done _ (refl, refl, refl))
              | inr (code, e) ↦ rw e (refused code _ (refl, refl, refl))
            ]))

  -- A manager that comes from the constructor has no transfer.
  pub construct-Same : Same new_manager (construct w).1
  unfolding construct refresh
  construct-Same =
      let seen = refresh w w.neighbours new_manager in
      if-cases (λ (r : Result (Unit {0}) × Manager). Same new_manager r.1) seen.cleanup_required
        (λ _. (refl, refl, refl))
        (λ _.
          ensure_cache-cases seen (λ r. Same new_manager r.1) (λ code n same. same)
            (λ n same. same))

  -- A staged file that is new: its key, its name, and the empty file.
  abbrev pub Allocated : Manager → String → String → Manager → Type 0
  Allocated m key staged n =
      Same m n
      × (key ≡ w.new_key)
      × (staged ≡ w.new_name)
      × (select_one (is_file staged) n.files ≡ some (empty_file w))

  abbrev new_entry : ℕ → Registered
  new_entry size = record { name = w.new_name; identity = w.new_identity; reserved = size }

  allocate_file-cases {κ} :
      (size : ℕ) (m : Manager) (P : Result (String × String) × Manager → Type κ)
      → ((code : Code) (n : Manager) → Same m n → P (err code, n))
      → ((key staged : String) (n : Manager) → Allocated m key staged n → P (ok (key, staged), n))
      → P (allocate_file w size m)
  unfolding allocate_file
  allocate_file-cases size m P refused done =
      if-cases P (not (w.opens w.new_name) || is_some (select_one (is_file w.new_name) m.files))
        (λ _. refused io_error m (refl, refl, refl))
        (λ free.
          elim (Option-cases
            (w.marker_error (delete (named w.new_name) m.marker ++ new_entry size ∷ []))) [
              | inl e ↦ rw e (
                  done w.new_key w.new_name _ (
                    (refl, refl, refl),
                    refl,
                    refl,
                    select_one-append_new (is_file w.new_name) m.files (empty_file w)
                        (not_some (select_one (is_file w.new_name) m.files) (ground arith))
                        (eq_refl w.new_name),
                  ))
              | inr (code, e) ↦ rw e (
                  if-cases P (w.unlinks w.new_name) (λ _. refused code _ (refl, refl, refl))
                    (λ _. refused io_error _ (refl, refl, refl)))
            ])

  pub allocate-cases {κ} :
      (l : Limits) (size : ℕ) (m : Manager) (P : Result (String × String) × Manager → Type κ)
      → ((code : Code) (n : Manager) → Same m n → P (err code, n))
      → ((key staged : String) (n : Manager) → Allocated m key staged n → P (ok (key, staged), n))
      → P (allocate w l size m)
  unfolding allocate refresh
  allocate-cases l size m P refused done =
      let seen = refresh w w.neighbours_again m in
      if-cases P seen.cleanup_required (λ _. refused cleanup_required seen (refl, refl, refl))
        (λ _.
          if-cases P
            (leb max_cache_files (length seen.marker)
              || ltb l.max_total_bytes (
                  size + seen.external_bytes + sum_by (λ (r : Registered). r.reserved) seen.marker))
            (λ _. refused capacity_exceeded seen (refl, refl, refl))
            (λ _.
              ensure_cache-cases seen (λ r. P (and_then r (λ _ after. allocate_file w size after)))
                (λ code n same. refused code n same)
                (λ n same.
                  allocate_file-cases size n P
                    (λ code k again. refused code k (Same-trans m n k same again))
                    (λ key staged k (again, a, b, c).
                      done key staged k (Same-trans m n k same again, a, b, c)))))

  forget_staged-cases {κ} :
      (name : String) (m : Manager) (P : Result Bool × Manager → Type κ)
      → ((r : Result Bool) (n : Manager) → Same m n → P (r, n))
      → P (forget_staged w name m)
  unfolding forget_staged
  forget_staged-cases name m P done =
      elim (Option-cases (w.marker_error (delete (named name) m.marker))) [
        | inl e ↦ rw (e, forget_staged) (done (ok true) _ (refl, refl, refl))
        | inr (code, e) ↦ rw (e, forget_staged) (done (err code) _ (refl, refl, refl))
      ]

  pub remove_staged-cases {κ} :
      (name : String) (m : Manager) (P : Result Bool × Manager → Type κ)
      → ((r : Result Bool) (n : Manager) → Same m n → P (r, n))
      → P (remove_staged w name m)
  unfolding remove_staged
  remove_staged-cases name m P done = elim (Option-cases (select_one (is_file name) m.files)) [
    | inl e ↦ rw (e, remove_staged) (forget_staged-cases name m P done)
    | inr (f, e) ↦
        rw (e, remove_staged)
          (if-cases P (not f.regular || not (is_registered f (select_one (named name) m.marker)))
            (λ _. done (ok false) m (refl, refl, refl))
            (λ _.
              if-cases P (not (w.unlinks name)) (λ _. done (err io_error) m (refl, refl, refl))
                (λ _. forget_staged-cases name _ P done)))
  ]

  -- The manager after a discard: the transfer is gone.
  abbrev pub Dropped : String → Manager → Manager → Type 0
  Dropped key m n =
      (n.transfers ≡ delete (has_key key) m.transfers)
      × (n.project ≡ m.project)
      × (n.closed ≡ m.closed)

  pub discard_transfer-cases {κ} :
      (t : Transfer) (m : Manager) (P : Result Bool × Manager → Type κ)
      → ((r : Result Bool) (n : Manager) → Dropped t.key m n → P (r, n))
      → P (discard_transfer w t m)
  unfolding discard_transfer
  discard_transfer-cases t m P done = remove_staged-cases t.staged _ P (λ r n same. done r n same)
