-- ===== src/Transfers/Recovery.antt =====
-- personal_mcp/file_transfer.py: which caches of other processes a refresh removes.
use unified_personal_mcp.Prelude.{
  ℕ, suc, ◌+◌, ◌≤◌, ◌<◌, ◌≡◌, refl, sym, ◌∙◌, ◌⊎◌, String, true, false, not, ◌&&◌, ◌||◌, none, some,
  List, [], ◌∷◌, ◌==◌, arith, inl, inr, ltb, max, leb→le, contains, starts_with, if-cases,
  Bool-cases, Option-cases, All,
}
use unified_personal_mcp.Transfers.Neighbours.{
  ttl_seconds, max_cache_dirs, Entry, Metadata, Neighbour, Patterns, Snapshot, members, snapshot_of,
  cache_snapshot, is_given_up, recover_cache, Refreshed, refresh_cache, refresh_loop,
  refresh_caches,
}
use unified_personal_mcp.Transfers.Entries.{Holdback, members-Holdback}

module _ (p : Patterns) (own : String) (time : ℕ) (name : String) where
  -- The cache is the manager's own, its process lives at one of the two looks, or its marker cannot be read
  -- or is younger than a transfer may get, or beside the marker there is an entry that is foreign or young.
  abbrev pub Stays : Neighbour → Type 0
  Stays n =
      ((n.name == own) ≡ true)
      ⊎ (n.alive ≡ true)
      ⊎ (n.alive_again ≡ true)
      ⊎ (n.marker ≡ none)
      ⊎ (n.metadata ≡ none)
      ⊎ ((marker : Entry) × (m : Metadata) × (n.marker ≡ some marker)
          × (n.metadata ≡ some m)
          × Holdback time n marker m)

  snapshot-young :
      (n : Neighbour) (s : Snapshot) (marker : Entry) (m : Metadata)
      → cache_snapshot p n ≡ some s
      → n.marker ≡ some marker
      → n.metadata ≡ some m
      → Holdback time n marker m
      → time < s.newest + ttl_seconds
  unfolding cache_snapshot snapshot_of
  snapshot-young n s marker m e f g h =
      let at : members marker.name m.files n.entries
            (record { reserved = 0; newest = max m.created_at marker.mtime })
          ≡ some s =
        ground arith in
      members-Holdback time n marker m s at h

  never_removed :
      (n : Neighbour) (s : Snapshot)
      → cache_snapshot p n ≡ some s
      → Stays n
      → (n.name == own) ≡ false
      → is_given_up n.alive time s ≡ true
      → n.unchanged && is_given_up n.alive_again n.time_again s && n.removable ≡ true
      → false ≡ true
  unfolding cache_snapshot
  never_removed n s e (inl h) other given_up gone = sym other ∙ h
  never_removed n s e (inr (inl h)) other given_up gone = ground arith
  never_removed n s e (inr (inr (inl h))) other given_up gone = ground arith
  never_removed n s e (inr (inr (inr (inl h)))) other given_up gone = ground arith
  never_removed n s e (inr (inr (inr (inr (inl h))))) other given_up gone = ground arith
  never_removed n s e (inr (inr (inr (inr (inr (marker, m, f, g, h)))))) other given_up gone =
      let old : s.newest + ttl_seconds ≤ time = leb→le _ _ (ground arith) in
      let late = snapshot-young n s marker m e f g h in absurd (omega (arith, old, late))

  abbrev Kept : Refreshed → Type 0
  Kept r = contains name r.removed ≡ false

  refresh_cache-Kept :
      (n : Neighbour) (r : Refreshed)
      → ((n.name == name) ≡ true → Stays n)
      → (n.name == own) ≡ false
      → Kept r
      → Kept (refresh_cache p time n r)
  unfolding refresh_cache recover_cache
  refresh_cache-Kept n r stays other h = elim (Option-cases (cache_snapshot p n)) [
    | inl e ↦ rw (e, refresh_cache) h
    | inr (s, e) ↦
        rw (e, refresh_cache)
          (if-cases Kept (is_given_up n.alive time s)
            (λ given_up.
              if-cases Kept (n.unchanged && is_given_up n.alive_again n.time_again s && n.removable)
                (λ gone. elim (Bool-cases (n.name == name)) [
                  | inr f ↦ rw (f, h) refl
                  | inl f ↦ let clash = never_removed n s e (stays f) other given_up gone in cc
                ])
                (λ _. h))
            (λ _. h))
  ]

  refresh_loop-Kept :
      (count : ℕ) (ns : List Neighbour) (r : Refreshed)
      → All (λ n. (n.name == name) ≡ true → Stays n) ns
      → Kept r
      → Kept (refresh_loop p own time count ns r)
  unfolding refresh_loop
  refresh_loop-Kept count [] r stay h = h
  refresh_loop-Kept count (n ∷ ns) r stay h =
      if-cases Kept (ltb max_cache_dirs (suc count)) (λ _. h)
        (λ _. refresh_loop-Kept (suc count) ns _ stay.1 (
          if-cases Kept (not (starts_with n.name "file-transfers-") || n.name == own) (λ _. h)
            (λ ours. refresh_cache-Kept n r stay.0 (ground arith) h)))

  -- A refresh never removes a directory that is the manager's own, or whose process lives at one of the two
  -- looks, or whose marker is missing or unreadable or says that it was made less than the longest age of a
  -- transfer ago, or that holds, beside its marker, an entry that is no ordinary file, that no registration
  -- in the marker fits by name, identity and size, or that was written less than that age ago.
  pub living_caches_stay :
      (ns : List Neighbour)
      → All (λ n. (n.name == name) ≡ true → Stays n) ns
      → contains name (refresh_caches p own time ns).removed ≡ false
  unfolding refresh_caches
  living_caches_stay ns stay = refresh_loop-Kept 0 ns _ stay refl
