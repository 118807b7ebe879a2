-- ===== src/Transfers/Entries.antt =====
-- personal_mcp/file_transfer.py: what the entries of a cache say against its removal.
use unified_personal_mcp.Prelude.{
  ap, ℕ, ◌+◌, ◌≤◌, ◌<◌, ◌≡◌, refl, ◌⊎◌, String, Bool, false, ◌&&◌, none, some, List, [], ◌∷◌, ◌==◌,
  arith, inl, inr, leb, eqb, max, Option-cases, All,
}
use unified_personal_mcp.Table.{select_one, select_one-All}
use unified_personal_mcp.Transfers.State.{Registered}
use unified_personal_mcp.Transfers.Neighbours.{
  ttl_seconds, Entry, Metadata, Neighbour, Snapshot, named, add_member, members,
}

-- One of the entries has a property.
abbrev pub Holds : (Entry → Type 0) → List Entry → Type 0
Holds P [] = ⊥
Holds P (e ∷ es) = P e ⊎ Holds P es

-- What a registration says of an entry: its name, its identity, and room for its size.
abbrev pub registers : Entry → Registered → Bool
registers e r = r.name == e.name && eqb e.identity r.identity && leb e.size r.reserved

-- Beside the marker, an entry that is not an ordinary file, or that no registration in the marker fits.
abbrev pub IsForeign : String → List Registered → Entry → Type 0
IsForeign marker_name files e =
    ((e.name == marker_name) ≡ false)
    × ((e.regular ≡ false) ⊎ All (λ r. registers e r ≡ false) files)

-- Beside the marker, an entry that is younger than a transfer may get.
abbrev pub IsYoung : ℕ → String → Entry → Type 0
IsYoung time marker_name e = ((e.name == marker_name) ≡ false) × (time < e.mtime + ttl_seconds)

-- A foreign entry ends the loop over the entries.
add_member-foreign :
    (marker_name : String) (files : List Registered) (e : Entry) (s : Snapshot)
    → (e.name == marker_name) ≡ false
    → (e.regular ≡ false) ⊎ All (λ r. registers e r ≡ false) files
    → add_member marker_name files e s ≡ none
unfolding add_member
add_member-foreign marker_name files e s other (inl f) = ground arith
add_member-foreign marker_name files e s other (inr f) =
    elim (Option-cases (select_one (named e.name) files)) [
      | inl n ↦ rw n (ground arith)
      | inr (r, n) ↦
          let (at, unfit) = select_one-All (named e.name) (λ r. registers e r ≡ false) files f n in
          rw n (ground arith)
    ]

members-foreign :
    (marker_name : String) (files : List Registered) (es : List Entry) (s : Snapshot)
    → Holds (IsForeign marker_name files) es
    → members marker_name files es s ≡ none
unfolding members
members-foreign marker_name files [] s h = absurd h
members-foreign marker_name files (e ∷ es) s (inl (other, f)) =
    rw (add_member-foreign marker_name files e s other f, members) refl
members-foreign marker_name files (e ∷ es) s (inr h) =
    elim (Option-cases (add_member marker_name files e s)) [
      | inl n ↦ rw (n, members) refl
      | inr (t, n) ↦ rw (n, members) (members-foreign marker_name files es t h)
    ]

-- The newest time only grows, to that of each entry beside the marker.
add_member-newest :
    (marker_name : String) (files : List Registered) (e : Entry) (s t : Snapshot)
    → add_member marker_name files e s ≡ some t
    → (s.newest ≤ t.newest) × ((e.name == marker_name) ≡ false → e.mtime ≤ t.newest)
unfolding add_member
add_member-newest marker_name files e s t h =
    elim (Option-cases (select_one (named e.name) files)) [
      | inl n ↦ (ground arith, λ other. ground arith)
      | inr (r, n) ↦ (ground arith, λ other. ground arith)
    ]

members-newest :
    (marker_name : String) (files : List Registered) (es : List Entry) (s t : Snapshot)
    → members marker_name files es s ≡ some t
    → s.newest ≤ t.newest
unfolding members
members-newest marker_name files [] s t h =
    let same : s ≡ t = cc in rw (ap (λ (u : Snapshot). u.newest) same) (omega arith)
members-newest marker_name files (e ∷ es) s t h =
    elim (Option-cases (add_member marker_name files e s)) [
      | inl n ↦ let lost : none ≡ some t = rw (n, members) at h in cc
      | inr (u, n) ↦
          let rest : members marker_name files es u ≡ some t = rw (n, members) at h in
          omega (
            arith,
            (add_member-newest marker_name files e s u n).0,
            members-newest marker_name files es u t rest,
          )
    ]

-- A young entry, or one that is already counted.
young-next :
    (time : ℕ) (marker_name : String) (files : List Registered) (e : Entry) (es : List Entry)
    (s u t : Snapshot)
    → add_member marker_name files e s ≡ some u
    → members marker_name files es u ≡ some t
    → (Holds (IsYoung time marker_name) es → time < t.newest + ttl_seconds)
    → IsYoung time marker_name e ⊎ Holds (IsYoung time marker_name) es
    → time < t.newest + ttl_seconds
young-next time marker_name files e es s u t n rest by (inl (other, young)) =
    let grows = members-newest marker_name files es u t rest in
    let own = (add_member-newest marker_name files e s u n).1 other in
    omega (arith, young, grows, own)
young-next time marker_name files e es s u t n rest by (inr k) = by k

members-young :
    (time : ℕ) (marker_name : String) (files : List Registered) (es : List Entry) (s t : Snapshot)
    → members marker_name files es s ≡ some t
    → Holds (IsYoung time marker_name) es
    → time < t.newest + ttl_seconds
unfolding members
members-young time marker_name files [] s t h k = absurd k
members-young time marker_name files (e ∷ es) s t h k =
    elim (Option-cases (add_member marker_name files e s)) [
      | inl n ↦ let lost : none ≡ some t = rw (n, members) at h in cc
      | inr (u, n) ↦
          let rest : members marker_name files es u ≡ some t = rw (n, members) at h in
          young-next time marker_name files e es s u t n rest
            (λ k. members-young time marker_name files es u t rest k) k
    ]

-- What a marker and the entries say against a removal.
abbrev pub Holdback : ℕ → Neighbour → Entry → Metadata → Type 0
Holdback time n marker m =
    (time < m.created_at + ttl_seconds)
    ⊎ (time < marker.mtime + ttl_seconds)
    ⊎ Holds (IsForeign marker.name m.files) n.entries
    ⊎ Holds (IsYoung time marker.name) n.entries

pub members-Holdback :
    (time : ℕ) (n : Neighbour) (marker : Entry) (m : Metadata) (s : Snapshot)
    → members marker.name m.files n.entries
        (record { reserved = 0; newest = max m.created_at marker.mtime })
      ≡ some s
    → Holdback time n marker m
    → time < s.newest + ttl_seconds
members-Holdback time n marker m s e (inl h) =
    let grows = members-newest marker.name m.files n.entries _ s e in ground (arith, grows, h)
members-Holdback time n marker m s e (inr (inl h)) =
    let grows = members-newest marker.name m.files n.entries _ s e in ground (arith, grows, h)
members-Holdback time n marker m s e (inr (inr (inl h))) =
    let lost =
      members-foreign marker.name m.files n.entries
        (record { reserved = 0; newest = max m.created_at marker.mtime }) h in
    cc
members-Holdback time n marker m s e (inr (inr (inr h))) =
    members-young time marker.name m.files n.entries _ s e h
