-- ===== src/Search/Paging.antt =====
-- personal_mcp/search.py: a client that reads page after page.
use unified_personal_mcp.Prelude.{
  ℕ, zero, suc, ◌+◌, ◌-◌, ◌≤◌, ◌<◌, ◌≡◌, refl, sym, ap, ◌∙◌, false, ◌||◌, List, [], ◌∷◌, ◌++◌,
  arith, inl, inr, ltb, leb, ltb→ge, ltb→lt, length, take, drop, take-append-drop, length-drop,
  take_whole, drop-drop, All, Bool-cases, if◌then◌else◌,
}
use unified_personal_mcp.Search.Sessions.{
  ok, err, Record, Session, Limits, is_running, read_bytes, fill, page, read_session,
}
use unified_personal_mcp.Search.Bounds.{Bounded}

-- The results that a client gets that reads on from a cursor, page after page, until there is no more.
unfoldable pub read_all : ℕ → ℕ → ℕ → Session → List Record
unfolding read_session
read_all zero limit cursor s = []
read_all (suc fuel) limit cursor s = elim (read_session cursor limit s) [
  | err code ↦ []
  | ok p ↦
      let rest = read_all fuel limit p.next_cursor s in
      if p.has_more then p.results ++ rest else p.results
]

-- A page is the beginning of what is left.
fill-take :
    (size n : ℕ) (rs : List Record)
    → fill size (take n rs) ≡ take (length (fill size (take n rs))) rs
unfolding fill
fill-take size zero rs = refl
fill-take size (suc n) [] = refl
fill-take size (suc n) (r ∷ rs) = elim (Bool-cases (ltb read_bytes (size + r.bytes))) [
  | inl e ↦ rw (e, fill) refl
  | inr e ↦ rw (e, fill) (ap (λ qs. r ∷ qs) (fill-take (size + r.bytes) n rs))
]

-- Each result fits in a page, so a page has one.
fill-some :
    (n : ℕ) (rs : List Record)
    → 1 ≤ n
    → All (λ r. r.bytes ≤ read_bytes) rs
    → 1 ≤ length rs
    → 1 ≤ length (fill 0 (take n rs))
unfolding fill
fill-some zero rs h fits some_ = absurd (omega (arith, h))
fill-some (suc n) [] h fits some_ = absurd (omega (arith, some_))
fill-some (suc n) (r ∷ rs) h fits some_ =
    let small : ltb read_bytes (0 + r.bytes) ≡ false = ground (arith, fits.0) in
    rw (small, fill) (omega arith)

All-drop :
    (n : ℕ) (rs : List Record)
    → All (λ r. r.bytes ≤ read_bytes) rs
    → All (λ r. r.bytes ≤ read_bytes) (drop n rs)
All-drop zero rs h = h
All-drop (suc n) [] h = h
All-drop (suc n) (r ∷ rs) h = All-drop n rs h.1

module _ (l : Limits) (s : Session) (bounded : Bounded l s) (over : is_running s.state ≡ false)
    (limit : ℕ) (positive : 1 ≤ limit) (few : limit ≤ 1000) where
  read_session-page :
      (cursor : ℕ)
      → cursor ≤ length s.results
      → read_session cursor limit s ≡ ok (page cursor limit s)
  unfolding read_session
  read_session-page cursor inside =
      let fair : leb limit 0 || ltb 1000 limit ≡ false = ground (arith, positive, few) in
      let within : ltb (length s.results) cursor ≡ false = ground (arith, inside) in
      rw (fair, within, read_session) refl

  -- Once a search within the limits is over, a client that reads from a cursor, with pages of any size from
  -- 1 to 1000, gets every result from there on, once and in order; as many pages as there are results left,
  -- and one, are enough.
  pub pages_cover :
      (fuel cursor : ℕ)
      → cursor ≤ length s.results
      → length s.results - cursor < fuel
      → read_all fuel limit cursor s ≡ drop cursor s.results
  unfolding read_all page
  pages_cover zero cursor inside enough = absurd (omega (arith, enough))
  pages_cover (suc fuel) cursor inside enough =
      let left = drop cursor s.results in
      let got = fill 0 (take limit left) in
      let k = length got in
      let prefix : got ≡ take k left = fill-take 0 limit left in
      let size : length left ≡ length s.results - cursor = length-drop cursor s.results in
      let answer = read_session-page cursor inside in
      elim (Bool-cases (ltb (cursor + k) (length s.results))) [
        | inl more ↦
            let further : cursor + k < length s.results = ltb→lt _ _ more in
            let some_ =
              fill-some limit left positive (All-drop cursor s.results bounded.fits)
                (omega (arith, size, further)) in
            let rest =
              pages_cover fuel (cursor + k) (omega (arith, further))
                (omega (arith, some_, enough, further)) in
            rw (answer, more, read_all)
              (rw rest (
                ap (λ ys. got ++ ys) (sym (drop-drop cursor k s.results))
                ∙ ap (λ ys. ys ++ drop k left) prefix
                ∙ take-append-drop k left))
        | inr last ↦
            let end : length s.results ≤ cursor + k = ltb→ge _ _ last in
            rw (answer, last, over, read_all)
              (prefix ∙ take_whole k left (omega (arith, size, end)))
      ]
