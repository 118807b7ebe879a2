-- ===== src/Search/Bounds.antt =====
-- personal_mcp/search.py: what is collected is within the limits.
use unified_personal_mcp.Prelude.{
  ℕ, ◌+◌, ◌≤◌, ◌<◌, ◌≡◌, refl, sym, ap, subst, ◌∙◌, Bool, true, false, not, ◌||◌, List, [], ◌∷◌,
  ◌++◌, arith, ltb, leb, leb→lt, ltb→ge, length, length-append, sum_by, All, All-append, if-cases,
}
use unified_personal_mcp.Search.Sessions.{
  Record, Session, Limits, Line, too_long, unreadable, other, refused, not_text, match, Next,
  is_running, read_bytes, timeout, collect_line, collect, finish, stop_session,
}

abbrev pub bytes_of : Record → ℕ
bytes_of r = r.bytes

-- The results are within the limits, each fits in a page, and the size is the sum of theirs.
pub record Bounded (l : Limits) (s : Session) : Type 0 where
  pub few : length s.results ≤ l.max_records
  pub small : s.size ≤ l.max_bytes
  pub summed : sum_by bytes_of s.results ≡ s.size
  pub fits : All (λ r. r.bytes ≤ read_bytes) s.results

sum_by-append :
    (rs : List Record) (r : Record) → sum_by bytes_of (rs ++ r ∷ []) ≡ sum_by bytes_of rs + r.bytes
sum_by-append [] r = omega arith
sum_by-append (q ∷ rs) r = omega (arith, sum_by-append rs r)

-- What happens to a session.
pub data Event : Type 0 where
  reads_line : Line → Event
  times_out : Event
  ends : Bool → Bool → Event
  stops : Bool → Event

unfoldable pub step : Limits → Event → Session → Session
unfolding collect timeout finish stop_session
step l (reads_line line) s = (collect l line s).1
step l times_out s = timeout s
step l (ends has_failed code_ok) s = finish has_failed code_ok s
step l (stops joined) s = stop_session joined s

unfoldable pub steps : Limits → List Event → Session → Session
unfolding step
steps l [] s = s
steps l (e ∷ es) s = steps l es (step l e s)

module _ (l : Limits) where
  Bounded-collect_line :
      (line : Line) (s : Session) → Bounded l s → Bounded l (collect_line l line s).1
  unfolding collect_line
  Bounded-collect_line too_long s h = record {
    few = h.few;
    small = h.small;
    summed = h.summed;
    fits = h.fits;
  }
  Bounded-collect_line unreadable s h = h
  Bounded-collect_line other s h = h
  Bounded-collect_line refused s h = h
  Bounded-collect_line not_text s h = record {
    few = h.few;
    small = h.small;
    summed = h.summed;
    fits = h.fits;
  }
  Bounded-collect_line (match r) s h =
      if-cases (λ (x : Next × Session). Bounded l x.1)
        (leb l.max_records (length s.results)
          || ltb l.max_bytes (s.size + r.bytes)
          || ltb read_bytes r.bytes)
        (λ _. record { few = h.few; small = h.small; summed = h.summed; fits = h.fits })
        (λ room.
          let few : length s.results < l.max_records = leb→lt _ _ (ground arith) in
          let small : s.size + r.bytes ≤ l.max_bytes = ltb→ge _ _ (ground arith) in
          let fits : r.bytes ≤ read_bytes = ltb→ge _ _ (ground arith) in
          record {
            few = omega (arith, length-append s.results (r ∷ []), few);
            small = small;
            summed = sum_by-append s.results r ∙ ap (λ n. n + r.bytes) h.summed;
            fits = All-append (λ q. q.bytes ≤ read_bytes) s.results (r ∷ []) h.fits (fits, tt);
          })

  same_results :
      (s n : Session) → n.results ≡ s.results → n.size ≡ s.size → Bounded l s → Bounded l n
  same_results s n e f h = record {
    few = subst (λ rs. length rs ≤ l.max_records) (sym e) h.few;
    small = subst (λ k. k ≤ l.max_bytes) (sym f) h.small;
    summed = ap (sum_by bytes_of) e ∙ h.summed ∙ sym f;
    fits = subst (All (λ r. r.bytes ≤ read_bytes)) (sym e) h.fits;
  }

  Bounded-step : (e : Event) (s : Session) → Bounded l s → Bounded l (step l e s)
  unfolding step collect timeout finish stop_session
  Bounded-step (reads_line line) s h =
      if-cases (λ (x : Next × Session). Bounded l x.1) (not (is_running s.state)) (λ _. h)
        (λ _. Bounded-collect_line line s h)
  Bounded-step times_out s h =
      if-cases (Bounded l) (is_running s.state) (λ _. same_results s _ refl refl h) (λ _. h)
  Bounded-step (ends has_failed code_ok) s h =
      if-cases (Bounded l) (not (is_running s.state)) (λ _. same_results s _ refl refl h)
        (λ _.
          if-cases (Bounded l) (has_failed || not code_ok) (λ _. same_results s _ refl refl h)
            (λ _. same_results s _ refl refl h))
  Bounded-step (stops true) s h =
      if-cases (λ (n : Session). Bounded l (record n { collecting = false })) (is_running s.state)
        (λ _. same_results s _ refl refl h) (λ _. same_results s _ refl refl h)
  Bounded-step (stops false) s h =
      if-cases (Bounded l) (is_running s.state) (λ _. same_results s _ refl refl h) (λ _. h)

  -- Whatever lines ripgrep writes, and whenever the search times out, is stopped or ends: a session within
  -- the limits stays within max_records results and max_bytes bytes, its size is the sum of its results',
  -- and each result fits in a page.
  pub search_stays_within_limits :
      (es : List Event) (s : Session) → Bounded l s → Bounded l (steps l es s)
  unfolding steps
  search_stays_within_limits [] s h = h
  search_stays_within_limits (e ∷ es) s h =
      search_stays_within_limits es (step l e s) (Bounded-step e s h)
