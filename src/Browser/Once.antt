-- ===== src/Browser/Once.antt =====
-- bf_automation/browser/operation_store.py: an operation is dispatched at most once, and its final state
-- and result stay.
use unified_personal_mcp.Prelude.{
  ℕ, ◌≤◌, String, Bool, true, false, ◌&&◌, Option, some, List, [], ◌∷◌, ◌==◌, ◌≡◌, refl, arith, inl,
  inr, eq_iff, All, All-map, if◌then◌else◌, if-cases, Option-cases, Bool-cases,
}
use unified_personal_mcp.Table.{
  select_one, select, select_one-update, select_one-none, select-nothing, All-update_split,
}
use unified_personal_mcp.Browser.Store.{
  State, dispatched, Row, Codec, at, is_queued, is_dispatched, is_final, is_one, dispatch,
}
use unified_personal_mcp.Browser.Events.{
  Event, reserves, dispatches, finishes, deletes, recovers, step, steps, spares, dispatches_it,
  dispatch_count,
}
use unified_personal_mcp.Browser.Keeping.{Has, Stays, Has-step}

abbrev NotQueued : Row → Type 0
NotQueued r = is_queued r.state ≡ false

final_not_queued : (s : State) → is_final s ≡ true → is_queued s ≡ false
final_not_queued s h = ground arith

final_not_dispatched : (s : State) → is_final s ≡ true → is_dispatched s ≡ false
final_not_dispatched s h = ground arith

Stays-NotQueued : (owner request_id : String) → Stays owner request_id NotQueued
Stays-NotQueued owner request_id = record {
  by_dispatch = λ now r w k. refl;
  by_finish = λ now state encoded r f w k. final_not_queued state f;
  by_loss = λ now r w k. refl;
  by_refusal = λ now r w k. refl;
}

-- The state and the result of a row.
abbrev pub Ended : State → Option String → Row → Type 0
Ended state result r = (r.state ≡ state) × (r.result ≡ result)

Stays-Ended :
    (owner request_id : String) (state : State) (result : Option String)
    → is_final state ≡ true
    → Stays owner request_id (Ended state result)
Stays-Ended owner request_id state result f =
    let over : (r : Row) → Ended state result r → is_final r.state ≡ true = λ r k. rw (k.0) f in
    record {
      by_dispatch = λ now r w k. let q = final_not_queued r.state (over r k) in cc;
      by_finish = λ now s encoded r g w k. let q = over r k in cc;
      by_loss = λ now r w k. let q = final_not_dispatched r.state (over r k) in cc;
      by_refusal = λ now r w k. let q = final_not_queued r.state (over r k) in cc;
    }

and_false : (a q : Bool) → (a ≡ true → q ≡ false) → (a && q) ≡ false
and_false true q h = h refl
and_false false q h = refl

false_and : (a q : Bool) → (a && q) ≡ false → a ≡ true → q ≡ false
false_and true q h e = h
false_and false q h e = cc

module _ (c : Codec) (owner request_id : String) where
  -- Once an operation is completed, failed or of unknown outcome, whatever is called after but a deletion
  -- of its owner: it is there, and every row with its key has the same state and the same result.
  pub final_results_stay :
      (state : State) (result : Option String) (es : List Event) (rows : List Row)
      → is_final state ≡ true
      → All (λ e. spares owner e ≡ true) es
      → Has owner request_id (Ended state result) rows
      → Has owner request_id (Ended state result) (steps c es rows)
  unfolding steps
  final_results_stay state result [] rows f s h = h
  final_results_stay state result (e ∷ es) rows f s h =
      final_results_stay state result es (step c e rows) f s.1 (
        Has-step owner request_id (Ended state result) (Stays-Ended owner request_id state result f)
          c e rows s.0 h)

  refused_dispatch :
      (now : ℕ) (rows : List Row)
      → Has owner request_id NotQueued rows
      → (dispatch now owner request_id rows).0 ≡ false
  unfolding dispatch
  refused_dispatch now rows h =
      let none_due : All (λ r. (at owner request_id r && is_queued r.state) ≡ false) rows =
        All-map (λ r. at owner request_id r ≡ true → NotQueued r)
          (λ r. (at owner request_id r && is_queued r.state) ≡ false) rows
          (λ r k. and_false (at owner request_id r) (is_queued r.state) k) h.each in
      rw (select-nothing (λ r. at owner request_id r && is_queued r.state) rows none_due) refl

  one_is_found :
      (rows : List Row)
      → is_one (select (λ r. at owner request_id r && is_queued r.state) rows) ≡ true
      → (r : Row) × (select_one (at owner request_id) rows ≡ some r)
  one_is_found rows one = elim (Option-cases (select_one (at owner request_id) rows)) [
    | inr found ↦ found
    | inl n ↦
        let absent : All (λ r. (at owner request_id r && is_queued r.state) ≡ false) rows =
          All-map (λ r. at owner request_id r ≡ false)
            (λ r. (at owner request_id r && is_queued r.state) ≡ false) rows (λ r k. rw k refl)
            (select_one-none (at owner request_id) rows n) in
        let empty = select-nothing (λ r. at owner request_id r && is_queued r.state) rows absent in
        let absurd : is_one [] ≡ true = rw empty at one in cc
  ]

  dispatched_leaves_queue :
      (now : ℕ) (rows : List Row)
      → (dispatch now owner request_id rows).0 ≡ true
      → Has owner request_id NotQueued (dispatch now owner request_id rows).1
  unfolding dispatch
  dispatched_leaves_queue now rows d =
      let due : Row → Bool = λ r. at owner request_id r && is_queued r.state in
      let sent : Row → Row = λ r. record r { state = dispatched; updated = now } in
      let Q : Bool × List Row → Type 0 = λ r. r.0 ≡ true → Has owner request_id NotQueued r.1 in
      if-cases Q (is_one (select due rows))
        (λ one _.
          let (r, e) = one_is_found rows one in
          record {
            there = (
              if due r then sent r else r,
              select_one-update (at owner request_id) due sent rows (λ s. refl) e,
            );
            each =
                All-update_split due (λ s. at owner request_id s ≡ true → NotQueued s) sent rows
                  (λ s w a. refl)
                  (λ s w a. false_and (at owner request_id s) (is_queued s.state) w a);
          })
        (λ _ e. cc) d

  dispatch_once_queued_out :
      (e : Event) (rows : List Row)
      → Has owner request_id NotQueued rows
      → dispatches_it owner request_id e rows ≡ false
  unfolding dispatches_it
  dispatch_once_queued_out (dispatches now o i) rows h =
      elim (Bool-cases (o == owner && i == request_id)) [
        | inr other ↦ rw other refl
        | inl same ↦
            let here : o ≡ owner = (eq_iff o owner).0 (ground arith) in
            let this : i ≡ request_id = (eq_iff i request_id).0 (ground arith) in
            let refused : (dispatch now o i rows).0 ≡ false =
              rw (here, this) (refused_dispatch now rows h) in
            rw (same, refused) refl
      ]
  dispatch_once_queued_out (reserves now o i operation arguments) rows h = refl
  dispatch_once_queued_out (finishes now o i state result) rows h = refl
  dispatch_once_queued_out (deletes o) rows h = refl
  dispatch_once_queued_out (recovers now) rows h = refl

  sent_is_out :
      (e : Event) (rows : List Row)
      → dispatches_it owner request_id e rows ≡ true
      → Has owner request_id NotQueued (step c e rows)
  unfolding dispatches_it step
  sent_is_out (dispatches now o i) rows h =
      let here : o ≡ owner = (eq_iff o owner).0 (ground arith) in
      let this : i ≡ request_id = (eq_iff i request_id).0 (ground arith) in
      let sent : (dispatch now o i rows).0 ≡ true = ground arith in
      let mine : (dispatch now owner request_id rows).0 ≡ true = rw (← here, ← this) sent in
      rw (here, this) (dispatched_leaves_queue now rows mine)
  sent_is_out (reserves now o i operation arguments) rows h = cc
  sent_is_out (finishes now o i state result) rows h = cc
  sent_is_out (deletes o) rows h = cc
  sent_is_out (recovers now) rows h = cc

  out_is_never_sent :
      (es : List Event) (rows : List Row)
      → All (λ e. spares owner e ≡ true) es
      → Has owner request_id NotQueued rows
      → dispatch_count c owner request_id es rows ≡ 0
  unfolding dispatch_count
  out_is_never_sent [] rows s h = refl
  out_is_never_sent (e ∷ es) rows s h =
      let next =
        Has-step owner request_id NotQueued (Stays-NotQueued owner request_id) c e rows s.0 h in
      rw (dispatch_once_queued_out e rows h)
        (omega (arith, out_is_never_sent es (step c e rows) s.1 next))

  -- Whatever the calls, from any table: an operation is dispatched at most once, as long as its owner is
  -- not deleted.
  pub dispatches_at_most_once :
      (es : List Event) (rows : List Row)
      → All (λ e. spares owner e ≡ true) es
      → dispatch_count c owner request_id es rows ≤ 1
  unfolding dispatch_count
  dispatches_at_most_once [] rows s = omega arith
  dispatches_at_most_once (e ∷ es) rows s =
      elim (Bool-cases (dispatches_it owner request_id e rows)) [
        | inl d ↦
            rw d (omega (arith, out_is_never_sent es (step c e rows) s.1 (sent_is_out e rows d)))
        | inr d ↦ rw d (omega (arith, dispatches_at_most_once es (step c e rows) s.1))
      ]
