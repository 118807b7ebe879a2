-- ===== src/Browser/Keeping.antt =====
-- bf_automation/browser/operation_store.py: what the calls do to the row of one operation.
use unified_personal_mcp.Prelude.{
  ℕ, String, Bool, true, false, not, ◌&&◌, Option, none, some, List, [], ◌∷◌, ◌++◌, ◌==◌, ◌≡◌, refl,
  sym, ◌∙◌, arith, inl, inr, eq_iff, All, All-append, if◌then◌else◌, if-cases, Option-cases,
  Bool-cases,
}
use unified_personal_mcp.Table.{
  select_one, select, update, select_one-update, select_one-append, select_one-delete, All-update,
  All-delete,
}
use unified_personal_mcp.Operations.Json.{Json}
use unified_personal_mcp.Browser.Store.{
  State, Reply, Shown, dispatched, failed, unknown, Row, Codec, at, is_queued, is_dispatched,
  is_final, is_one, new_row, reserve_row, reserve, dispatch, encode, finish_encoded, finish,
  delete_owner, recover,
}
use unified_personal_mcp.Browser.Events.{
  Event, reserves, dispatches, finishes, deletes, recovers, step, spares,
}

-- There is a row with this key, and each such row is so; the key is the table's primary key.
pub record Has (owner request_id : String) (P : Row → Type 0) (rows : List Row) : Type 0 where
  pub there : (r : Row) × (select_one (at owner request_id) rows ≡ some r)
  pub each : All (λ r. at owner request_id r ≡ true → P r) rows

module _ (owner request_id : String) (P : Row → Type 0) where
  Has-update :
      (q : Row → Bool) (f : Row → Row) (rows : List Row)
      → ((r : Row) → at owner request_id (f r) ≡ at owner request_id r)
      → ((r : Row) → q r ≡ true → P r → P (f r))
      → Has owner request_id P rows
      → Has owner request_id P (update q f rows)
  Has-update q f rows same keep h = record {
    there =
        let (r, e) = h.there in
        (if q r then f r else r, select_one-update (at owner request_id) q f rows same e);
    each =
        All-update q (λ r. at owner request_id r ≡ true → P r) f rows
          (λ r w k a. keep r w (k (sym (same r) ∙ a))) h.each;
  }

  -- A row with another key comes in.
  Has-append :
      (rows : List Row) (new : Row)
      → select_one (at new.owner new.request_id) rows ≡ none
      → Has owner request_id P rows
      → Has owner request_id P (rows ++ new ∷ [])
  Has-append rows new n h =
      let (r, e) = h.there in
      let other : at owner request_id new ≡ true → P new = λ a.
        let here : new.owner ≡ owner = (eq_iff new.owner owner).0 (ground arith) in
        let this : new.request_id ≡ request_id =
          (eq_iff new.request_id request_id).0 (ground arith) in
        let absent : select_one (at owner request_id) rows ≡ none = rw (← here, ← this) n in
        let absurd : some r ≡ none = sym e ∙ absent in cc in
      record {
        there = (r, select_one-append (at owner request_id) rows new r e);
        each = All-append _ rows (new ∷ []) h.each (other, tt);
      }

  Has-delete_owner :
      (o : String) (rows : List Row)
      → (o == owner) ≡ false
      → Has owner request_id P rows
      → Has owner request_id P (delete_owner o rows).1
  unfolding delete_owner
  Has-delete_owner o rows ne h =
      let (r, e) = h.there in
      let spared : (s : Row) → at owner request_id s ≡ true → (s.owner == o) ≡ false = λ s a.
        elim (Bool-cases (s.owner == o)) [
          | inr f ↦ f
          | inl t ↦
              let mine : s.owner ≡ owner = (eq_iff s.owner owner).0 (ground arith) in
              let theirs : s.owner ≡ o = (eq_iff s.owner o).0 t in
              let both : o ≡ owner = sym theirs ∙ mine in
              let same : (o == owner) ≡ true = (eq_iff o owner).1 both in cc
        ] in
      record {
        there = (r, select_one-delete (at owner request_id) (λ s. s.owner == o) rows spared ∙ e);
        each = All-delete (λ s. s.owner == o) _ rows h.each;
      }

  -- The writes of the store keep what holds of the row.
  pub record Stays : Type 0 where
    pub by_dispatch :
        (now : ℕ) (r : Row)
        → is_queued r.state ≡ true
        → P r
        → P (record r { state = dispatched; updated = now })
    pub by_finish :
        (now : ℕ) (state : State) (encoded : Option String) (r : Row)
        → is_final state ≡ true
        → is_final r.state ≡ false
        → P r
        → P (record r { state = state; result = encoded; updated = now })
    pub by_loss :
        (now : ℕ) (r : Row)
        → is_dispatched r.state ≡ true
        → P r
        → P (record r { state = unknown; updated = now })
    pub by_refusal :
        (now : ℕ) (r : Row)
        → is_queued r.state ≡ true
        → P r
        → P (record r { state = failed; updated = now })

  module _ (stays : Stays) (c : Codec) where
    Has-reserve :
        (now : ℕ) (o i operation : String) (arguments : Json) (rows : List Row)
        → Has owner request_id P rows
        → Has owner request_id P (reserve c now o i operation arguments rows).1
    unfolding reserve reserve_row
    Has-reserve now o i operation arguments rows h =
        if-cases (λ (r : Reply (Shown × Bool) × List Row). Has owner request_id P r.1)
          (not (c.is_id i)) (λ _. h)
          (λ _. elim (Option-cases (c.fingerprint_of operation arguments)) [
            | inl e ↦ rw e h
            | inr (fingerprint, e) ↦ elim (Option-cases (select_one (at o i) rows)) [
              | inl n ↦
                  rw e (rw (n, reserve_row) (Has-append rows (new_row now o i fingerprint) n h))
              | inr (r, f) ↦ rw e (rw (f, reserve_row) h)
            ]
          ])

    Has-dispatch :
        (now : ℕ) (o i : String) (rows : List Row)
        → Has owner request_id P rows
        → Has owner request_id P (dispatch now o i rows).1
    unfolding dispatch
    Has-dispatch now o i rows h =
        let due : Row → Bool = λ r. at o i r && is_queued r.state in
        if-cases (λ (r : Bool × List Row). Has owner request_id P r.1) (is_one (select due rows))
          (λ _.
            Has-update due (λ r. record r { state = dispatched; updated = now }) rows (λ r. refl)
              (λ r w. stays.by_dispatch now r (ground arith)) h)
          (λ _. h)

    Has-finish :
        (now : ℕ) (o i : String) (state : State) (result : Option Json) (rows : List Row)
        → Has owner request_id P rows
        → Has owner request_id P (finish c now o i state result rows).1
    unfolding finish finish_encoded
    Has-finish now o i state result rows h =
        let due : Row → Bool = λ r. at o i r && not (is_final r.state) in
        let Q : Reply (Option Shown) × List Row → Type 0 = λ r. Has owner request_id P r.1 in
        if-cases Q (not (is_final state)) (λ _. h)
          (λ f. elim (Option-cases (encode c result)) [
            | inl e ↦ rw e h
            | inr (encoded, e) ↦ rw e (
                if-cases Q (is_one (select due rows))
                  (λ _.
                    Has-update due
                      (λ r. record r { state = state; result = encoded; updated = now }) rows
                      (λ r. refl)
                      (λ r w. stays.by_finish now state encoded r (ground arith) (ground arith)) h)
                  (λ _. h))
          ])

    pub Has-step :
        (e : Event) (rows : List Row)
        → spares owner e ≡ true
        → Has owner request_id P rows
        → Has owner request_id P (step c e rows)
    unfolding step recover
    Has-step (reserves now o i operation arguments) rows s h =
        Has-reserve now o i operation arguments rows h
    Has-step (dispatches now o i) rows s h = Has-dispatch now o i rows h
    Has-step (finishes now o i state result) rows s h = Has-finish now o i state result rows h
    Has-step (deletes o) rows s h = Has-delete_owner o rows (ground arith) h
    Has-step (recovers now) rows s h =
        let lost =
          update (λ r. is_dispatched r.state) (λ r. record r { state = unknown; updated = now })
            rows in
        Has-update (λ r. is_queued r.state) (λ r. record r { state = failed; updated = now }) lost
          (λ r. refl) (λ r w. stays.by_refusal now r w)
          (Has-update (λ r. is_dispatched r.state)
            (λ r. record r { state = unknown; updated = now }) rows (λ r. refl)
            (λ r w. stays.by_loss now r w) h)
