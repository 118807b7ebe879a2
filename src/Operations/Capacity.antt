-- ===== src/Operations/Capacity.antt =====
-- personal_mcp/operations.py: the bound on the number of records.
use unified_personal_mcp.Prelude.{
  ℕ, ◌≤◌, ◌<◌, String, Bool, Option, none, some, List, [], ◌∷◌, ◌≡◌, refl, ◌∙◌, subst, arith, inl,
  inr, length, length-append, leb, leb→lt, ◌&&◌, is_some, Option-cases, Bool-cases,
}
use unified_personal_mcp.Table.{select, update, length-update}
use unified_personal_mcp.Operations.Json.{Json}
use unified_personal_mcp.Operations.Journal.{
  Operation, Limits, Codec, at, is_stale, forget_result, forget_all, over_budget, by_updated,
  unknown, in_flight, unsettled, prune, reopen, mark_unknown, settle, stored_form, final_phase,
  complete, finished, status,
}
use unified_personal_mcp.Operations.Run.{
  Request, Execution, returned, raised, future_returned, future_raised, future_pending, Setting,
  reclaim, make_room, conclude, dispatch, reserve,
}
use unified_personal_mcp.Operations.Answers.{reserve-cases}
use unified_personal_mcp.Operations.Events.{
  Event, requests, returns, future_done, asks, reopens, step, steps,
}

length-forget_all : (fs ops : List Operation) → length (forget_all fs ops) ≡ length ops
unfolding forget_all
length-forget_all [] ops = refl
length-forget_all (f ∷ fs) ops =
    length-forget_all fs (update (at f.owner f.request_id) forget_result ops)
    ∙ length-update (at f.owner f.request_id) forget_result ops

length-prune : (l : Limits) (now : ℕ) (ops : List Operation) → length (prune l now ops) ≡ length ops
unfolding prune
length-prune l now ops =
    let aged = update (is_stale l.retention_seconds now) forget_result ops in
    length-forget_all
      (over_budget l.max_retained_bytes 0 (by_updated (select (λ op. is_some op.result) aged))) aged
    ∙ length-update (is_stale l.retention_seconds now) forget_result ops

module _ (l : Limits) (c : Codec) (now : ℕ) where
  length-mark_unknown :
      (owner request_id : String) (ops : List Operation)
      → length (mark_unknown now owner request_id ops) ≡ length ops
  unfolding mark_unknown
  length-mark_unknown owner request_id ops =
      length-update (λ op. at owner request_id op && in_flight op.state)
        (λ op. record op { state = unknown; updated = now }) ops

  length-complete :
      (owner request_id : String) (value : Json) (ops : List Operation) {kept : Json}
      {after : List Operation}
      → complete l c now owner request_id value ops ≡ some (kept, after)
      → length after ≡ length ops
  unfolding complete settle
  length-complete owner request_id value ops {kept} {after} e =
      elim (Option-cases (stored_form l c value)) [
        | inl n ↦ let absurd : none ≡ some (kept, after) = rw n at e in cc
        | inr (form, f) ↦
            let both : some (form.0, settle l now owner request_id (final_phase value) form.1 ops)
                ≡ some (kept, after) =
              rw f at e in
            let same : settle l now owner request_id (final_phase value) form.1 ops ≡ after = cc in
            subst (λ t. length t ≡ length ops) same
              (let settles : Operation → Bool =
                  λ op. at owner request_id op && unsettled op.state in
                let write : Operation → Operation = λ op. record op {
                  state = final_phase value;
                  result = some form.1;
                  updated = now;
                } in
                length-prune l now (update settles write ops) ∙ length-update settles write ops)
      ]

  length-finished :
      (owner request_id : String) (value : Option Json) (ops : List Operation)
      → length (finished l c now owner request_id value ops) ≡ length ops
  unfolding finished
  length-finished owner request_id none ops = length-mark_unknown owner request_id ops
  length-finished owner request_id (some value) ops =
      elim (Option-cases (complete l c now owner request_id value ops)) [
        | inl n ↦ rw (n, finished) (length-mark_unknown owner request_id ops)
        | inr ((kept, after), e) ↦ rw (e, finished) (length-complete owner request_id value ops e)
      ]

  length-conclude :
      (q : Request) (value : Json) (ops : List Operation)
      → length (conclude l c now q value ops).1 ≡ length ops
  unfolding conclude
  length-conclude q value ops =
      elim (Option-cases (complete l c now q.owner q.request_id value ops)) [
        | inl n ↦ rw (n, conclude) (length-mark_unknown q.owner q.request_id ops)
        | inr ((kept, after), e) ↦
            rw (e, conclude) (length-complete q.owner q.request_id value ops e)
      ]

  length-dispatch :
      (q : Request) (execution : Execution) (ops : List Operation)
      → length (dispatch l c now q execution ops).1 ≡ length ops
  unfolding dispatch
  length-dispatch q (returned value) ops = length-conclude q value ops
  length-dispatch q raised ops = length-mark_unknown q.owner q.request_id ops
  length-dispatch q (future_returned value) ops =
      length-conclude q value (finished l c now q.owner q.request_id (some value) ops)
      ∙ length-finished q.owner q.request_id (some value) ops
  length-dispatch q future_raised ops =
      length-mark_unknown q.owner q.request_id (finished l c now q.owner q.request_id none ops)
      ∙ length-finished q.owner q.request_id none ops
  length-dispatch q future_pending ops = refl

length-make_room :
    (l : Limits) (owner : String) (closed : List String) (ops : List Operation)
    {roomy : List Operation}
    → make_room l owner closed ops ≡ some roomy
    → length roomy < l.max_records
unfolding make_room
length-make_room l owner closed ops {roomy} e = elim (Bool-cases (leb l.max_records (length ops))) [
  | inl t ↦ elim (Bool-cases (leb l.max_records (length (reclaim owner closed ops)))) [
    | inl u ↦ let absurd : none ≡ some roomy = rw (t, u) at e in cc
    | inr u ↦
        let both : some (reclaim owner closed ops) ≡ some roomy = rw (t, u) at e in
        let same : reclaim owner closed ops ≡ roomy = cc in
        subst (λ t. length t < l.max_records) same (leb→lt l.max_records _ u)
  ]
  | inr t ↦
      let both : some ops ≡ some roomy = rw t at e in
      let same : ops ≡ roomy = cc in
      subst (λ t. length t < l.max_records) same (leb→lt l.max_records (length ops) t)
]

bounded-reserve :
    (l : Limits) (c : Codec) (s : Setting) (q : Request) (ops : List Operation)
    → length ops ≤ l.max_records
    → length (reserve l c s q ops).table ≤ l.max_records
bounded-reserve l c s q ops h =
    reserve-cases l c s q ops (λ r. length r.table ≤ l.max_records) (λ f. h)
      (λ v. omega (arith, length-prune l s.now ops))
      (λ digest roomy _ room.
        omega
          (arith, length-append roomy (_ ∷ []), length-make_room l q.owner s.closed_owners _ room))

bounded-step :
    (l : Limits) (c : Codec) (e : Event) (ops : List Operation)
    → length ops ≤ l.max_records
    → length (step l c e ops) ≤ l.max_records
unfolding step status reopen
bounded-step l c (requests s q) ops h = bounded-reserve l c s q ops h
bounded-step l c (returns now q execution) ops h =
    omega (arith, length-dispatch l c now q execution ops)
bounded-step l c (future_done now o i value) ops h =
    omega (arith, length-finished l c now o i value ops)
bounded-step l c (asks now o i) ops h = omega (arith, length-prune l now ops)
bounded-step l c reopens ops h =
    omega
      (arith, length-update (λ op. in_flight op.state) (λ op. record op { state = unknown }) ops)

-- Whatever the events, a journal within max_records stays within it: run refuses a new request, or
-- reclaims the records of closed workflows first.
pub records_are_bounded :
    (l : Limits) (c : Codec) (es : List Event) (ops : List Operation)
    → length ops ≤ l.max_records
    → length (steps l c es ops) ≤ l.max_records
unfolding steps
records_are_bounded l c [] ops h = h
records_are_bounded l c (e ∷ es) ops h =
    records_are_bounded l c es (step l c e ops) (bounded-step l c e ops h)
