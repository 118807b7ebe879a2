-- ===== src/Operations/Once.antt =====
-- personal_mcp/operations.py: a request is run at most once, and its outcome is kept.
use unified_personal_mcp.Prelude.{
  String, true, false, ◌&&◌, none, some, List, [], ◌∷◌, ◌==◌, ◌≡◌, refl, ◌∙◌, sym, ◌≤◌, arith, inl,
  inr, is_some, eq_iff, eq_refl, Bool-cases, All,
}
use unified_personal_mcp.Table.{select_one, select_one-append_any}
use unified_personal_mcp.Operations.Journal.{Operation, Limits, Codec, at, status}
use unified_personal_mcp.Operations.Run.{Request, Setting, new_operation, reserve}
use unified_personal_mcp.Operations.Receipts.{
  Later, Later-refl, Later-trans, Keeps, Keeps-prune, Keeps-reopen,
}
use unified_personal_mcp.Operations.Answers.{reserve-cases}
use unified_personal_mcp.Operations.Keeping.{Keeps-finished, Keeps-dispatch, Keeps-reserve}
use unified_personal_mcp.Operations.Events.{
  Event, requests, returns, future_done, asks, reopens, step, steps, executes, executions, spares,
}

module _ (l : Limits) (c : Codec) (s : Setting) (q : Request) (ops : List Operation) where
  recorded_answered :
      (r : Operation)
      → select_one (at q.owner q.request_id) ops ≡ some r
      → is_some (reserve l c s q ops).answer ≡ true
  unfolding Keeps
  recorded_answered r e =
      let (t, f, _) = Keeps-prune q.owner q.request_id l s.now ops r e in
      reserve-cases l c s q ops (λ res. is_some res.answer ≡ true) (λ f. refl) (λ v. refl)
        (λ digest roomy n room. let absurd : none ≡ some t = sym n ∙ f in cc)

  unanswered_recorded :
      is_some (reserve l c s q ops).answer ≡ false
      → (r : Operation) × (select_one (at q.owner q.request_id) (reserve l c s q ops).table
          ≡ some r)
  unfolding new_operation
  unanswered_recorded =
      reserve-cases l c s q ops
        (λ res.
          is_some res.answer ≡ false
          → (r : Operation) × (select_one (at q.owner q.request_id) res.table ≡ some r))
        (λ f e. cc) (λ v e. cc)
        (λ digest roomy n room e.
          select_one-append_any (at q.owner q.request_id) roomy (new_operation s.now q digest)
            (rw (eq_refl q.owner, eq_refl q.request_id) refl))

module _ (l : Limits) (c : Codec) (owner request_id : String) where
  Keeps-step :
      (e : Event) (ops : List Operation)
      → spares owner e ≡ true
      → Keeps owner request_id ops (step l c e ops)
  unfolding step status
  Keeps-step (requests s q) ops h = Keeps-reserve owner request_id l c s q ops h
  Keeps-step (returns now q execution) ops h =
      Keeps-dispatch owner request_id l c now q execution ops
  Keeps-step (future_done now o i value) ops h =
      Keeps-finished owner request_id l c now o i value ops
  Keeps-step (asks now o i) ops h = Keeps-prune owner request_id l now ops
  Keeps-step reopens ops h = Keeps-reopen owner request_id ops

  -- A request that is recorded once is recorded ever after, for the same arguments, while no other
  -- owner's request takes its owner for closed: its state goes on, a completed or failed one stays as
  -- it is, and its result is the same or forgotten.
  pub receipts_are_kept :
      (es : List Event) (ops : List Operation) (r : Operation)
      → All (λ e. spares owner e ≡ true) es
      → select_one (at owner request_id) ops ≡ some r
      → (s : Operation) × (select_one (at owner request_id) (steps l c es ops) ≡ some s) × Later r s
  unfolding steps Keeps
  receipts_are_kept [] ops r h e = (r, e, Later-refl r)
  receipts_are_kept (event ∷ es) ops r h e =
      let (s, f, first) = Keeps-step event ops h.0 r e in
      let (t, g, rest) = receipts_are_kept es (step l c event ops) s h.1 f in
      (t, g, Later-trans r s t first rest)

  -- A recorded request is not run.
  recorded_not_run :
      (e : Event) (ops : List Operation) (r : Operation)
      → select_one (at owner request_id) ops ≡ some r
      → executes l c owner request_id e ops ≡ false
  unfolding executes
  recorded_not_run (requests s q) ops r e =
      elim (Bool-cases (q.owner == owner && q.request_id == request_id)) [
        | inl same ↦
            let here : q.owner ≡ owner = (eq_iff q.owner owner).0 (ground arith) in
            let this : q.request_id ≡ request_id =
              (eq_iff q.request_id request_id).0 (ground arith) in
            let found : select_one (at q.owner q.request_id) ops ≡ some r = rw (here, this) e in
            rw (same, recorded_answered l c s q ops r found) refl
        | inr other ↦ rw other refl
      ]
  recorded_not_run (returns now q execution) ops r e = refl
  recorded_not_run (future_done now o i value) ops r e = refl
  recorded_not_run (asks now o i) ops r e = refl
  recorded_not_run reopens ops r e = refl

  -- A request that is run is recorded.
  run_is_recorded :
      (e : Event) (ops : List Operation)
      → executes l c owner request_id e ops ≡ true
      → (r : Operation) × (select_one (at owner request_id) (step l c e ops) ≡ some r)
  unfolding executes step
  run_is_recorded (requests s q) ops e =
      let here : q.owner ≡ owner = (eq_iff q.owner owner).0 (ground arith) in
      let this : q.request_id ≡ request_id = (eq_iff q.request_id request_id).0 (ground arith) in
      rw (← here, ← this) (unanswered_recorded l c s q ops (ground arith))
  run_is_recorded (returns now q execution) ops e = cc
  run_is_recorded (future_done now o i value) ops e = cc
  run_is_recorded (asks now o i) ops e = cc
  run_is_recorded reopens ops e = cc

  recorded_never_run :
      (es : List Event) (ops : List Operation) (r : Operation)
      → All (λ e. spares owner e ≡ true) es
      → select_one (at owner request_id) ops ≡ some r
      → executions l c owner request_id es ops ≡ 0
  unfolding executions Keeps
  recorded_never_run [] ops r h e = refl
  recorded_never_run (event ∷ es) ops r h e =
      let (s, f, _) = Keeps-step event ops h.0 r e in
      rw (recorded_not_run event ops r e)
        (omega (arith, recorded_never_run es (step l c event ops) s h.1 f))

  -- Whatever the events, from any journal: a request, told by its owner and its id, calls its callback
  -- at most once, while no other owner's request takes its owner for closed.
  pub run_at_most_once :
      (es : List Event) (ops : List Operation)
      → All (λ e. spares owner e ≡ true) es
      → executions l c owner request_id es ops ≤ 1
  unfolding executions
  run_at_most_once [] ops h = omega arith
  run_at_most_once (event ∷ es) ops h =
      elim (Bool-cases (executes l c owner request_id event ops)) [
        | inl e ↦
            let (r, f) = run_is_recorded event ops e in
            rw e (omega (arith, recorded_never_run es (step l c event ops) r h.1 f))
        | inr e ↦ rw e (omega (arith, run_at_most_once es (step l c event ops) h.1))
      ]
