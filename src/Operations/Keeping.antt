-- ===== src/Operations/Keeping.antt =====
-- personal_mcp/operations.py: what `run` and its callbacks do to the row of a recorded request.
use unified_personal_mcp.Prelude.{
  ℕ, String, true, false, not, ◌&&◌, ◌||◌, Option, none, some, List, [], ◌∷◌, ◌++◌, ◌==◌, ◌≡◌, ◌∙◌,
  subst, arith, inl, inr, contains, length, leb, eq_iff, eq_refl, Option-cases, Bool-cases,
}
use unified_personal_mcp.Table.{select_one-delete, select_one-append}
use unified_personal_mcp.Operations.Json.{Json}
use unified_personal_mcp.Operations.Journal.{
  Operation, Limits, Codec, at, prune, mark_unknown, complete, finished,
}
use unified_personal_mcp.Operations.Run.{
  Request, Execution, returned, raised, future_returned, future_raised, future_pending, Setting,
  conclude, dispatch, reclaim, make_room, new_operation, reserve,
}
use unified_personal_mcp.Operations.Receipts.{
  Later-refl, Keeps, Keeps-refl, Keeps-trans, Keeps-prune, Keeps-mark_unknown, Keeps-complete,
}
use unified_personal_mcp.Operations.Answers.{reserve-cases}

module _ (owner request_id : String) (l : Limits) (c : Codec) where
  pub Keeps-finished :
      (now : ℕ) (o i : String) (value : Option Json) (ops : List Operation)
      → Keeps owner request_id ops (finished l c now o i value ops)
  unfolding finished
  Keeps-finished now o i none ops = Keeps-mark_unknown owner request_id now o i ops
  Keeps-finished now o i (some value) ops = elim (Option-cases (complete l c now o i value ops)) [
    | inl n ↦ rw (n, finished) (Keeps-mark_unknown owner request_id now o i ops)
    | inr ((kept, after), e) ↦
        rw (e, finished) (Keeps-complete owner request_id l c now o i value ops e)
  ]

  Keeps-conclude :
      (now : ℕ) (q : Request) (value : Json) (ops : List Operation)
      → Keeps owner request_id ops (conclude l c now q value ops).1
  unfolding conclude
  Keeps-conclude now q value ops =
      elim (Option-cases (complete l c now q.owner q.request_id value ops)) [
        | inl n ↦
            rw (n, conclude) (Keeps-mark_unknown owner request_id now q.owner q.request_id ops)
        | inr ((kept, after), e) ↦
            rw (e, conclude)
              (Keeps-complete owner request_id l c now q.owner q.request_id value ops e)
      ]

  pub Keeps-dispatch :
      (now : ℕ) (q : Request) (execution : Execution) (ops : List Operation)
      → Keeps owner request_id ops (dispatch l c now q execution ops).1
  unfolding dispatch
  Keeps-dispatch now q (returned value) ops = Keeps-conclude now q value ops
  Keeps-dispatch now q raised ops = Keeps-mark_unknown owner request_id now q.owner q.request_id ops
  Keeps-dispatch now q (future_returned value) ops =
      let done = finished l c now q.owner q.request_id (some value) ops in
      Keeps-trans owner request_id ops done (conclude l c now q value done).1
        (Keeps-finished now q.owner q.request_id (some value) ops) (Keeps-conclude now q value done)
  Keeps-dispatch now q future_raised ops =
      let done = finished l c now q.owner q.request_id none ops in
      Keeps-trans owner request_id ops done (mark_unknown now q.owner q.request_id done)
        (Keeps-finished now q.owner q.request_id none ops)
        (Keeps-mark_unknown owner request_id now q.owner q.request_id done)
  Keeps-dispatch now q future_pending ops = Keeps-refl owner request_id ops

  spared :
      (o k : String) (closed : List String)
      → (o == owner || not (contains owner closed)) ≡ true
      → (k == owner) ≡ true
      → (contains k closed && not (k == o)) ≡ false
  spared o k closed h p =
      let same : k ≡ owner = (eq_iff k owner).0 p in
      rw same (elim (Bool-cases (o == owner)) [
        | inl t ↦
            let mine : o ≡ owner = (eq_iff o owner).0 t in rw (mine, eq_refl owner) (ground arith)
        | inr f ↦ ground arith
      ])

  -- A caller's reclaim leaves its own rows, and those of owners that are not closed.
  Keeps-reclaim :
      (o : String) (closed : List String) (ops : List Operation)
      → (o == owner || not (contains owner closed)) ≡ true
      → Keeps owner request_id ops (reclaim o closed ops)
  unfolding Keeps reclaim
  Keeps-reclaim o closed ops h r e = (
    r,
    select_one-delete (at owner request_id) _ ops (λ s p. spared o s.owner closed h (ground arith))
        ∙ e,
    Later-refl r,
  )

  Keeps-make_room :
      (o : String) (closed : List String) (ops : List Operation) {roomy : List Operation}
      → (o == owner || not (contains owner closed)) ≡ true
      → make_room l o closed ops ≡ some roomy
      → Keeps owner request_id ops roomy
  unfolding make_room
  Keeps-make_room o closed ops {roomy} h e = elim (Bool-cases (leb l.max_records (length ops))) [
    | inl t ↦ elim (Bool-cases (leb l.max_records (length (reclaim o closed ops)))) [
      | inl u ↦ let absurd : none ≡ some roomy = rw (t, u) at e in cc
      | inr u ↦
          let both : some (reclaim o closed ops) ≡ some roomy = rw (t, u) at e in
          let same : reclaim o closed ops ≡ roomy = cc in
          subst (λ t. Keeps owner request_id ops t) same (Keeps-reclaim o closed ops h)
    ]
    | inr t ↦
        let both : some ops ≡ some roomy = rw t at e in
        let same : ops ≡ roomy = cc in
        subst (λ t. Keeps owner request_id ops t) same (Keeps-refl owner request_id ops)
  ]

  Keeps-insert :
      (ops : List Operation) (new : Operation) → Keeps owner request_id ops (ops ++ new ∷ [])
  unfolding Keeps
  Keeps-insert ops new r e = (r, select_one-append (at owner request_id) ops new r e, Later-refl r)

  -- A recorded request is answered from its row, and its row stays.
  pub Keeps-reserve :
      (s : Setting) (q : Request) (ops : List Operation)
      → (q.owner == owner || not (contains owner s.closed_owners)) ≡ true
      → Keeps owner request_id ops (reserve l c s q ops).table
  Keeps-reserve s q ops h =
      let pruned = Keeps-prune owner request_id l s.now ops in
      reserve-cases l c s q ops (λ r. Keeps owner request_id ops r.table)
        (λ f. Keeps-refl owner request_id ops) (λ v. pruned)
        (λ digest roomy none_there room.
          Keeps-trans owner request_id ops (prune l s.now ops) _ pruned (
            Keeps-trans owner request_id (prune l s.now ops) roomy _
              (Keeps-make_room q.owner s.closed_owners (prune l s.now ops) h room)
              (Keeps-insert roomy (new_operation s.now q digest))))
