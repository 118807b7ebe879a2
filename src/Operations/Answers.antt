-- ===== src/Operations/Answers.antt =====
-- personal_mcp/operations.py: the three ways in which the transaction of `run` ends.
use unified_personal_mcp.Prelude.{
  String, not, ◌||◌, none, some, List, [], ◌∷◌, ◌++◌, ◌==◌, ◌≡◌, inl, inr, count, leb, ltb,
  if-cases, Option-cases,
}
use unified_personal_mcp.Table.{select_one}
use unified_personal_mcp.Operations.Json.{Json}
use unified_personal_mcp.Operations.Journal.{
  Operation, Limits, Codec, at, in_flight, unsettled, prune,
}
use unified_personal_mcp.Operations.Run.{
  Request, Setting, Reservation, Failure, result, refuse, replay, make_room, new_operation,
  reserve_new, reserve_digest, reserve,
}

replay-cases {κ} :
    (c : Codec) (digest : String) (op : Operation) (ops pruned : List Operation)
    (P : Reservation → Type κ)
    → ((f : Failure) → P (refuse f ops))
    → ((v : Json) → P (record { answer = some (result v); table = pruned }))
    → P (replay c digest op ops pruned)
unfolding replay
replay-cases c digest op ops pruned P refused go_on =
    if-cases P (not (op.digest == digest)) (λ _. refused _)
      (λ _.
        if-cases P (in_flight op.state) (λ _. refused _)
          (λ _.
            if-cases P (unsettled op.state) (λ _. refused _)
              (λ _. elim (Option-cases op.result) [
                | inl e ↦ rw e (refused _)
                | inr (encoded, e) ↦ elim (Option-cases (c.loads encoded)) [
                  | inl f ↦ rw (e, f) (refused _)
                  | inr (v, f) ↦ rw (e, f) (go_on v)
                ]
              ])))

module _ (l : Limits) (c : Codec) (s : Setting) (q : Request) (ops : List Operation) where
  reserve_new-cases {κ} :
      (digest : String) (pruned : List Operation) (P : Reservation → Type κ)
      → ((f : Failure) → P (refuse f ops))
      → ((roomy : List Operation)
          → make_room l q.owner s.closed_owners pruned ≡ some roomy
          → P (record { answer = none; table = roomy ++ new_operation s.now q digest ∷ [] }))
      → P (reserve_new l s q digest ops pruned)
  unfolding reserve_new
  reserve_new-cases digest pruned P refused go_on =
      elim (Option-cases (make_room l q.owner s.closed_owners pruned)) [
        | inl e ↦ rw (e, reserve_new) (refused _)
        | inr (roomy, e) ↦
            rw (e, reserve_new)
              (if-cases P (not s.may_dispatch) (λ _. refused _) (λ _. go_on roomy e))
      ]

  -- The transaction refuses and leaves the table, or returns what was recorded and prunes, or finds no
  -- row, has room and inserts one: only then the callback is called.
  pub reserve-cases {κ} :
      (P : Reservation → Type κ)
      → ((f : Failure) → P (refuse f ops))
      → ((v : Json) → P (record { answer = some (result v); table = prune l s.now ops }))
      → ((digest : String) (roomy : List Operation)
          → select_one (at q.owner q.request_id) (prune l s.now ops) ≡ none
          → make_room l q.owner s.closed_owners (prune l s.now ops) ≡ some roomy
          → P (record { answer = none; table = roomy ++ new_operation s.now q digest ∷ [] }))
      → P (reserve l c s q ops)
  unfolding reserve reserve_digest
  reserve-cases P refused replayed granted =
      if-cases P (leb (count q.request_id) 0 || ltb 128 (count q.request_id)) (λ _. refused _)
        (λ _. elim (Option-cases (c.encode_request q.name q.arguments)) [
          | inl e ↦ rw e (refused _)
          | inr (encoded, e) ↦
              elim (Option-cases (select_one (at q.owner q.request_id) (prune l s.now ops))) [
                | inl n ↦ rw e (
                    rw (n, reserve_digest)
                      (reserve_new-cases (c.sha256 encoded) (prune l s.now ops) P refused
                        (λ roomy room. granted (c.sha256 encoded) roomy n room)))
                | inr (op, f) ↦ rw e (
                    rw (f, reserve_digest)
                      (replay-cases c (c.sha256 encoded) op ops (prune l s.now ops) P refused
                        replayed))
              ]
        ])
