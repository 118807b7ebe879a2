-- ===== src/Operations/Receipts.antt =====
-- personal_mcp/operations.py: how a recorded request changes, under every statement of the journal.
use unified_personal_mcp.Prelude.{
  ℕ, String, Bool, true, false, ◌&&◌, none, some, List, [], ◌∷◌, ◌≡◌, refl, ◌∙◌, subst, ◌⊎◌, inl,
  inr, arith, is_some, if◌then◌else◌, if-cases, Option-cases,
}
use unified_personal_mcp.Table.{select_one, update, select_one-update, select}
use unified_personal_mcp.Operations.Json.{Json}
use unified_personal_mcp.Operations.Journal.{
  Phase, dispatched, running, unknown, completed, failed, Operation, Limits, Codec, at, in_flight,
  unsettled, forget_result, is_stale, by_updated, over_budget, forget_all, prune, reopen,
  mark_unknown, settle, is_uncertain, is_failure, final_phase, complete, stored_form,
}

-- The states that a row goes on to: a completed or failed request stays so, one of unknown outcome is
-- never in flight again.
abbrev pub goes_to : Phase → Phase → Bool
goes_to dispatched _ = true
goes_to running dispatched = false
goes_to running _ = true
goes_to unknown dispatched = false
goes_to unknown running = false
goes_to unknown _ = true
goes_to completed completed = true
goes_to completed _ = false
goes_to failed failed = true
goes_to failed _ = false

-- A row at a later time: the request is the same, its state goes on, and the result of a completed or
-- failed one is the same or forgotten.
pub record Later (r s : Operation) : Type 0 where
  pub same_digest : s.digest ≡ r.digest
  pub same_name : s.name ≡ r.name
  pub onward : goes_to r.state s.state ≡ true
  pub final : unsettled r.state ≡ false → (s.result ≡ r.result) ⊎ (s.result ≡ none)

-- A request that is recorded stays recorded, by a later row.
unfoldable pub Keeps : String → String → List Operation → List Operation → Type 0
Keeps owner request_id ops ops' =
    (r : Operation)
    → select_one (at owner request_id) ops ≡ some r
    → (s : Operation) × (select_one (at owner request_id) ops' ≡ some s) × Later r s

goes_to_refl : (a : Phase) → goes_to a a ≡ true
goes_to_refl dispatched = refl
goes_to_refl running = refl
goes_to_refl unknown = refl
goes_to_refl completed = refl
goes_to_refl failed = refl

goes_to_trans : (a b c : Phase) → goes_to a b ≡ true → goes_to b c ≡ true → goes_to a c ≡ true
goes_to_trans dispatched b c h k = refl
goes_to_trans running b dispatched h k = ground arith
goes_to_trans running b running h k = refl
goes_to_trans running b unknown h k = refl
goes_to_trans running b completed h k = refl
goes_to_trans running b failed h k = refl
goes_to_trans unknown dispatched c h k = cc
goes_to_trans unknown running c h k = cc
goes_to_trans unknown unknown c h k = k
goes_to_trans unknown completed completed h k = refl
goes_to_trans unknown completed c h k = ground arith
goes_to_trans unknown failed failed h k = refl
goes_to_trans unknown failed c h k = ground arith
goes_to_trans completed completed c h k = k
goes_to_trans completed b c h k = ground arith
goes_to_trans failed failed c h k = k
goes_to_trans failed b c h k = ground arith

pub Later-refl : (r : Operation) → Later r r
Later-refl r = record {
  same_digest = refl;
  same_name = refl;
  onward = goes_to_refl r.state;
  final = λ _. inl refl;
}

settled_stays : (a b : Phase) → unsettled a ≡ false → goes_to a b ≡ true → unsettled b ≡ false
settled_stays completed completed h k = refl
settled_stays failed failed h k = refl
settled_stays a b h k = ground arith

pub Later-trans : (r s t : Operation) → Later r s → Later s t → Later r t
Later-trans r s t h k = record {
  same_digest = k.same_digest ∙ h.same_digest;
  same_name = k.same_name ∙ h.same_name;
  onward = goes_to_trans r.state s.state t.state h.onward k.onward;
  final = λ u. elim (k.final (settled_stays r.state s.state u h.onward)) [
    | inl e ↦ elim (h.final u) [ inl d ↦ inl (e ∙ d) | inr d ↦ inr (e ∙ d) ]
    | inr e ↦ inr e
  ];
}

module _ (owner request_id : String) where
  pub Keeps-refl : (ops : List Operation) → Keeps owner request_id ops ops
  unfolding Keeps
  Keeps-refl ops r e = (r, e, Later-refl r)

  pub Keeps-trans :
      (xs ys zs : List Operation)
      → Keeps owner request_id xs ys
      → Keeps owner request_id ys zs
      → Keeps owner request_id xs zs
  unfolding Keeps
  Keeps-trans xs ys zs h k r e =
      let (s, f, l) = h r e in let (t, g, m) = k s f in (t, g, Later-trans r s t l m)

  -- An `UPDATE` that leaves the key alone and takes each row on.
  pub Keeps-update :
      (q : Operation → Bool) (f : Operation → Operation) (ops : List Operation)
      → ((r : Operation) → at owner request_id (f r) ≡ at owner request_id r)
      → ((r : Operation) → q r ≡ true → Later r (f r))
      → Keeps owner request_id ops (update q f ops)
  unfolding Keeps
  Keeps-update q f ops same go r e = (
    if q r then f r else r,
    select_one-update (at owner request_id) q f ops same e,
    if-cases (λ s. Later r s) (q r) (λ h. go r h) (λ _. Later-refl r),
  )

  forget-Later : (r : Operation) → Later r (forget_result r)
  forget-Later r = record {
    same_digest = refl;
    same_name = refl;
    onward = goes_to_refl r.state;
    final = λ _. inr refl;
  }

  Keeps-forget_all : (fs ops : List Operation) → Keeps owner request_id ops (forget_all fs ops)
  unfolding forget_all
  Keeps-forget_all [] ops = Keeps-refl ops
  Keeps-forget_all (f ∷ fs) ops =
      let one = update (at f.owner f.request_id) forget_result ops in
      Keeps-trans ops one (forget_all fs one)
        (Keeps-update (at f.owner f.request_id) forget_result ops (λ r. refl)
          (λ r _. forget-Later r))
        (Keeps-forget_all fs one)

  pub Keeps-prune :
      (l : Limits) (now : ℕ) (ops : List Operation) → Keeps owner request_id ops (prune l now ops)
  unfolding prune
  Keeps-prune l now ops =
      let aged = update (is_stale l.retention_seconds now) forget_result ops in
      Keeps-trans ops aged (prune l now ops)
        (Keeps-update (is_stale l.retention_seconds now) forget_result ops (λ r. refl)
          (λ r _. forget-Later r))
        (Keeps-forget_all
          (over_budget l.max_retained_bytes 0 (by_updated (select (λ op. is_some op.result) aged)))
          aged)

  in_flight-ends : (a b : Phase) → in_flight a ≡ true → in_flight b ≡ false → goes_to a b ≡ true
  in_flight-ends dispatched b h k = refl
  in_flight-ends running running h k = cc
  in_flight-ends running dispatched h k = cc
  in_flight-ends running b h k = ground arith
  in_flight-ends a b h k = ground arith

  unsettled-ends : (a b : Phase) → unsettled a ≡ true → in_flight b ≡ false → goes_to a b ≡ true
  unsettled-ends a b h k = ground arith

  in_flight-unsettled : (a : Phase) → in_flight a ≡ true → unsettled a ≡ true
  in_flight-unsettled a h = ground arith

  -- Writing a state that is not in flight to a row that is not settled.
  written-Later :
      (r s : Operation)
      → s.digest ≡ r.digest
      → s.name ≡ r.name
      → unsettled r.state ≡ true
      → in_flight s.state ≡ false
      → Later r s
  written-Later r s d n u e = record {
    same_digest = d;
    same_name = n;
    onward = unsettled-ends r.state s.state u e;
    final = λ v. cc;
  }

  pub Keeps-mark_unknown :
      (now : ℕ) (o i : String) (ops : List Operation)
      → Keeps owner request_id ops (mark_unknown now o i ops)
  unfolding mark_unknown
  Keeps-mark_unknown now o i ops =
      Keeps-update _ _ ops (λ r. refl)
        (λ r h. written-Later r _ refl refl (in_flight-unsettled r.state (ground arith)) refl)

  pub Keeps-reopen : (ops : List Operation) → Keeps owner request_id ops (reopen ops)
  unfolding reopen
  Keeps-reopen ops =
      Keeps-update _ _ ops (λ r. refl)
        (λ r h. written-Later r _ refl refl (in_flight-unsettled r.state h) refl)

  -- The writes of `_complete`.
  Keeps-settle :
      (l : Limits) (now : ℕ) (o i : String) (phase : Phase) (encoded : String)
      (ops : List Operation)
      → in_flight phase ≡ false
      → Keeps owner request_id ops (settle l now o i phase encoded ops)
  unfolding settle
  Keeps-settle l now o i phase encoded ops h =
      let written =
        update (λ op. at o i op && unsettled op.state)
          (λ op. record op { state = phase; result = some encoded; updated = now }) ops in
      Keeps-trans ops written (prune l now written)
        (Keeps-update _ _ ops (λ r. refl) (λ r k. written-Later r _ refl refl (ground arith) h))
        (Keeps-prune l now written)

  final_phase_ends : (result : Json) → in_flight (final_phase result) ≡ false
  final_phase_ends result =
      if-cases (λ phase. in_flight phase ≡ false) (is_uncertain result) (λ _. refl)
        (λ _.
          if-cases (λ phase. in_flight phase ≡ false) (is_failure result) (λ _. refl) (λ _. refl))

  -- What `complete` commits, whatever it returns.
  pub Keeps-complete :
      (l : Limits) (c : Codec) (now : ℕ) (o i : String) (value : Json) (ops : List Operation)
      {kept : Json} {after : List Operation}
      → complete l c now o i value ops ≡ some (kept, after)
      → Keeps owner request_id ops after
  unfolding complete
  Keeps-complete l c now o i value ops {kept} {after} e =
      elim (Option-cases (stored_form l c value)) [
        | inl n ↦ let absurd : none ≡ some (kept, after) = rw n at e in cc
        | inr (form, f) ↦
            let both : some (form.0, settle l now o i (final_phase value) form.1 ops)
                ≡ some (kept, after) =
              rw f at e in
            let same : settle l now o i (final_phase value) form.1 ops ≡ after = cc in
            subst (λ t. Keeps owner request_id ops t) same
              (Keeps-settle l now o i (final_phase value) form.1 ops (final_phase_ends value))
      ]
