-- ===== src/Transfers/Quotas.antt =====
-- personal_mcp/file_transfer.py: the limits of transfers.
use unified_personal_mcp.Prelude.{
  ℕ, ◌≤◌, ◌<◌, subst, ◌≡◌, refl, String, Bool, true, false, some, List, [], ◌∷◌, ◌==◌, arith,
  eq_iff, All, All-append, length, sum_by,
}
use unified_personal_mcp.Table.{select, update, delete, All-update, All-delete}
use unified_personal_mcp.Table.Counts.{
  length-select-delete, length-select-update, length-select-append, sum_by-delete, sum_by-update,
  sum_by-append,
}
use unified_personal_mcp.Transfers.State.{Transfer, Limits, Manager}
use unified_personal_mcp.Transfers.Cache.{World, has_key, put_transfer, construct}
use unified_personal_mcp.Transfers.Steps.{HasRoom, construct-Same}
use unified_personal_mcp.Transfers.Spec.{
  Aim, Step, same, dropped, advanced, created, recorded, began,
}
use unified_personal_mcp.Transfers.Calls.{Call, calls, calls-keep}

abbrev pub of_owner : String → Transfer → Bool
of_owner owner t = t.owner == owner

abbrev pub size_of : Transfer → ℕ
size_of t = t.size

-- No task has more than two transfers, no transfer is too large, nor are all of them together.
pub record WithinQuotas (l : Limits) (ts : List Transfer) : Type 0 where
  pub by_owner : (owner : String) → length (select (of_owner owner) ts) ≤ 2
  pub total : sum_by size_of ts ≤ l.max_total_bytes
  pub each : All (λ t. t.size ≤ l.max_file_bytes) ts

module _ (l : Limits) where
  WithinQuotas-delete :
      (q : Transfer → Bool) (ts : List Transfer) → WithinQuotas l ts → WithinQuotas l (delete q ts)
  WithinQuotas-delete q ts h = record {
    by_owner = λ owner. omega (arith, length-select-delete (of_owner owner) q ts, h.by_owner owner);
    total = omega (arith, sum_by-delete size_of q ts, h.total);
    each = All-delete q (λ t. t.size ≤ l.max_file_bytes) ts h.each;
  }

  WithinQuotas-update :
      (q : Transfer → Bool) (f : Transfer → Transfer) (ts : List Transfer)
      → ((t : Transfer) → (f t).owner ≡ t.owner)
      → ((t : Transfer) → (f t).size ≡ t.size)
      → WithinQuotas l ts
      → WithinQuotas l (update q f ts)
  WithinQuotas-update q f ts owners sizes h = record {
    by_owner = λ owner. omega (
      arith,
      length-select-update (of_owner owner) q f ts (λ t. rw owners refl),
      h.by_owner owner,
    );
    total = omega (arith, sum_by-update size_of q f ts sizes, h.total);
    each = All-update q (λ t. t.size ≤ l.max_file_bytes) f ts (λ t _ k. rw sizes k) h.each;
  }

  room_for_owner :
      (w : World) (t : Transfer) (m : Manager)
      → HasRoom w l t.owner t.size m
      → WithinQuotas l m.transfers
      → (owner : String) (same : Bool) → (t.owner == owner) ≡ same
      → length (select (of_owner owner) (put_transfer t m.transfers)) ≤ 2
  room_for_owner w t m room h owner true e =
      let few =
        subst (λ o. length (select (of_owner o) m.transfers) < 2) ((eq_iff t.owner owner).0 e)
          room.1 in
      rw length-select-append (
        rw e
          (omega (arith, few, length-select-delete (of_owner owner) (has_key t.key) m.transfers)))
  room_for_owner w t m room h owner false e = rw length-select-append (
      rw e (
        omega (
          arith,
          h.by_owner owner,
          length-select-delete (of_owner owner) (has_key t.key) m.transfers,
        )))

  WithinQuotas-put :
      (w : World) (t : Transfer) (m : Manager)
      → HasRoom w l t.owner t.size m
      → WithinQuotas l m.transfers
      → WithinQuotas l (put_transfer t m.transfers)
  WithinQuotas-put w t m room h =
      let left = delete (has_key t.key) m.transfers in
      let kept = WithinQuotas-delete (has_key t.key) m.transfers h in
      record {
        by_owner = λ owner. room_for_owner w t m room h owner (t.owner == owner) refl;
        total = omega (
          arith,
          sum_by-append size_of left t,
          sum_by-delete size_of (has_key t.key) m.transfers,
          room.2,
        );
        each = All-append _ left (t ∷ []) kept.each (room.0, tt);
      }

  WithinQuotas-Step :
      (w : World) (aim : Aim) (m n : Manager)
      → Step w l aim m n
      → WithinQuotas l m.transfers
      → WithinQuotas l n.transfers
  WithinQuotas-Step w aim m n (same e p) h = rw e h
  WithinQuotas-Step w aim m n (dropped t may e p) h =
      rw e (WithinQuotas-delete (has_key t.key) m.transfers h)
  WithinQuotas-Step w aim m n (advanced t offset j f b e p) h = rw e (
      WithinQuotas-update (has_key t.key) (λ u. record u { next_offset = offset }) m.transfers
        (λ u. refl) (λ u. refl) h)
  WithinQuotas-Step w aim m n (created t f k a b c d g i e p) h = rw e h
  WithinQuotas-Step w aim m n (recorded t finished k e p) h = rw e (
      WithinQuotas-update (has_key t.key) (λ u. record u { committed = some finished }) m.transfers
        (λ u. refl) (λ u. refl) h)
  WithinQuotas-Step w aim m n (began t k room a b e p) h = rw e (WithinQuotas-put w t m room h)

  -- From a new manager, whatever is called, with blocks of at least one byte: no task has more than two
  -- transfers, no transfer is larger than max_file_bytes, and together they are no larger than
  -- max_total_bytes.
  pub quotas_hold :
      (w : World) (cs : List Call)
      → 1 ≤ l.chunk_bytes
      → WithinQuotas l (calls l cs (construct w).1).transfers
  quotas_hold w cs blocks =
      calls-keep l blocks (λ m. WithinQuotas l m.transfers) WithinQuotas-Step cs (construct w).1
        (rw (construct-Same w).0
          (record { by_owner = λ owner. omega arith; total = omega arith; each = tt }))
