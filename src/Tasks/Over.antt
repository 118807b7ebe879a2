-- ===== src/Tasks/Over.antt =====
-- bf_automation/task_store.py: a task that is over stays over.
use unified_personal_mcp.Prelude.{
  ◌≡◌, refl, sym, ap, ◌∙◌, String, Bool, true, false, List, [], ◌∷◌, ◌++◌, ◌==◌, inl, inr, contains,
  discard, contains-discard, Bool-cases,
}
use unified_personal_mcp.Table.{select, delete}
use unified_personal_mcp.Table.Keys.{==→eq}
use unified_personal_mcp.Tasks.State.{Task}
use unified_personal_mcp.Tasks.End.{owned_by}
use unified_personal_mcp.Tasks.Claims.{is_active_task}
use unified_personal_mcp.Tasks.Spec.{
  Step, Core, wrote, begun, listed, dropped, fenced, unfenced, ended, released, deleted, claimed,
}
use unified_personal_mcp.Tasks.Exclusive.{inactive-write_task, inactive-wrote, inactive-begun}

module _ {ℓ} {A : Type ℓ} (p : A → Bool) where
  pub none-delete : (q : A → Bool) (rs : List A) → select p rs ≡ [] → select p (delete q rs) ≡ []
  none-delete q [] h = refl
  none-delete q (r ∷ rs) h = elim (Bool-cases (p r)) [
    | inl e ↦ let some_ : r ∷ select p rs ≡ [] = rw e at h in cc
    | inr e ↦
        let rest : select p rs ≡ [] = rw e at h in
        elim (Bool-cases (q r)) [
          | inl f ↦ rw f (none-delete q rs rest)
          | inr f ↦ rw (f, e) (none-delete q rs rest)
        ]
  ]

  pub none-append :
      (rs : List A) (r : A) → select p rs ≡ [] → p r ≡ false → select p (rs ++ r ∷ []) ≡ []
  none-append [] r h e = rw e refl
  none-append (q ∷ rs) r h e = elim (Bool-cases (p q)) [
    | inl f ↦ let some_ : q ∷ select p rs ≡ [] = rw f at h in cc
    | inr f ↦ let rest : select p rs ≡ [] = rw f at h in rw f (none-append rs r rest e)
  ]

  pub none_deleted : (rs : List A) → select p (delete p rs) ≡ []
  none_deleted [] = refl
  none_deleted (r ∷ rs) = elim (Bool-cases (p r)) [
    | inl e ↦ rw e (none_deleted rs)
    | inr e ↦ rw (e, e) (none_deleted rs)
  ]

-- A task that is over: it is not active, has no job, and no end of it goes on.
pub record Over (k : String) (m : Core) : Type 0 where
  pub inactive : is_active_task k m.tasks ≡ false
  pub no_jobs : select (owned_by k) m.jobs ≡ []
  pub not_ending : contains k m.ending ≡ false

module _ (k : String) where
  -- An active task is another one.
  other_key :
      (j : String) (ts : List Task)
      → is_active_task j ts ≡ true
      → is_active_task k ts ≡ false
      → (j == k) ≡ false
  other_key j ts e h = elim (Bool-cases (j == k)) [
    | inl g ↦
        let same : is_active_task j ts ≡ is_active_task k ts =
          ap (λ i. is_active_task i ts) (==→eq j k g) in
        let clash : false ≡ true = sym h ∙ sym same ∙ e in cc
    | inr g ↦ g
  ]

  contains-discard_not :
      (j : String) (ks : List String) → contains k ks ≡ false → contains k (discard j ks) ≡ false
  contains-discard_not j ks h = elim (Bool-cases (contains k (discard j ks))) [
    | inl e ↦ let there = contains-discard k j ks e in cc
    | inr e ↦ e
  ]

  pub Over-Step : (m n : Core) → Step true k m n → Over k m → Over k n
  Over-Step m n (wrote t e p) h = rw p (record {
    inactive = inactive-wrote k t m.tasks e h.inactive;
    no_jobs = h.no_jobs;
    not_ending = h.not_ending;
  })
  Over-Step m n (begun t e p) h = rw p (record {
    inactive = inactive-begun k t m.tasks e h.inactive;
    no_jobs = h.no_jobs;
    not_ending = h.not_ending;
  })
  Over-Step m n (listed j e p) h = rw p (record {
    inactive = h.inactive;
    no_jobs = none-append (owned_by k) m.jobs j h.no_jobs (other_key j.owner m.tasks e h.inactive);
    not_ending = h.not_ending;
  })
  Over-Step m n (dropped q p) h = rw p (record {
    inactive = h.inactive;
    no_jobs = none-delete (owned_by k) q m.jobs h.no_jobs;
    not_ending = h.not_ending;
  })
  Over-Step m n (fenced key e p) h =
      let apart = other_key key m.tasks e h.inactive in
      let rest = contains-discard_not key m.ending h.not_ending in
      rw p
        (record { inactive = h.inactive; no_jobs = h.no_jobs; not_ending = rw (apart, rest) refl })
  Over-Step m n (unfenced key p) h = rw p (record {
    inactive = h.inactive;
    no_jobs = h.no_jobs;
    not_ending = contains-discard_not key m.ending h.not_ending;
  })
  Over-Step m n (ended t e p) h = rw p (record {
    inactive = inactive-write_task k t m.tasks e h.inactive;
    no_jobs = h.no_jobs;
    not_ending = h.not_ending;
  })
  Over-Step m n (released t e p) h = rw p (record {
    inactive = inactive-write_task k t m.tasks e h.inactive;
    no_jobs = h.no_jobs;
    not_ending = h.not_ending;
  })
  Over-Step m n (deleted key may p) h =
      rw p (record { inactive = h.inactive; no_jobs = h.no_jobs; not_ending = h.not_ending })
  Over-Step m n (claimed now hwnd pid key e p) h =
      rw p (record { inactive = h.inactive; no_jobs = h.no_jobs; not_ending = h.not_ending })

  pub contains-discard_same : (ks : List String) → contains k (discard k ks) ≡ false
  contains-discard_same [] = refl
  contains-discard_same (j ∷ ks) = elim (Bool-cases (j == k)) [
    | inl e ↦ rw e (contains-discard_same ks)
    | inr e ↦ rw (e, e) (contains-discard_same ks)
  ]
