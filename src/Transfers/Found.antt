-- ===== src/Transfers/Found.antt =====
-- personal_mcp/file_transfer.py: how `handle` comes to the transfer that a task asks for.
use unified_personal_mcp.Prelude.{
  ℕ, ◌≡◌, refl, sym, ap, subst, ◌∙◌, String, Bool, true, false, some, List, [], ◌∷◌, ◌==◌, eqb,
  eqb_refl, eq_refl, All, if◌then◌else◌,
}
use unified_personal_mcp.Table.{select_one}
use unified_personal_mcp.Transfers.State.{
  transfer_closed, invalid_argument, Result, ok, err, and_then, Transfer, Limits, Manager, given,
  Args, Reply,
}
use unified_personal_mcp.Transfers.Cache.{World, has_key, discard_all, is_expired, prune}
use unified_personal_mcp.Transfers.Handle.{find, requested, handle}

nothing_discarded :
    (w : World) (test : Transfer → Bool) (ts : List Transfer) (m : Manager)
    → All (λ t. test t ≡ false) ts
    → discard_all w test ts m ≡ (ok tt, m)
unfolding discard_all
nothing_discarded w test [] m h = refl
nothing_discarded w test (t ∷ ts) m h = rw (h.0, discard_all) (nothing_discarded w test ts m h.1)

-- While nothing has expired, an open manager goes on to the action.
pub handle-requested :
    (w : World) (l : Limits) (owner : String) (runtime : ℕ) (args : Args) (m : Manager)
    → m.closed ≡ false
    → (owner == "") ≡ false
    → All (λ t. is_expired w.now t ≡ false) m.transfers
    → handle w l owner runtime args m ≡ requested w l owner runtime args m
unfolding handle prune
handle-requested w l owner runtime args m is_open named fresh =
    let next : Unit {0} → Manager → Result Reply × Manager =
      λ _ after. requested w l owner runtime args after in
    let admitted : (if owner == "" then (err invalid_argument, m) else and_then (prune w m) next)
        ≡ requested w l owner runtime args m =
      rw named
        (ap (λ r. and_then r next) (nothing_discarded w (is_expired w.now) m.transfers m fresh)) in
    ap
      (λ b.
        if b
        then (err transfer_closed, m)
        else if owner == ""
        then (err invalid_argument, m)
        else and_then (prune w m) next)
      is_open
    ∙ admitted

-- The transfer of a task is found by its key.
pub find-owned :
    (owner : String) (runtime : ℕ) (t : Transfer) (m : Manager)
    → select_one (has_key t.key) m.transfers ≡ some t
    → t.owner ≡ owner
    → t.runtime ≡ runtime
    → find owner runtime (given t.key) m ≡ some t
find-owned owner runtime t m found owner_is runtime_is =
    let same_owner : (t.owner == owner) ≡ true =
      subst (λ o. (o == owner) ≡ true) (sym owner_is) (eq_refl owner) in
    let same_runtime : eqb t.runtime runtime ≡ true =
      subst (λ r. eqb r runtime ≡ true) (sym runtime_is) (eqb_refl runtime) in
    rw (found, find) (rw (same_owner, same_runtime) refl)
