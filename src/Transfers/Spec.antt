-- ===== src/Transfers/Spec.antt =====
-- personal_mcp/file_transfer.py: what the manager does to its transfers and to the project, without its
-- cache, its checks of arguments and its failures.
use unified_personal_mcp.Prelude.{
  Chain, Chain-one, Chain-trans, ℕ, ◌⊎◌, ◌≤◌, ◌≡◌, String, true, none, some, [], ◌∷◌, ◌++◌, ◌==◌,
}
use unified_personal_mcp.Table.{select_one, update, delete}
use unified_personal_mcp.Transfers.State.{Committed, Transfer, Created, Limits, Manager}
use unified_personal_mcp.Transfers.Cache.{World, has_key, put_transfer, is_expired}
use unified_personal_mcp.Transfers.Upload.{is_created}
use unified_personal_mcp.Transfers.Steps.{HasRoom}

-- What a call is there for: to begin a transfer of this task and runtime, to write, commit or release this
-- transfer, to close, or only to look.
pub data Aim : Type 0 where
  beginning : String → ℕ → Aim
  writing : Transfer → Aim
  committing : Transfer → Aim
  releasing : Transfer → Aim
  closing : Aim
  looking : Aim

-- A transfer goes when it is as old as a transfer may get, or when the call is there to release it or to
-- close.
abbrev pub MayGo : World → Aim → Transfer → Type 0
MayGo w aim t = (is_expired w.now t ≡ true) ⊎ (aim ≡ releasing t) ⊎ (aim ≡ closing)

-- One step of a call. Only the aim of a call allows its steps: `created` links a file of the declared
-- digest to the path that the committed transfer has had from its beginning, where there is none; `began`
-- wants room.
pub data Step (w : World) (l : Limits) (aim : Aim) (m n : Manager) : Type 0 where
  same : n.transfers ≡ m.transfers → n.project ≡ m.project → Step w l aim m n
  dropped :
      (t : Transfer)
      → MayGo w aim t
      → n.transfers ≡ delete (has_key t.key) m.transfers
      → n.project ≡ m.project
      → Step w l aim m n
  advanced :
      (t : Transfer) (offset : ℕ)
      → aim ≡ writing t
      → select_one (has_key t.key) m.transfers ≡ some t
      → offset ≤ t.size
      → n.transfers ≡ update (has_key t.key) (λ u. record u { next_offset = offset }) m.transfers
      → n.project ≡ m.project
      → Step w l aim m n
  created :
      (t : Transfer) (f : Created)
      → aim ≡ committing t
      → select_one (has_key t.key) m.transfers ≡ some t
      → t.committed ≡ none
      → t.next_offset ≡ t.size
      → t.target ≡ some f.path
      → (w.codec.sha256 f.content == t.sha256) ≡ true
      → select_one (is_created f.path) m.project ≡ none
      → n.transfers ≡ m.transfers
      → n.project ≡ m.project ++ f ∷ []
      → Step w l aim m n
  recorded :
      (t : Transfer) (done : Committed)
      → aim ≡ committing t
      → n.transfers ≡ update (has_key t.key) (λ u. record u { committed = some done }) m.transfers
      → n.project ≡ m.project
      → Step w l aim m n
  began :
      (t : Transfer)
      → aim ≡ beginning t.owner t.runtime
      → HasRoom w l t.owner t.size m
      → t.committed ≡ none
      → t.next_offset ≡ 0
      → n.transfers ≡ put_transfer t m.transfers
      → n.project ≡ m.project
      → Step w l aim m n

-- Any number of steps.
abbrev pub Steps : World → Limits → Aim → Manager → Manager → Type 0
Steps w l aim m n = Chain (Step w l aim) m n

module _ (w : World) (l : Limits) (aim : Aim) where
  pub one_step : (m n : Manager) → Step w l aim m n → Steps w l aim m n
  one_step m n s = Chain-one (Step w l aim) m n s

  pub Steps-trans : (m k n : Manager) → Steps w l aim m k → Steps w l aim k n → Steps w l aim m n
  Steps-trans m k n p q = Chain-trans (Step w l aim) m k n p q
