-- ===== src/Transfers/Calls.antt =====
-- personal_mcp/file_transfer.py: any sequence of calls of a manager, each in its own surroundings.
use unified_personal_mcp.Prelude.{Chain-keep, ℕ, ◌≤◌, String, List, [], ◌∷◌}
use unified_personal_mcp.Transfers.State.{Args, Limits, Manager}
use unified_personal_mcp.Transfers.Cache.{World}
use unified_personal_mcp.Transfers.Handle.{handle, close_owner, close}
use unified_personal_mcp.Transfers.Spec.{Aim, closing, Step}
use unified_personal_mcp.Transfers.Aims.{aim_of}
use unified_personal_mcp.Transfers.Handling.{handle_refines, close_owner-Steps, close-Steps}

pub data Call : Type 0 where
  handles : World → String → ℕ → Args → Call
  closes_owner : World → String → Call
  closes : World → Call

unfoldable pub perform : Limits → Call → Manager → Manager
unfolding handle close_owner close
perform l (handles w owner runtime args) m = (handle w l owner runtime args m).1
perform l (closes_owner w owner) m = (close_owner w owner m).1
perform l (closes w) m = (close w m).1

unfoldable pub calls : Limits → List Call → Manager → Manager
unfolding perform
calls l [] m = m
calls l (c ∷ cs) m = calls l cs (perform l c m)

-- What each step of Spec keeps, every sequence of calls keeps.
module _ {κ} (l : Limits) (blocks : 1 ≤ l.chunk_bytes) (P : Manager → Type κ)
    (keep : (w : World) (aim : Aim) (m n : Manager) → Step w l aim m n → P m → P n) where
  perform-keep : (c : Call) (m : Manager) → P m → P (perform l c m)
  unfolding perform
  perform-keep (handles w owner runtime args) m h =
      Chain-keep (Step w l (aim_of owner runtime args m)) P (keep w _) m _
        (handle_refines w l owner runtime args m blocks) h
  perform-keep (closes_owner w owner) m h =
      Chain-keep (Step w l closing) P (keep w closing) m _ (close_owner-Steps w l owner m) h
  perform-keep (closes w) m h =
      Chain-keep (Step w l closing) P (keep w closing) m _ (close-Steps w l m) h

  pub calls-keep : (cs : List Call) (m : Manager) → P m → P (calls l cs m)
  unfolding calls
  calls-keep [] m h = h
  calls-keep (c ∷ cs) m h = calls-keep cs (perform l c m) (perform-keep c m h)
