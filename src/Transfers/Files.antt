-- ===== src/Transfers/Files.antt =====
-- personal_mcp/file_transfer.py: the files that uploads create.
use unified_personal_mcp.Prelude.{◌≤◌, ◌≡◌, String, some, List}
use unified_personal_mcp.Table.{select_one, select_one-append}
use unified_personal_mcp.Transfers.State.{Created, Limits, Manager}
use unified_personal_mcp.Transfers.Cache.{World}
use unified_personal_mcp.Transfers.Upload.{is_created}
use unified_personal_mcp.Transfers.Spec.{
  Aim, Step, same, dropped, advanced, created, recorded, began,
}
use unified_personal_mcp.Transfers.Calls.{Call, calls, calls-keep}

module _ (l : Limits) (path : String) (f : Created) where
  kept-Step :
      (w : World) (aim : Aim) (m n : Manager)
      → Step w l aim m n
      → select_one (is_created path) m.project ≡ some f
      → select_one (is_created path) n.project ≡ some f
  kept-Step w aim m n (same e p) h = rw p h
  kept-Step w aim m n (dropped t may e p) h = rw p h
  kept-Step w aim m n (advanced t offset j a b e p) h = rw p h
  kept-Step w aim m n (created t g k a b c d i j e p) h =
      rw p (select_one-append (is_created path) m.project g f h)
  kept-Step w aim m n (recorded t finished k e p) h = rw p h
  kept-Step w aim m n (began t k room a b e p) h = rw p h

  -- Whatever is called after, with blocks of at least one byte: a file that an upload has created is still
  -- there under its path, with the same content.
  pub uploads_never_overwrite :
      (cs : List Call) (m : Manager)
      → 1 ≤ l.chunk_bytes
      → select_one (is_created path) m.project ≡ some f
      → select_one (is_created path) (calls l cs m).project ≡ some f
  uploads_never_overwrite cs m blocks h =
      calls-keep l blocks (λ n. select_one (is_created path) n.project ≡ some f) kept-Step cs m h
