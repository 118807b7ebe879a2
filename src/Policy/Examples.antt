-- ===== src/Policy/Examples.antt =====
-- The dispatch policy at some tools.
use unified_personal_mcp.Prelude.{true, some, ◌≡◌, refl}
use unified_personal_mcp.Policy.Tools.{requires_workflow_write, reviewed_effects, open_world_hint}
use mathlib.Core.List.{[], ◌∷◌}

patches_need_the_lease : requires_workflow_write "apply_patch" ≡ some true
unfolding requires_workflow_write
patches_need_the_lease = refl

full_control_reads : reviewed_effects "read_file" true ≡ open_world_hint ∷ []
unfolding reviewed_effects
full_control_reads = refl
