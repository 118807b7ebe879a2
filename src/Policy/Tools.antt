-- ===== src/Policy/Tools.antt =====
-- personal_mcp/tool_policy.py: the sets of tools, `reviewed_effects` and `requires_workflow_write`.
use unified_personal_mcp.Prelude.{
  String, Bool, not, ◌&&◌, Option, none, some, List, [], ◌∷◌, ◌++◌, map, ◌==◌, contains,
  if◌then◌else◌,
}

-- The keys and the values of the mapping.
abbrev pub workflow_actions : List (String × String)
workflow_actions =
    ("workflow_begin", "begin")
    ∷ ("workflow_activate", "activate")
    ∷ ("workflow_resume", "resume")
    ∷ ("workflow_end", "end")
    ∷ ("workflow_release_idle", "release_idle")
    ∷ []

abbrev pub read_only_descriptors : List String
read_only_descriptors =
    "server_info" ∷ "check_exec_environment" ∷ "read_file" ∷ "list_dir" ∷ "list_files"
    ∷ "search_text" ∷ "read_output" ∷ "git_status" ∷ "git_diff" ∷ "git_log" ∷ "git_show"
    ∷ "git_blame" ∷ "request_permissions" ∷ "view_image" ∷ "DisplayInventory" ∷ "Screenshot"
    ∷ "Snapshot" ∷ "Wait" ∷ "WaitFor" ∷ "WindowInventory" ∷ "WindowScreenshot" ∷ "WindowSnapshot"
    ∷ "BrowserWaitFor" ∷ "BrowserSnapshot" ∷ "BrowserScreenshot" ∷ "BrowserActionStatus"
    ∷ "workflow_list" ∷ "workflow_status" ∷ "OperationStatus" ∷ "command_status" ∷ "DesktopView"
    ∷ "DesktopStatus" ∷ []

abbrev pub key_of : String × String → String
key_of (k, v) = k

abbrev pub write_descriptors : List String
write_descriptors =
    ("apply_patch" ∷ "exec_command" ∷ "write_stdin" ∷ "kill_command" ∷ "App" ∷ "Click" ∷ "Clipboard"
      ∷ "Move" ∷ "Notification" ∷ "Scroll" ∷ "Shortcut" ∷ "Type" ∷ "prepare_browser_session"
      ∷ "WindowControl" ∷ "LaunchApplication" ∷ "BrowserAction" ∷ "BrowserUpload"
      ∷ "BrowserDownload" ∷ "BrowserSession" ∷ "BrowserPages" ∷ "BrowserNavigate" ∷ "UnifiedTask"
      ∷ "SearchSession" ∷ "DesktopConsole" ∷ "DesktopAction" ∷ "DesktopFiles" ∷ [])
    ++ map key_of workflow_actions

abbrev pub known_tools : List String
known_tools = read_only_descriptors ++ write_descriptors

abbrev pub unbounded_file_tools : List String
unbounded_file_tools =
    "read_file" ∷ "list_dir" ∷ "list_files" ∷ "search_text" ∷ "apply_patch" ∷ "view_image" ∷ []

pub data Hint : Type 0 where
  destructive_hint open_world_hint : Hint

-- `reviewed_effects`: the hints that are set to true.
unfoldable pub reviewed_effects : String → Bool → List Hint
reviewed_effects name full_control =
    if name == "write_stdin"
    then destructive_hint ∷ open_world_hint ∷ []
    else if name == "Clipboard"
    then destructive_hint ∷ []
    else if full_control && contains name unbounded_file_tools
    then open_world_hint ∷ []
    else []

-- `requires_workflow_write`; `none` if it raises TOOL_POLICY_UNKNOWN.
unfoldable pub requires_workflow_write : String → Option Bool
requires_workflow_write name =
    if not (contains name known_tools)
    then none
    else some (contains name write_descriptors && not (name == "SearchSession"))
