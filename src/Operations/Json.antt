-- ===== src/Operations/Json.antt =====
-- JSON values as the journal reads them: Python dicts, lists and scalars. Numbers are kept as their
-- text, which the journal never looks into. Encoding is the standard library's and is a parameter.
use unified_personal_mcp.Prelude.{
  String, Bool, true, false, Option, none, some, ◌==◌, if◌then◌else◌,
}

mutual
  pub data Json : Type 0 where
    null : Json
    boolean : Bool → Json
    number : String → Json
    text : String → Json
    array : Items → Json
    object : Members → Json

  pub data Items : Type 0 where
    nil : Items
    cons : Json → Items → Items

  pub data Members : Type 0 where
    end : Members
    member : String → Json → Members → Members

-- `d.get(key)`
abbrev pub get : String → Members → Option Json
get key end = none
get key (member k v ms) = if k == key then some v else get key ms

-- `result.get(key)` of a value that is a dict, `none` if it is no dict or lacks the key
abbrev pub field : String → Json → Option Json
field key (object ms) = get key ms
field key _ = none

abbrev pub is_object : Json → Bool
is_object (object ms) = true
is_object _ = false

-- `value is True`
abbrev pub is_true : Option Json → Bool
is_true (some (boolean b)) = b
is_true _ = false

-- `value is False`
abbrev pub is_false : Option Json → Bool
is_false (some (boolean true)) = false
is_false (some (boolean false)) = true
is_false _ = false

-- `value == 'unknown'` and the like
abbrev pub is_text : String → Option Json → Bool
is_text s (some (text t)) = t == s
is_text s _ = false
