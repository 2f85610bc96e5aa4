-- ===== src/Agents/Json.antt =====
-- JSON values as `json.loads` reads them, and what Python does with them.

use Prim.Native.String.{◌++◌}
use code_explorer.Base.{
  String, Bool, true, false, not, Option, none, some, List, [], ◌∷◌, ◌==◌, if◌then◌else◌,
}

-- A number is known by its text.
mutual
  pub data Json : Type 0 where
    null : Json
    boolean : Bool → Json
    number : String → Json
    string : String → Json
    array : Items → Json
    object : Members → Json

  pub data Items : Type 0 where
    end : Items
    item : Json → Items → Items

  pub data Members : Type 0 where
    closed : Members
    member : String → Json → Members → Members

-- What the code relies on of Python: `json.loads`, `json.dumps` and `str`, and whether a number is
-- not zero.
pub record Python : Type 0 where
  pub loads : String → Option Json
  pub dumps : Json → String
  pub str : Json → String
  pub is_nonzero : String → Bool

abbrev pub to_list : Items → List Json
to_list end = []
to_list (item x xs) = x ∷ to_list xs

-- `value.get(key)`
abbrev pub member_of : String → Members → Option Json
member_of key closed = none
member_of key (member k v ms) = let rest = member_of key ms in if k == key then some v else rest

abbrev pub object_of : Json → Option Members
object_of (object ms) = some ms
object_of _ = none

abbrev pub is_object : Json → Bool
is_object (object _) = true
is_object _ = false

-- `bool(value)`
abbrev pub truthy : Python → Json → Bool
truthy py null = false
truthy py (boolean b) = b
truthy py (number n) = py.is_nonzero n
truthy py (string s) = not (s == "")
truthy py (array end) = false
truthy py (array (item _ _)) = true
truthy py (object closed) = false
truthy py (object (member _ _ _)) = true

abbrev pub truthy_option : Python → Option Json → Bool
truthy_option py none = false
truthy_option py (some v) = truthy py v

-- `bool(value.get(key))`
abbrev pub has : Python → String → Members → Bool
has py key ms = truthy_option py (member_of key ms)

-- `value.get(key, default)` in an f-string, where the default is a number.
abbrev pub shown : Python → String → Option Json → String
shown py default none = default
shown py default (some v) = py.str v

-- `f'{path}:{first}-{last}'`
abbrev pub scope_name : String → String → String → String
scope_name path first last = path ++ ":" ++ first ++ "-" ++ last
