-- ===== src/Prompts/Json.antt =====
-- JSON as `encoding/json` decodes it into `any`. A number is a natural below 2 ^ 64, or `none` of them;
-- an object has its members in order, and a later one of the same name counts.
use codex_web.Common.{String, ℕ, Bool, Option, none, some, List, [], ◌∷◌, ◌==◌, if◌then◌else◌}

mutual
  pub data Json : Type 0 where
    null : Json
    bool : Bool → Json
    num : Option ℕ → Json
    str : String → Json
    arr : Items → Json
    obj : Members → Json

  pub data Items : Type 0 where
    nil : Items
    cons : Json → Items → Items

  pub data Members : Type 0 where
    end : Members
    member : String → Json → Members → Members

-- `value, ok := m[k]`
unfoldable pub field : String → Members → Option Json
field k end = none
field k (member j value rest) = elim (field k rest) [
  | some later ↦ some later
  | none ↦ if j == k then some value else none
]

unfoldable pub elements : Items → List Json
elements nil = []
elements (cons value rest) = value ∷ elements rest

-- `value.(string)`
unfoldable pub as_string : Json → Option String
as_string (str s) = some s
as_string _ = none

-- `stringValue(m[k])`: "" where the member is not there or not a text
unfoldable pub string_at : String → Members → String
unfolding field as_string
string_at k m = elim (field k m) [ some (str s) ↦ s | _ ↦ "" ]

-- `m[k].(bool)`, false where it is none
unfoldable pub bool_at : String → Members → Bool
unfolding field
bool_at k m = elim (field k m) [ some (bool b) ↦ b | _ ↦ Bool.false ]
