-- ===== src/Settings/Json.antt =====
-- JSON values and `nestedGet` of frontend/src/features/settings/flatten.ts. A configuration holds objects
-- and leaves, no arrays, and an object has only its own fields. Numbers that are not whole are told apart
-- by a number.
use Prim.Native.Char.{code}
use Prim.Native.String.{◌++◌ as str_append}
use pixiv_biu.Base.{
  ℕ, Bool, Option, none, some, List, [], ◌∷◌, String, ℤ, ◌==◌, if◌then◌else◌, ite, text_discrete,
}

pub data Number : Type 0 where
  whole : ℤ → Number
  fractional : ℕ → Number
  infinite nan : Number

mutual
  pub data Json : Type 0 where
    null : Json
    boolean : Bool → Json
    number : Number → Json
    text : String → Json
    object : Fields → Json

  pub data Fields : Type 0 where
    end : Fields
    field : String → Json → Fields → Fields

-- `(cur as Record<string, unknown>)[seg]`.
unfoldable pub get : String → Fields → Option Json
get seg end = none
get seg (field name value rest) = ite (text_discrete name seg) (some value) (get seg rest)

-- One round of the loop: what is missing, null or no object has no segments.
unfoldable pub step_into : String → Option Json → Option Json
step_into seg (some (object fields)) = get seg fields
step_into seg _ = none

unfoldable pub get_at : Option Json → List String → Option Json
unfolding step_into
get_at cur [] = cur
get_at cur (seg ∷ segs) = get_at (step_into seg cur) segs

abbrev pub cons_first : String → List String → List String
cons_first c [] = c ∷ []
cons_first c (seg ∷ segs) = str_append c seg ∷ segs

-- `dottedKey.split(".")`.
unfoldable pub split : String → List String
split String.[] = "" ∷ []
split (String.◌∷◌ c s) =
    let rest = split s in
    if code c == b'.' then "" ∷ rest else cons_first (String.◌∷◌ c String.[]) rest

unfoldable pub nested_get : Option Json → String → Option Json
unfolding split get_at
nested_get obj dotted_key = get_at obj (split dotted_key)
