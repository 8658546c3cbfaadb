-- ===== src/Settings/Types.antt =====
-- The settings that the form shows, and what the core answers (frontend/src/features/settings/types.ts and
-- the schema's ConfigView and Error). `default` is undefined as `none`. Bounds and orders are whole.
use pixiv_biu.Base.{ℕ, Bool, Option, List, String, ℤ}
use pixiv_biu.Settings.Json.{Json, Number}

-- The code casts: a type that is none of the three is `other`.
pub data CfgType : Type 0 where
  string integer boolean other : CfgType

pub data ControlKind : Type 0 where
  text number switch select duration textarea password template proxy : ControlKind

pub record FieldSpec : Type 0 where
  pub key : String
  pub category : String
  pub kind : CfgType
  pub control : ControlKind
  pub default_value : Option Json
  pub options : Option (List String)
  pub minimum : Option ℤ
  pub maximum : Option ℤ
  pub is_duration : Bool
  pub sensitive : Bool
  pub restart_required : Bool
  pub advanced : Bool
  pub internal : Bool
  pub order : ℕ

pub record ConfigView : Type 0 where
  pub sources : List (String × String)
  pub effective : Json
  pub file : Json
  pub pending_restart : List String

-- `detail` stands for the rest of the error, from which a message is chosen.
pub record ConfigApiError : Type 0 where
  pub fields : Option (List (String × String))
  pub detail : ℕ

-- What JavaScript gives: `trim`, `Number`, `String` of a number, and `JSON.stringify` of a view.
pub record Platform : Type 0 where
  pub trim : String → String
  pub to_number : String → Number
  pub print : Number → String
  pub stringify : ConfigView → String
