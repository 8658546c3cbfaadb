-- ===== src/Settings/Values.antt =====
-- The strings of the form: frontend/src/features/settings/values.ts, save-state.ts and the predicates of
-- presentation.ts. `undefined` is `none`.
use pixiv_biu.Base.{
  ℕ, zero, Bool, true, false, not, ◌||◌, Option, none, some, String, ℤ, pos, lt_int, ltb,
  if◌then◌else◌, ite, text_discrete, lookup,
}
use pixiv_biu.Settings.Json.{
  Number, whole, nan, Json, null, boolean, number, text, object, nested_get,
}
use pixiv_biu.Settings.Types.{CfgType, integer, FieldSpec, ConfigView, Platform}

abbrev pub is_advanced : FieldSpec → Bool
is_advanced field = field.advanced || field.internal

abbrev pub is_field_visible : FieldSpec → Bool → Bool
is_field_visible field show_advanced = show_advanced || not (is_advanced field)

pub data SettingsSaveState : Type 0 where
  save restart nothing : SettingsSaveState

unfoldable pub settings_save_state : ℕ → ℕ → SettingsSaveState
settings_save_state dirty_count pending_count =
    if ltb 0 dirty_count then save else if ltb 0 pending_count then restart else nothing

abbrev pub is_boolean : CfgType → Bool
is_boolean CfgType.boolean = true
is_boolean _ = false

abbrev pub is_integer : CfgType → Bool
is_integer integer = true
is_integer _ = false

-- `raw ? … : …`.
abbrev pub truthy : Json → Bool
truthy null = false
truthy (boolean b) = b
truthy (number (whole (pos zero))) = false
truthy (number nan) = false
truthy (number n) = true
truthy (text s) = not (ite (text_discrete s "") true false)
truthy (object fields) = true

abbrev pub bool_string : Bool → String
bool_string b = if b then "true" else "false"

pub data ClientValidationError : Type 0 where
  required not_integer : ClientValidationError
  below above : ℤ → ClientValidationError

abbrev pub check_max : Option ℤ → ℤ → Option ClientValidationError
check_max none n = none
check_max (some maximum) n = if lt_int maximum n then some (above maximum) else none

abbrev pub check_min : Option ℤ → Option ℤ → ℤ → Option ClientValidationError
check_min none maximum n = check_max maximum n
check_min (some minimum) maximum n =
    if lt_int n minimum then some (below minimum) else check_max maximum n

-- Only a whole number is finite and an integer.
abbrev pub check_number : FieldSpec → Number → Option ClientValidationError
check_number field (whole n) = check_min field.minimum field.maximum n
check_number field _ = some not_integer

abbrev pub is_true : Option Json → Bool
is_true (some (boolean true)) = true
is_true _ = false

abbrev pub is_env : Option String → Bool
is_env none = false
is_env (some source) = ite (text_discrete source "env") true false

abbrev pub or_default : Option Json → Option Json → Option Json
or_default none default_value = default_value
or_default (some value) default_value = some value

module _ (p : Platform) where
  -- `String(raw)`.
  abbrev pub to_string : Json → String
  to_string null = "null"
  to_string (boolean b) = bool_string b
  to_string (number n) = p.print n
  to_string (text s) = s
  to_string (object fields) = "[object Object]"

  -- The first `if` of `toFormString`.
  abbrev pub default_string : FieldSpec → Option Json → String
  default_string field none = if is_boolean field.kind then "false" else ""
  default_string field (some null) = if is_boolean field.kind then "false" else ""
  default_string field (some d) =
      if is_boolean field.kind then bool_string (is_true (some d)) else to_string d

  unfoldable pub to_form_string : FieldSpec → Option Json → String
  to_form_string field none = default_string field field.default_value
  to_form_string field (some null) = default_string field field.default_value
  to_form_string field (some raw) =
      if is_boolean field.kind then bool_string (truthy raw) else to_string raw

  unfoldable pub view_string : FieldSpec → Option ConfigView → String
  view_string field none = to_form_string field field.default_value
  view_string field (some view) =
      if is_env (lookup text_discrete field.key view.sources)
      then to_form_string field (nested_get (some view.effective) field.key)
      else to_form_string field
          (or_default (nested_get (some view.file) field.key) field.default_value)

  unfoldable pub baseline_string : FieldSpec → Option ConfigView → String
  unfolding view_string
  baseline_string field view = if field.sensitive then "" else view_string field view

  unfoldable pub to_patch_value : FieldSpec → String → Json
  to_patch_value field value =
      if is_boolean field.kind
      then boolean (ite (text_discrete value "true") true false)
      else if is_integer field.kind
      then number (p.to_number value)
      else text value

  unfoldable pub validate_client : FieldSpec → String → Option ClientValidationError
  validate_client field value =
      if is_integer field.kind
      then ite (text_discrete (p.trim value) "") (some required)
          (check_number field (p.to_number (p.trim value)))
      else none
