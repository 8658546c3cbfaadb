-- ===== src/Settings/Form.antt =====
-- The state of frontend/src/features/settings/use-config-form.ts with the view of use-config.ts. Views and
-- lists of fields are told apart by numbers, as the effect compares them by identity; `baselineRef` holds
-- what `baseline` does. `sent` has the requests made. Where the language of the page is set is left out.
use Prim.Native.String.{◌++◌ as str_append}
use pixiv_biu.Base.{
  ℕ, Bool, true, false, not, ◌&&◌, Option, none, some, List, [], ◌∷◌, ◌++◌, String, if◌then◌else◌,
  ite, text_discrete, lookup, insert, remove, includes, delete, get_or, is_some, map, filter,
}
use pixiv_biu.Settings.Json.{Json, nested_get}
use pixiv_biu.Settings.Types.{FieldSpec, ConfigView, ConfigApiError}
use pixiv_biu.Settings.Values.{ClientValidationError}

-- The texts of errors, in the language of the page.
pub record Messages : Type 0 where
  pub client_error : ClientValidationError → String
  pub api_error : ConfigApiError → String

pub data Request : Type 0 where
  patched : List (String × Json) → Request
  reset_keys : List String → Request
  reset_everything : Request

pub data Answer : Type 0 where
  answered : ConfigView → Answer
  failed : ConfigApiError → Answer
  empty : Answer

pub record Form : Type 0 where
  pub view : Option ConfigView
  pub view_number : ℕ
  pub fields : List FieldSpec
  pub fields_number : ℕ
  pub baseline : List (String × String)
  pub values : List (String × String)
  pub field_errors : List (String × String)
  pub general_error : Option String
  pub saving : Bool
  pub busy_keys : List String
  pub pending_discard : List String
  pub reconciled : Option (ℕ × ℕ)
  pub sent : List Request

abbrev pub new_form : Form
new_form = record {
  view = none;
  view_number = 0;
  fields = [];
  fields_number = 0;
  baseline = [];
  values = [];
  field_errors = [];
  general_error = none;
  saving = false;
  busy_keys = [];
  pending_discard = [];
  reconciled = none;
  sent = [];
}

-- `a === b` on values that may be undefined.
abbrev pub same_value : Option String → Option String → Bool
same_value none none = true
same_value (some a) (some b) = ite (text_discrete a b) true false
same_value _ _ = false

abbrev pub keys_of : List FieldSpec → List String
keys_of = map (λ f. f.key)

abbrev pub is_dirty : List (String × String) → List (String × String) → FieldSpec → Bool
is_dirty values baseline f =
    not (same_value (lookup text_discrete f.key values) (lookup text_discrete f.key baseline))

unfoldable pub dirty_keys : Form → List String
dirty_keys s = keys_of (filter (is_dirty s.values s.baseline) s.fields)

abbrev pub has_override : Option ConfigView → FieldSpec → Bool
has_override none f = false
has_override (some view) f = not f.internal && is_some (nested_get (some view.file) f.key)

unfoldable pub overridden_keys : Form → List String
overridden_keys s = keys_of (filter (has_override s.view) s.fields)

-- `splitValidationError`: the messages of known keys, and the others.
abbrev pub is_known : String → List String → Bool
is_known key known =
    not (ite (text_discrete key "_") true false) && includes text_discrete key known

unfoldable pub split_entries :
    List String
    → List (String × String)
    → List (String × String)
    → List String
    → List (String × String) × List String
split_entries known [] fields leftovers = (fields, leftovers)
split_entries known ((key, msg) ∷ entries) fields leftovers =
    split_entries known entries
      (if is_known key known then insert text_discrete key msg fields else fields)
      (if is_known key known then leftovers else leftovers ++ msg ∷ [])

abbrev pub join : String → List String → String
join msg [] = msg
join msg (next ∷ rest) = join (str_append (str_append msg "；") next) rest

abbrev pub joined : List String → Option String
joined [] = none
joined (msg ∷ rest) = some (join msg rest)

-- Without a field the error must have a message.
abbrev pub general_of :
    String → List (String × String) → Option String → List (String × String) × Option String
general_of resolved [] none = ([], some resolved)
general_of resolved [] (some general) = ([], some (ite (text_discrete general "") resolved general))
general_of resolved fields general = (fields, general)

unfoldable pub split_validation_error :
    Messages → ConfigApiError → List String → List (String × String) × Option String
unfolding split_entries
split_validation_error m error known =
    let parts = split_entries known (get_or [] error.fields) [] [] in
    general_of (m.api_error error) parts.0 (joined parts.1)

abbrev pub drop_error : Option String → String → List (String × String) → List (String × String)
drop_error none key errors = errors
drop_error (some msg) key errors =
    ite (text_discrete msg "") errors (remove text_discrete key errors)

unfoldable pub set_value : String → String → Form → Form
set_value key value s = record s {
  values = insert text_discrete key value s.values;
  field_errors = drop_error (lookup text_discrete key s.field_errors) key s.field_errors;
  general_error = none;
}

unfoldable pub discard : Form → Form
discard s = record s { values = s.baseline; field_errors = []; general_error = none }

-- `fieldByKey.get(key)`: a Map keeps the last entry of a key.
abbrev pub field_by_key : String → List FieldSpec → Option FieldSpec
field_by_key key [] = none
field_by_key key (f ∷ fields) = elim (field_by_key key fields) [
  | some g ↦ some g
  | none ↦ ite (text_discrete f.key key) (some f) none
]

-- `{ ...prev, ...errs }`, and removing keys.
unfoldable pub merge : List (String × String) → List (String × String) → List (String × String)
merge prev [] = prev
merge prev ((key, msg) ∷ errs) = merge (insert text_discrete key msg prev) errs

unfoldable pub remove_all : List String → List (String × String) → List (String × String)
remove_all [] errors = errors
remove_all (key ∷ ks) errors = remove_all ks (remove text_discrete key errors)

unfoldable pub delete_all : List String → List String → List String
delete_all [] keys = keys
delete_all (key ∷ ks) keys = delete_all ks (delete text_discrete key keys)
