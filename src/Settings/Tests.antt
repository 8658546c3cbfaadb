-- ===== src/Settings/Tests.antt =====
-- Runs of the settings, and the theorems at them.
use pixiv_biu.Base.{
  ◌≡◌, subst, refl, arith, false, Option, none, some, List, [], ◌∷◌, String, pos, ite,
  text_discrete, lookup, insert, All, filter,
}
use pixiv_biu.Settings.Json.{
  Number, whole, nan, Json, number, text, object, field, end, split, nested_get, get, get_at,
  step_into,
}
use pixiv_biu.Settings.Types.{integer, ControlKind, FieldSpec, ConfigView, Platform}
use pixiv_biu.Settings.Values.{
  baseline_string, view_string, to_form_string, to_patch_value, validate_client,
}
use pixiv_biu.Settings.Form.{Messages, patched, answered, Form, new_form, dirty_keys, keys_of}
use pixiv_biu.Settings.Calls.{apply_view, begin_save, end_save, check_all, save_checked}
use pixiv_biu.Settings.Coherent.{IsCoherent}
use pixiv_biu.Settings.Runs.{
  Event, loaded, edited, save_begun, save_ended, handle_all, handle_all-IsCoherent,
}
use pixiv_biu.Settings.Saved.{Adopts, stays_dirty, apply_view-All, dirty_keys-end_save}
use pixiv_biu.Settings.Persisted.{IsStored, is_respelled, end_save-respelled}
use pixiv_biu.Settings.Sent.{saves, dirty_fields, begin_save_lem}
use pixiv_biu.Settings.Bounds.{IsInRange, validate_client-IsInRange}
use mathlib.Core.List.{Perm}
use pixiv_biu.Base.{true, map, sort, insert_sorted, IsSorted}
use pixiv_biu.Settings.Schema.{
  leaf_type, object_type, Attributes, leaf, group, Properties, property, compile_schema,
  sections_of, walk, field_of, file_fields, section_of, arrange, derive_control,
}
use pixiv_biu.Settings.Filed.{leaves}
use pixiv_biu.Settings.Sections.{
  shown_fields, IsSection, section_before, compile_schema-Perm, compile_schema-IsSorted,
}

dotted : split "a.bc.d" ≡ "a" ∷ "bc" ∷ "d" ∷ []
unfolding split
dotted = refl

nested :
    nested_get (some (object (field "a" (object (field "bc" (text "x") end)) end))) "a.bc"
    ≡ some (text "x")
unfolding nested_get split get get_at step_into text_discrete
nested = refl

-- A platform that knows one number, under two spellings, and tells views apart by their files.
abbrev number_of : String → Number
number_of v =
    ite (text_discrete v "5") (whole (pos 5)) (ite (text_discrete v "05") (whole (pos 5)) nan)

abbrev print_number : Number → String
print_number (whole (pos n)) = "5"
print_number _ = "NaN"

abbrev file_text : Json → String
file_text (object end) = "{}"
file_text _ = "{…}"

abbrev platform : Platform
platform = record {
  trim = λ s. s;
  to_number = number_of;
  print = print_number;
  stringify = λ view. file_text view.file;
}

abbrev messages : Messages
messages = record { client_error = λ e. "invalid"; api_error = λ e. "failed" }

abbrev size : FieldSpec
size = record {
  key = "n";
  category = "app";
  kind = integer;
  control = ControlKind.number;
  default_value = none;
  options = none;
  minimum = some (pos 1);
  maximum = some (pos 9);
  is_duration = false;
  sensitive = false;
  restart_required = false;
  advanced = false;
  internal = false;
  order = 0;
}

abbrev unset_view : ConfigView
unset_view = record {
  sources = [];
  effective = object end;
  file = object end;
  pending_restart = [];
}

abbrev stored_view : ConfigView
stored_view = record unset_view { file = object (field "n" (number (whole (pos 5))) end) }

abbrev calls : List Event
calls =
    loaded (size ∷ []) unset_view
    ∷ edited "n" "5"
    ∷ save_begun
    ∷ save_ended ("n" ∷ []) (answered stored_view)
    ∷ []

handle_all-IsCoherent_example : IsCoherent platform (handle_all platform messages calls new_form)
handle_all-IsCoherent_example =
    handle_all-IsCoherent platform messages calls ((refl, tt), (tt, (tt, (tt, tt))))

-- The form once the text was typed.
abbrev typed : String → Form
typed v = record new_form {
  view = some unset_view;
  view_number = 1;
  fields = size ∷ [];
  fields_number = 1;
  baseline = ("n", "") ∷ [];
  values = ("n", v) ∷ [];
  reconciled = some (1, 1);
}

typed-IsCoherent : (v : String) → IsCoherent platform (typed v)
unfolding lookup text_discrete baseline_string view_string to_form_string nested_get split get
    get_at step_into
typed-IsCoherent v = record {
  distinct = (refl, tt);
  seen = (omega arith, omega arith);
  shown = (refl, ((refl, refl), tt));
}

apply_view-All_example :
    All
      (Adopts platform stored_view (typed "7") (apply_view platform stored_view (typed "7")))
      (size ∷ [])
unfolding text_discrete
apply_view-All_example = apply_view-All platform stored_view (typed "7") (typed-IsCoherent "7") refl

dirty_keys-end_save_example :
    dirty_keys (end_save platform messages ("n" ∷ []) (answered stored_view) (typed "05"))
    ≡ keys_of (filter (stays_dirty platform stored_view (typed "05")) (size ∷ []))
unfolding text_discrete
dirty_keys-end_save_example =
    dirty_keys-end_save platform messages ("n" ∷ []) stored_view (typed "05")
      (typed-IsCoherent "05") refl

-- A number that was stored, and was typed in another spelling, stays unsaved.
still_dirty :
    keys_of (filter (stays_dirty platform stored_view (typed "05")) (size ∷ [])) ≡ "n" ∷ []
unfolding lookup text_discrete baseline_string view_string to_form_string nested_get split get
    get_at step_into
still_dirty = refl

-- "05" was stored as 5, and so was "5".
five-IsStored :
    (v : String)
    → (◌≡◌ {A = Option String} (some "05") (some v))
    → IsStored platform stored_view size v
unfolding lookup text_discrete to_patch_value nested_get split get get_at step_into
five-IsStored v e =
    let five_is : ◌≡◌ {A = String} "05" v = cc in
    subst (IsStored platform stored_view size) five_is (refl, refl)

end_save-respelled_example :
    dirty_keys (end_save platform messages ("n" ∷ []) (answered stored_view) (typed "05"))
    ≡ keys_of (filter (is_respelled platform (typed "05")) (size ∷ []))
unfolding lookup text_discrete to_patch_value nested_get split get get_at step_into
end_save-respelled_example =
    end_save-respelled platform messages ("n" ∷ []) stored_view (typed "05") (typed-IsCoherent "05")
      refl ((λ v k e. five-IsStored v e), tt)

-- An edit as it is printed is saved; in another spelling it is not.
five_saved : keys_of (filter (is_respelled platform (typed "5")) (size ∷ [])) ≡ []
unfolding lookup text_discrete
five_saved = refl

begin_save_lem_example :
    begin_save platform messages (typed "5")
    ≡ saves platform messages (typed "5") (dirty_fields platform messages (typed "5"))
begin_save_lem_example = begin_save_lem platform messages (typed "5") (refl, tt)

save_sends :
    (begin_save platform messages (typed "5")).sent
    ≡ patched (("n", number (whole (pos 5))) ∷ []) ∷ []
unfolding begin_save dirty_keys validate_client to_patch_value insert lookup text_discrete check_all
    save_checked
save_sends = refl

validate_client-IsInRange_example :
    (n : Number) × (to_patch_value platform size "5" ≡ number n) × IsInRange size n
unfolding validate_client text_discrete
validate_client-IsInRange_example = validate_client-IsInRange platform size "5" refl refl refl

-- An everyday leaf of one category after an advanced leaf of another.
abbrev plain : Attributes
plain = record {
  kind = some (leaf_type integer);
  default_value = none;
  options = none;
  minimum = none;
  maximum = none;
  format = none;
  category = some "app";
  go_type = none;
  sensitive = false;
  restart_required = false;
  advanced = false;
  internal = false;
  order = some 3;
}

abbrev schema : Properties
schema =
    property "log"
      (group (record plain { kind = some object_type; category = some "system" })
        (property "level" (leaf (record plain { category = none; advanced = true; order = some 1 }))
          Properties.end))
      (property "n" (leaf plain) Properties.end)

compiled_keys :
    map (λ s. keys_of s.fields) (compile_schema platform schema)
    ≡ ("n" ∷ []) ∷ ("log.level" ∷ []) ∷ []
unfolding compile_schema sections_of walk field_of file_fields section_of arrange sort insert_sorted
    lookup insert text_discrete derive_control
compiled_keys = refl

compile_schema-Perm_example :
    Perm (shown_fields (compile_schema platform schema)) (leaves platform schema "" "")
compile_schema-Perm_example = compile_schema-Perm platform schema

compile_schema-IsSorted_example :
    All (IsSection (leaves platform schema "" "")) (compile_schema platform schema)
    × IsSorted (section_before (leaves platform schema "" "")) (compile_schema platform schema)
compile_schema-IsSorted_example = compile_schema-IsSorted platform schema
