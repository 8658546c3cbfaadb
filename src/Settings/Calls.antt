-- ===== src/Settings/Calls.antt =====
-- What changes the form of frontend/src/features/settings/use-config-form.ts: the effect that follows a
-- view, and the calls, cut where they await the core. A call reads the state as last rendered.
use pixiv_biu.Base.{
  ℕ, suc, ◌==◌, Bool, true, false, not, ◌&&◌, ◌||◌, Option, none, some, List, [], ◌∷◌, ◌++◌, String,
  if◌then◌else◌, ite, text_discrete, lookup, insert, includes, add_all, get_or, filter, unique,
}
use pixiv_biu.Settings.Json.{Json}
use pixiv_biu.Settings.Types.{FieldSpec, ConfigView, Platform}
use pixiv_biu.Settings.Values.{
  ClientValidationError, baseline_string, to_patch_value, validate_client,
}
use pixiv_biu.Settings.Form.{
  Messages, patched, reset_keys, reset_everything, Answer, answered, failed, empty, Form,
  same_value, keys_of, dirty_keys, overridden_keys, split_validation_error, field_by_key, merge,
  remove_all, delete_all,
}

abbrev pub is_empty {ℓ} : {A : Type ℓ} → List A → Bool
is_empty [] = true
is_empty (x ∷ xs) = false

pub record Checked : Type 0 where
  pub errors : List (String × String)
  pub body : List (String × Json)

-- A discarded, a missing and an untouched value follow the view.
abbrev pub resyncs : List String → Option String → Option String → String → Bool
resyncs discarded value old key =
    includes text_discrete key discarded
    || same_value value none
    || not (not (same_value value none) && not (same_value value old))

abbrev pub is_reconciled : Form → Option (ℕ × ℕ) → Bool
is_reconciled s none = false
is_reconciled s (some (view, fields)) = view == s.view_number && fields == s.fields_number

-- `setView` and `setSections`, whose values are new objects.
abbrev pub with_view : ConfigView → Form → Form
with_view next s = record s { view = some next; view_number = suc s.view_number }

abbrev pub with_fields : List FieldSpec → Form → Form
with_fields fields s = record s { fields = fields; fields_number = suc s.fields_number }

module _ (p : Platform) where
  unfoldable pub baseline_from :
      ConfigView → List FieldSpec → List (String × String) → List (String × String)
  baseline_from view [] next = next
  baseline_from view (f ∷ fields) next =
      baseline_from view fields (insert text_discrete f.key (baseline_string p f (some view)) next)

  -- What one field has in the next render, over `next`.
  unfoldable pub settle_value :
      ConfigView → Form → FieldSpec → List (String × String) → List (String × String)
  settle_value view s f next =
      if f.sensitive
      then insert text_discrete f.key "" next
      else if resyncs s.pending_discard (lookup text_discrete f.key s.values)
          (lookup text_discrete f.key s.baseline) f.key
      then insert text_discrete f.key (baseline_string p f (some view)) next
      else next

  unfoldable pub settle_values :
      ConfigView → Form → List FieldSpec → List (String × String) → List (String × String)
  settle_values view s [] next = next
  settle_values view s (f ∷ fields) next = settle_values view s fields (settle_value view s f next)

  unfoldable pub reconcile_now : ConfigView → Form → Form
  reconcile_now view s = record s {
    values = settle_values view s s.fields s.values;
    baseline = baseline_from view s.fields [];
    pending_discard = [];
    reconciled = some (s.view_number, s.fields_number);
  }

  abbrev pub reconcile_at : Option ConfigView → Form → Form
  reconcile_at none s = s
  reconcile_at (some view) s =
      if is_empty s.fields || is_reconciled s s.reconciled then s else reconcile_now view s

  -- The effect, whenever it runs.
  unfoldable pub reconcile : Form → Form
  reconcile s = reconcile_at s.view s

  abbrev pub same_view : Option ConfigView → ConfigView → Bool
  same_view none next = false
  same_view (some prev) next = ite (text_discrete (p.stringify prev) (p.stringify next)) true false

  -- `applyView` of use-config.ts, which is `onView`, with the effect after it.
  unfoldable pub apply_view : ConfigView → Form → Form
  apply_view next s = reconcile (if same_view s.view next then s else with_view next s)

  -- The end of `load`.
  unfoldable pub load : List FieldSpec → ConfigView → Form → Form
  load fields view s = reconcile (with_view view (with_fields fields s))

  module _ (m : Messages) where
    abbrev pub check_value : FieldSpec → String → Option ClientValidationError → Checked → Checked
    check_value f value (some error) c = record c {
      errors = insert text_discrete f.key (m.client_error error) c.errors;
    }
    check_value f value none c = record c {
      body = insert text_discrete f.key (to_patch_value p f value) c.body;
    }

    abbrev pub check_field : Option FieldSpec → String → Checked → Checked
    check_field none value c = c
    check_field (some f) value c = check_value f value (validate_client p f value) c

    -- The loop of `save`. A dirty key has a value.
    unfoldable pub check_all : Form → List String → Checked → Checked
    check_all s [] c = c
    check_all s (key ∷ ks) c =
        check_all s ks (
          check_field (field_by_key key s.fields) (get_or "" (lookup text_discrete key s.values)) c)

    unfoldable pub save_checked : Checked → Form → Form
    save_checked c s =
        if not (is_empty c.errors)
        then record s { field_errors = merge s.field_errors c.errors }
        else if is_empty c.body
        then s
        else record s { saving = true; sent = s.sent ++ patched c.body ∷ [] }

    unfoldable pub begin_save : Form → Form
    unfolding save_checked
    begin_save s = save_checked (check_all s (dirty_keys s) (record { errors = []; body = [] })) s

    -- The answer to `patchConfig`, of a call whose fields had the known keys.
    unfoldable pub end_save : List String → Answer → Form → Form
    end_save known (answered next) s =
        apply_view next (record s { saving = false; field_errors = []; general_error = none })
    end_save known (failed error) s =
        let parts = split_validation_error m error known in
        record s { saving = false; field_errors = parts.0; general_error = parts.1 }
    end_save known empty s = record s { saving = false }

    abbrev pub targets_of : List String → Form → List String
    targets_of keys s = filter (λ k. includes text_discrete k (overridden_keys s)) keys

    -- `runReset`, for `resetField` and `resetSection` too.
    unfoldable pub begin_reset : List String → Form → Form
    begin_reset keys s = if is_empty (targets_of keys s) then s else record s {
      busy_keys = add_all text_discrete s.busy_keys (targets_of keys s);
      sent = s.sent ++ reset_keys (targets_of keys s) ∷ [];
    }

    abbrev pub section_keys : String → Form → List String
    section_keys category s =
        keys_of (filter (λ f. ite (text_discrete f.category category) true false) s.fields)

    unfoldable pub end_reset : List String → Answer → Form → Form
    end_reset targets (answered next) s = apply_view next (record s {
      busy_keys = delete_all targets s.busy_keys;
      pending_discard = add_all text_discrete s.pending_discard targets;
      field_errors = remove_all targets s.field_errors;
    })
    end_reset targets (failed error) s = record s {
      busy_keys = delete_all targets s.busy_keys;
      general_error = some (m.api_error error);
    }
    end_reset targets empty s = record s { busy_keys = delete_all targets s.busy_keys }

    unfoldable pub begin_reset_all : Form → Form
    begin_reset_all s = record s {
      busy_keys = unique text_discrete (keys_of s.fields);
      sent = s.sent ++ reset_everything ∷ [];
    }

    -- The answer to `resetAll`, of a call whose fields had the keys.
    unfoldable pub end_reset_all : List String → Answer → Form → Form
    end_reset_all keys (answered next) s = apply_view next (record s {
      busy_keys = [];
      pending_discard = add_all text_discrete s.pending_discard keys;
      field_errors = [];
      general_error = none;
    })
    end_reset_all keys (failed error) s = record s {
      busy_keys = [];
      general_error = some (m.api_error error);
    }
    end_reset_all keys empty s = record s { busy_keys = [] }
