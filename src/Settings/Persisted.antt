-- ===== src/Settings/Persisted.antt =====
-- An edit that the core has stored is shown as its value is printed (frontend/src/features/settings/values.ts,
-- use-config-form.ts).
use pixiv_biu.Base.{
  ◌≡◌, refl, arith, Bool, true, false, not, ◌&&◌, Option, none, some, List, ◌∙◌, String, ite,
  text_discrete, lookup, All, All-map, filter, filter-All, ap,
}
use pixiv_biu.Settings.Json.{nested_get}
use pixiv_biu.Settings.Types.{CfgType, string, integer, other, FieldSpec, ConfigView, Platform}
use pixiv_biu.Settings.Values.{
  is_env, bool_string, to_form_string, view_string, baseline_string, to_patch_value,
}
use pixiv_biu.Settings.Form.{Messages, answered, Form, keys_of, dirty_keys}
use pixiv_biu.Settings.Calls.{same_view, end_save}
use pixiv_biu.Settings.Coherent.{IsCoherent}
use pixiv_biu.Settings.Saved.{keeps_edit, stays_dirty, dirty_keys-end_save}

module _ (p : Platform) where
  -- The text that a value of the kind has once it was sent: how its number or its choice is printed.
  abbrev pub printed_as : CfgType → String → String
  printed_as CfgType.boolean v = bool_string (ite (text_discrete v "true") true false)
  printed_as integer v = p.print (p.to_number v)
  printed_as _ v = v

  to_form_string-to_patch_value :
      (k : CfgType) (f : FieldSpec) (v : String)
      → f.kind ≡ k
      → to_form_string p f (some (to_patch_value p f v)) ≡ printed_as k v
  unfolding to_form_string to_patch_value
  to_form_string-to_patch_value CfgType.boolean f v e = ground arith
  to_form_string-to_patch_value integer f v e = ground arith
  to_form_string-to_patch_value string f v e = ground arith
  to_form_string-to_patch_value other f v e = ground arith

  -- The file of the view has the text v of a field as it was sent, and no environment variable overrides
  -- the field.
  abbrev pub IsStored : ConfigView → FieldSpec → String → Type 0
  IsStored next f v =
      (is_env (lookup text_discrete f.key next.sources) ≡ false)
      × (nested_get (some next.file) f.key ≡ some (to_patch_value p f v))

  -- What a field that is no secret shows, where the text v was stored: how v is printed.
  pub baseline_string-to_patch_value :
      (f : FieldSpec) (view : ConfigView) (v : String)
      → f.sensitive ≡ false
      → IsStored view f v
      → baseline_string p f (some view) ≡ printed_as f.kind v
  unfolding baseline_string view_string
  baseline_string-to_patch_value f view v s (n, g) =
      ground (arith, to_form_string-to_patch_value f.kind f v refl)

  -- An edit that a new view keeps, in another spelling than it is printed.
  abbrev pub is_respelled : Form → FieldSpec → Bool
  is_respelled s f = elim (lookup text_discrete f.key s.values) [
    | none ↦ false
    | some v ↦ keeps_edit s f && not (ite (text_discrete v (printed_as f.kind v)) true false)
  ]

  respelled_of :
      (next : ConfigView) (s : Form) (f : FieldSpec) (o : Option String)
      → lookup text_discrete f.key s.values ≡ o
      → ((v : String)
          → keeps_edit s f ≡ true
          → lookup text_discrete f.key s.values ≡ some v
          → baseline_string p f (some next) ≡ printed_as f.kind v)
      → stays_dirty p next s f ≡ is_respelled s f
  respelled_of next s f none e h = ground arith
  respelled_of next s f (some v) e h = ground (arith, h v)

  stored_respelled :
      (next : ConfigView) (s : Form) (f : FieldSpec)
      → ((v : String)
          → keeps_edit s f ≡ true
          → lookup text_discrete f.key s.values ≡ some v
          → IsStored next f v)
      → stays_dirty p next s f ≡ is_respelled s f
  stored_respelled next s f h =
      respelled_of next s f (lookup text_discrete f.key s.values) refl
        (λ v k e. baseline_string-to_patch_value f next v (ground arith) (h v k e))

  module _ (m : Messages) where
    -- When a save is answered by a view that differs from the one in hand, in a form as any run leaves it, and
    -- every edit that a new view keeps (of no secret and not reset) stands in the view's file as it was sent
    -- and is of no field that an environment variable overrides: exactly those edits still count as unsaved
    -- whose text is not the one that their value is printed as.
    pub end_save-respelled :
        (known : List String) (next : ConfigView) (s : Form)
        → IsCoherent p s
        → same_view p s.view next ≡ false
        → All
            (λ f.
              (v : String)
              → keeps_edit s f ≡ true
              → lookup text_discrete f.key s.values ≡ some v
              → IsStored next f v)
            s.fields
        → dirty_keys (end_save p m known (answered next) s)
          ≡ keys_of (filter (is_respelled s) s.fields)
    end_save-respelled known next s c n h =
        dirty_keys-end_save p m known next s c n
        ∙ ap keys_of (
            filter-All (stays_dirty p next s) (is_respelled s) s.fields
              (All-map _ _ s.fields (stored_respelled next s) h))
