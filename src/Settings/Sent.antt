-- ===== src/Settings/Sent.antt =====
-- What a save sends (frontend/src/features/settings/use-config-form.ts).
use pixiv_biu.Base.{
  ◌≡◌, refl, arith, Bool, true, false, not, ◌||◌, Option, none, some, List, [], ◌∷◌, ◌++◌, ◌∙◌,
  String, if◌then◌else◌, text_discrete, lookup, includes, All, All-map, All-filter,
  Distinct-map-filter, is_some, filter, map, any, get_or, ap, Distinct, keys, concat_nil,
  insert-absent, includes-keys-append, includes_head,
}
use mathlib.Core.List.{append_assoc}
use pixiv_biu.Settings.Json.{Json}
use pixiv_biu.Settings.Types.{FieldSpec, Platform}
use pixiv_biu.Settings.Values.{ClientValidationError, to_patch_value, validate_client}
use pixiv_biu.Settings.Form.{
  Messages, patched, Form, keys_of, is_dirty, dirty_keys, field_by_key, merge,
}
use pixiv_biu.Settings.Calls.{
  Checked, check_value, check_field, check_all, save_checked, begin_save, is_empty,
}

module _ (p : Platform) (m : Messages) where
  abbrev pub value_of : Form → FieldSpec → String
  value_of s f = get_or "" (lookup text_discrete f.key s.values)

  abbrev pub error_of : FieldSpec → Option ClientValidationError → List (String × String)
  error_of f none = []
  error_of f (some error) = (f.key, m.client_error error) ∷ []

  abbrev pub body_of : FieldSpec → String → Option ClientValidationError → List (String × Json)
  body_of f v none = (f.key, to_patch_value p f v) ∷ []
  body_of f v (some error) = []

  -- The entries of the invalid fields, with their messages, and of the valid ones, as they are sent.
  abbrev pub error_entries : Form → List FieldSpec → List (String × String)
  error_entries s [] = []
  error_entries s (f ∷ fs) = error_of f (validate_client p f (value_of s f)) ++ error_entries s fs

  abbrev pub body_entries : Form → List FieldSpec → List (String × Json)
  body_entries s [] = []
  body_entries s (f ∷ fs) =
      body_of f (value_of s f) (validate_client p f (value_of s f)) ++ body_entries s fs

  -- None of the keys has been met.
  abbrev IsNew : List String → Checked → Type 0
  IsNew ks c =
      (k : String)
      → includes text_discrete k ks ≡ true
      → (includes text_discrete k (keys c.errors) ≡ false)
        × (includes text_discrete k (keys c.body) ≡ false)

  check_value_lem :
      (f : FieldSpec) (v : String) (o : Option ClientValidationError) (c : Checked)
      → includes text_discrete f.key (keys c.errors) ≡ false
      → includes text_discrete f.key (keys c.body) ≡ false
      → check_value p m f v o c
        ≡ record { errors = c.errors ++ error_of f o; body = c.body ++ body_of f v o }
  check_value_lem f v none c h k =
      ground (
        arith,
        insert-absent text_discrete f.key (to_patch_value p f v) c.body,
        concat_nil c.errors,
      )
  check_value_lem f v (some error) c h k =
      ground (
        arith,
        insert-absent text_discrete f.key (m.client_error error) c.errors,
        concat_nil c.body,
      )

  IsNew-check :
      (f : FieldSpec) (v : String) (o : Option ClientValidationError) (ks : List String)
      (c : Checked)
      → includes text_discrete f.key ks ≡ false
      → IsNew (f.key ∷ ks) c
      → IsNew ks (record { errors = c.errors ++ error_of f o; body = c.body ++ body_of f v o })
  IsNew-check f v none ks c d n = λ k h. ground (
    arith,
    n k,
    includes-keys-append text_discrete k c.errors [],
    includes-keys-append text_discrete k c.body (body_of f v none),
  )
  IsNew-check f v (some error) ks c d n = λ k h. ground (
    arith,
    n k,
    includes-keys-append text_discrete k c.errors (error_of f (some error)),
    includes-keys-append {V = Json} text_discrete k c.body [],
  )

  check_found :
      (f : FieldSpec) (v : String) (o : Option FieldSpec) (c : Checked)
      → o ≡ some f
      → includes text_discrete f.key (keys c.errors) ≡ false
      → includes text_discrete f.key (keys c.body) ≡ false
      → check_field p m o v c ≡ record {
        errors = c.errors ++ error_of f (validate_client p f v);
        body = c.body ++ body_of f v (validate_client p f v);
      }
  check_found f v o c e h k = rw e (check_value_lem f v (validate_client p f v) c h k)

  check_all_lem :
      (s : Form) (fs : List FieldSpec) (c : Checked)
      → All (λ f. field_by_key f.key s.fields ≡ some f) fs
      → Distinct text_discrete (keys_of fs)
      → IsNew (keys_of fs) c
      → check_all p m s (keys_of fs) c
        ≡ record { errors = c.errors ++ error_entries s fs; body = c.body ++ body_entries s fs }
  unfolding check_all
  check_all_lem s [] c a d n = ground (arith, concat_nil c.errors, concat_nil c.body)
  check_all_lem s (f ∷ fs) c a d n =
      let v = value_of s f in
      let o = validate_client p f v in
      let c' : Checked = record {
        errors = c.errors ++ error_of f o;
        body = c.body ++ body_of f v o;
      } in
      let (e, b) = n f.key (includes_head text_discrete f.key (keys_of fs)) in
      ap (check_all p m s (keys_of fs)) (check_found f v (field_by_key f.key s.fields) c a.0 e b)
      ∙ check_all_lem s fs c' a.1 d.1 (IsNew-check f v o (keys_of fs) c d.0 n)
      ∙ simp append_assoc

  abbrev pub is_invalid : Form → FieldSpec → Bool
  is_invalid s f = is_some (validate_client p f (value_of s f))

  abbrev pub patch_of : Form → FieldSpec → String × Json
  patch_of s f = (f.key, to_patch_value p f (value_of s f))

  error_of-empty :
      (f : FieldSpec) (o : Option ClientValidationError) (s : Form) (fs : List FieldSpec)
      → is_empty (error_entries s fs) ≡ not (any (is_invalid s) fs)
      → is_empty (error_of f o ++ error_entries s fs) ≡ not (is_some o || any (is_invalid s) fs)
  error_of-empty f none s fs h = h
  error_of-empty f (some error) s fs h = refl

  body_of-patch :
      (f : FieldSpec) (o : Option ClientValidationError) (s : Form)
      (rest rest' : List (String × Json))
      → is_some o ≡ false
      → rest ≡ rest'
      → body_of f (value_of s f) o ++ rest ≡ patch_of s f ∷ rest'
  body_of-patch f none s rest rest' h e = ap (λ r. patch_of s f ∷ r) e
  body_of-patch f (some error) s rest rest' h e = cc

  error_entries-empty :
      (s : Form) (fs : List FieldSpec) → is_empty (error_entries s fs) ≡ not (any (is_invalid s) fs)
  error_entries-empty s [] = refl
  error_entries-empty s (f ∷ fs) =
      error_of-empty f (validate_client p f (value_of s f)) s fs (error_entries-empty s fs)

  body_entries-map :
      (s : Form) (fs : List FieldSpec)
      → any (is_invalid s) fs ≡ false
      → body_entries s fs ≡ map (patch_of s) fs
  body_entries-map s [] h = refl
  body_entries-map s (f ∷ fs) h =
      body_of-patch f (validate_client p f (value_of s f)) s _ _ (ground arith)
        (body_entries-map s fs (ground arith))

  abbrev pub dirty_fields : Form → List FieldSpec
  dirty_fields s = filter (is_dirty s.values s.baseline) s.fields

  -- What a save does, said of the edited fields as a whole.
  abbrev pub saves : Form → List FieldSpec → Form
  saves s ds =
      if any (is_invalid s) ds
      then record s { field_errors = merge s.field_errors (error_entries s ds) }
      else if is_empty ds
      then s
      else record s { saving = true; sent = s.sent ++ patched (map (patch_of s) ds) ∷ [] }

  save_checked_lem :
      (s : Form) (ds : List FieldSpec)
      → save_checked p m (record { errors = error_entries s ds; body = body_entries s ds }) s
        ≡ saves s ds
  unfolding save_checked
  save_checked_lem s ds = ground (arith, error_entries-empty s ds, body_entries-map s ds)

  field_by_key-absent :
      (key : String) (fs : List FieldSpec)
      → includes text_discrete key (keys_of fs) ≡ false
      → field_by_key key fs ≡ none
  field_by_key-absent key [] h = refl
  field_by_key-absent key (f ∷ fs) h = ground (arith, field_by_key-absent key fs)

  field_by_key-All :
      (fs : List FieldSpec)
      → Distinct text_discrete (keys_of fs)
      → All (λ f. field_by_key f.key fs ≡ some f) fs
  field_by_key-All [] d = tt
  field_by_key-All (f ∷ fs) d = (
    ground (arith, field_by_key-absent f.key fs),
    All-map (λ g. field_by_key g.key fs ≡ some g) (λ g. field_by_key g.key (f ∷ fs) ≡ some g) fs
        (λ g e. ground arith) (field_by_key-All fs d.1),
  )

  -- In a form whose fields have distinct keys, a save marks exactly the invalid ones among the edited fields
  -- if there is one and sends nothing; otherwise it sends the values of all edited fields, in the order of
  -- the fields, if there is an edited one.
  pub begin_save_lem :
      (s : Form)
      → Distinct text_discrete (keys_of s.fields)
      → begin_save p m s ≡ saves s (dirty_fields s)
  unfolding begin_save dirty_keys
  begin_save_lem s d =
      let ds = dirty_fields s in
      ap (λ c. save_checked p m c s)
        (check_all_lem s ds (record { errors = []; body = [] })
          (All-filter (λ f. field_by_key f.key s.fields ≡ some f) (is_dirty s.values s.baseline)
            s.fields (field_by_key-All s.fields d))
          (Distinct-map-filter text_discrete (λ f. f.key) (is_dirty s.values s.baseline) s.fields d)
          (λ k h. (refl, refl)))
      ∙ save_checked_lem s ds
