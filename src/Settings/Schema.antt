-- ===== src/Settings/Schema.antt =====
-- The sections of the settings: frontend/src/features/settings/compile-schema.ts, with the overrides and
-- icons of presentation.ts. A node with `properties` is a `group`, one without a `leaf`.
use Prim.Native.String.{◌++◌ as str_append}
use pixiv_biu.Base.{
  ℕ, min, Bool, true, false, not, ◌||◌, Option, none, some, List, [], ◌∷◌, ◌++◌, String, ℤ, ltb,
  if◌then◌else◌, ite, text_discrete, lookup, insert, get_or, filter, all, map, sort,
}
use pixiv_biu.Settings.Json.{Json}
use pixiv_biu.Settings.Types.{CfgType, string, other, ControlKind, FieldSpec, Platform}
use pixiv_biu.Settings.Values.{is_advanced, to_string, is_boolean, is_integer}

pub data NodeType : Type 0 where
  leaf_type : CfgType → NodeType
  object_type : NodeType

pub record Attributes : Type 0 where
  pub kind : Option NodeType
  pub default_value : Option Json
  pub options : Option (List Json)
  pub minimum : Option ℤ
  pub maximum : Option ℤ
  pub format : Option String
  pub category : Option String
  pub go_type : Option String
  pub sensitive : Bool
  pub restart_required : Bool
  pub advanced : Bool
  pub internal : Bool
  pub order : Option ℕ

mutual
  pub data JsonSchemaNode : Type 0 where
    leaf : Attributes → JsonSchemaNode
    group : Attributes → Properties → JsonSchemaNode

  pub data Properties : Type 0 where
    end : Properties
    property : String → JsonSchemaNode → Properties → Properties

-- CONTROL_OVERRIDE.
abbrev pub control_override : String → Option ControlKind
control_override key = ite (text_discrete key "download.output_dir") (some ControlKind.template) (
    ite (text_discrete key "download.file_template") (some ControlKind.template) (
      ite (text_discrete key "download.file_group_template") (some ControlKind.template)
        (ite (text_discrete key "pixiv.proxy") (some ControlKind.proxy) none)))

abbrev pub has_options : Option (List Json) → Bool
has_options (some (x ∷ xs)) = true
has_options _ = false

abbrev pub control_of : Attributes → CfgType → Bool → Option ControlKind → ControlKind
control_of a kind is_duration (some control) = control
control_of a kind is_duration none =
    if a.sensitive
    then ControlKind.password
    else if has_options a.options
    then ControlKind.select
    else if is_duration
    then ControlKind.duration
    else if is_boolean kind
    then ControlKind.switch
    else if is_integer kind
    then ControlKind.number
    else ControlKind.text

unfoldable pub derive_control : Attributes → String → CfgType → Bool → ControlKind
derive_control a key kind is_duration = control_of a kind is_duration (control_override key)

abbrev pub type_of : Option NodeType → CfgType
type_of none = string
type_of (some (leaf_type kind)) = kind
type_of (some object_type) = other

abbrev pub is_object : Option NodeType → Bool
is_object (some object_type) = true
is_object _ = false

abbrev pub is_text : String → Option String → Bool
is_text t none = false
is_text t (some s) = ite (text_discrete s t) true false

abbrev pub key_of : String → String → String
key_of prefix name = ite (text_discrete prefix "") name (str_append (str_append prefix ".") name)

abbrev pub mapped {ℓ} : {A B : Type ℓ} → (A → B) → Option A → Option B
mapped f none = none
mapped f (some a) = some (f a)

module _ (p : Platform) where
  unfoldable pub field_of : Attributes → String → String → FieldSpec
  field_of a key category =
      let kind = type_of a.kind in
      let is_duration = is_text "duration" a.format || is_text "duration" a.go_type in
      record {
        key = key;
        category = category;
        kind = kind;
        control = derive_control a key kind is_duration;
        default_value = a.default_value;
        options = mapped (map (to_string p)) a.options;
        minimum = a.minimum;
        maximum = a.maximum;
        is_duration = is_duration;
        sensitive = a.sensitive;
        restart_required = a.restart_required;
        advanced = a.advanced;
        internal = a.internal;
        order = get_or 0 a.order;
      }

  unfoldable mutual
    pub walk : Properties → String → String → List FieldSpec → List FieldSpec
    walk end prefix category out = out
    walk (property name node rest) prefix category out =
        walk rest prefix category (walk_node node (key_of prefix name) category out)

    pub walk_node : JsonSchemaNode → String → String → List FieldSpec → List FieldSpec
    walk_node (leaf a) key category out = out ++ field_of a key (get_or category a.category) ∷ []
    walk_node (group a properties) key category out =
        let inner = walk properties key (get_or category a.category) out in
        if is_object a.kind then inner else out ++ field_of a key (get_or category a.category) ∷ []

-- One round of the loop over the fields.
abbrev pub file_field : FieldSpec → List (String × List FieldSpec) → List (String × List FieldSpec)
file_field f by_category =
    insert text_discrete f.category
      (get_or [] (lookup text_discrete f.category by_category) ++ f ∷ []) by_category

unfoldable pub file_fields :
    List FieldSpec → List (String × List FieldSpec) → List (String × List FieldSpec)
file_fields [] by_category = by_category
file_fields (f ∷ fs) by_category = file_fields fs (file_field f by_category)

pub data Icon : Type 0 where
  global paint_board download image cloud_server information settings : Icon

unfoldable pub section_icon : String → Icon
section_icon category = ite (text_discrete category "app") global (
    ite (text_discrete category "pixiv") paint_board (
      ite (text_discrete category "download") download (
        ite (text_discrete category "image") image (
          ite (text_discrete category "system") cloud_server
            (ite (text_discrete category "about") information settings)))))

pub record SectionSpec : Type 0 where
  pub category : String
  pub icon : Icon
  pub fields : List FieldSpec

abbrev pub by_order : FieldSpec → FieldSpec → Bool
by_order a b = ltb a.order b.order

unfoldable pub arrange : List FieldSpec → List FieldSpec
arrange fields =
    sort by_order (filter (λ f. not (is_advanced f)) fields)
    ++ sort by_order (filter is_advanced fields)

-- `Math.min(...)` over the fields of a category, of which there is one at least.
abbrev pub min_order : List FieldSpec → ℕ
min_order [] = 0
min_order (f ∷ []) = f.order
min_order (f ∷ g ∷ fs) = min f.order (min_order (g ∷ fs))

unfoldable pub section_of : String × List FieldSpec → SectionSpec
section_of (category, fields) = record {
  category = category;
  icon = section_icon category;
  fields = arrange fields;
}

abbrev pub min_orders : List (String × List FieldSpec) → List (String × ℕ)
min_orders = map (λ e. (e.0, min_order e.1))

abbrev pub is_wholly_advanced : SectionSpec → Bool
is_wholly_advanced s = all is_advanced s.fields

-- `a !== b`.
abbrev pub xor : Bool → Bool → Bool
xor true b = not b
xor false b = b

-- The lower tier first, then the smaller number.
abbrev pub tier_less : Bool → ℕ → Bool → ℕ → Bool
tier_less a m b n = if xor a b then b else ltb m n

-- Whether the comparator of the sections is negative.
abbrev pub comes_before : List (String × ℕ) → SectionSpec → SectionSpec → Bool
comes_before orders a b =
    tier_less (is_wholly_advanced a) (get_or 0 (lookup text_discrete a.category orders))
      (is_wholly_advanced b) (get_or 0 (lookup text_discrete b.category orders))

unfoldable pub sections_of : List FieldSpec → List SectionSpec
sections_of fields =
    let by_category = file_fields fields [] in
    sort (comes_before (min_orders by_category)) (map section_of by_category)

unfoldable pub compile_schema : Platform → Properties → List SectionSpec
compile_schema p properties = sections_of (walk p properties "" "" [])
