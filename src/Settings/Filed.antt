-- ===== src/Settings/Filed.antt =====
-- The leaves of a schema, and the fields filed under their categories
-- (frontend/src/features/settings/compile-schema.ts).
use mathlib.Core.List.{Perm, append_assoc, perm_middle}
use mathlib.Core.List.Perm
use pixiv_biu.Base.{
  ◌≡◌, refl, sym, subst, ◌∙◌, arith, Bool, true, false, Option, some, List, [], ◌∷◌, ◌++◌, String,
  if◌then◌else◌, ite, text_discrete, lookup, insert, lookup-insert, get_or, filter, All, keys,
  Distinct, insert-Distinct, concat_nil, includes,
}
use pixiv_biu.Settings.Types.{FieldSpec, Platform}
use pixiv_biu.Settings.Schema.{
  JsonSchemaNode, leaf, group, Properties, end, property, key_of, field_of, walk, walk_node,
  is_object, file_field, file_fields,
}

abbrev pub is_in : String → FieldSpec → Bool
is_in category f = ite (text_discrete f.category category) true false

abbrev pub filed : List (String × List FieldSpec) → List FieldSpec
filed [] = []
filed (e ∷ m) = e.1 ++ filed m

module _ (p : Platform) where
  -- The leaves of a schema, in its order.
  unfoldable mutual
    pub leaves : Properties → String → String → List FieldSpec
    leaves end prefix category = []
    leaves (property name node rest) prefix category =
        node_leaves node (key_of prefix name) category ++ leaves rest prefix category

    pub node_leaves : JsonSchemaNode → String → String → List FieldSpec
    node_leaves (leaf a) key category = field_of p a key (get_or category a.category) ∷ []
    node_leaves (group a properties) key category =
        let inner = leaves properties key (get_or category a.category) in
        if is_object a.kind then inner else field_of p a key (get_or category a.category) ∷ []

  mutual
    unfolding walk walk_node leaves node_leaves

    pub walk-leaves :
        (ps : Properties) (prefix category : String) (out : List FieldSpec)
        → walk p ps prefix category out ≡ out ++ leaves ps prefix category
    walk-leaves end prefix category out = sym (concat_nil out)
    walk-leaves (property name node rest) prefix category out =
        walk-leaves rest prefix category (walk_node p node (key_of prefix name) category out)
        ∙ rw (walk_node-leaves node (key_of prefix name) category out) (
            append_assoc out (node_leaves node (key_of prefix name) category)
              (leaves rest prefix category))

    walk_node-leaves :
        (node : JsonSchemaNode) (key category : String) (out : List FieldSpec)
        → walk_node p node key category out ≡ out ++ node_leaves node key category
    walk_node-leaves (leaf a) key category out = refl
    walk_node-leaves (group a ps) key category out =
        ground (arith, walk-leaves ps key (get_or category a.category) out)

filed_step :
    (f : FieldSpec) (j : String) (v : List FieldSpec) (m : List (String × List FieldSpec))
    (o : Option (List FieldSpec)) (d : Dec (j ≡ f.category))
    → Perm (filed (insert text_discrete f.category (get_or [] o ++ f ∷ []) m)) (f ∷ filed m)
    → Perm
        (filed (
          ite d
            ((f.category, get_or [] (ite d (some v) o) ++ f ∷ []) ∷ m)
            ((j, v) ∷ insert text_discrete f.category (get_or [] (ite d (some v) o) ++ f ∷ []) m)))
        (f ∷ v ++ filed m)
filed_step f j v m o (yes e) h =
    subst (λ l. Perm l (f ∷ v ++ filed m)) (sym (append_assoc v (f ∷ []) (filed m)))
      (perm_middle v (filed m))
filed_step f j v m o (no n) h = Perm.trans (Perm.append_left v h) (perm_middle v (filed m))

file_field-Perm :
    (f : FieldSpec) (m : List (String × List FieldSpec))
    → Perm (filed (file_field f m)) (f ∷ filed m)
unfolding insert lookup
file_field-Perm f [] = Perm.refl (f ∷ [])
file_field-Perm f ((j, v) ∷ m) =
    filed_step f j v m (lookup text_discrete f.category m) (text_discrete j f.category)
      (file_field-Perm f m)

pub file_fields-Perm :
    (fs : List FieldSpec) (m : List (String × List FieldSpec))
    → Perm (filed (file_fields fs m)) (filed m ++ fs)
unfolding file_fields
file_fields-Perm [] m =
    subst (λ l. Perm (filed m) l) (sym (concat_nil (filed m))) (Perm.refl (filed m))
file_fields-Perm (f ∷ fs) m =
    Perm.trans (file_fields-Perm fs (file_field f m)) (
      Perm.trans (Perm.append_right fs (file_field-Perm f m))
        (Perm.symm (perm_middle (filed m) fs)))

entry_step :
    (c j : String) (f : FieldSpec) (fs : List FieldSpec) (m : List (String × List FieldSpec))
    (d : Dec (j ≡ c))
    → get_or []
          (ite d (some (get_or [] (lookup text_discrete j m) ++ f ∷ [])) (lookup text_discrete c m))
        ++ fs
      ≡ get_or [] (lookup text_discrete c m) ++ (if ite d true false then f ∷ fs else fs)
entry_step c j f fs m (yes e) =
    rw e (append_assoc (get_or [] (lookup text_discrete c m)) (f ∷ []) fs)
entry_step c j f fs m (no n) = refl

-- The entry of a category has the fields of that category.
lookup-file_fields :
    (c : String) (fs : List FieldSpec) (m : List (String × List FieldSpec))
    → get_or [] (lookup text_discrete c (file_fields fs m))
      ≡ get_or [] (lookup text_discrete c m) ++ filter (is_in c) fs
unfolding file_fields
lookup-file_fields c [] m = sym (concat_nil (get_or [] (lookup text_discrete c m)))
lookup-file_fields c (f ∷ fs) m =
    lookup-file_fields c fs (file_field f m)
    ∙ rw
        (lookup-insert text_discrete c f.category
          (get_or [] (lookup text_discrete f.category m) ++ f ∷ []) m)
        (entry_step c f.category f (filter (is_in c) fs) m (text_discrete f.category c))

pub lookup-filed :
    (c : String) (fs : List FieldSpec)
    → get_or [] (lookup text_discrete c (file_fields fs [])) ≡ filter (is_in c) fs
unfolding lookup
lookup-filed c fs = lookup-file_fields c fs []

pub file_fields-Distinct :
    (fs : List FieldSpec) (m : List (String × List FieldSpec))
    → Distinct text_discrete (keys m)
    → Distinct text_discrete (keys (file_fields fs m))
unfolding file_fields
file_fields-Distinct [] m d = d
file_fields-Distinct (f ∷ fs) m d =
    file_fields-Distinct fs (file_field f m) (insert-Distinct text_discrete f.category _ m d)

lookup-All_skip :
    {V : Type 0} (k : String) (v : V) (m n : List (String × V))
    → includes text_discrete k (keys n) ≡ false
    → All (λ e. lookup text_discrete e.0 m ≡ some e.1) n
    → All (λ e. lookup text_discrete e.0 ((k, v) ∷ m) ≡ some e.1) n
unfolding lookup
lookup-All_skip k v m [] h a = tt
lookup-All_skip k v m ((j, w) ∷ n) h a =
    (ground (arith, a.0), lookup-All_skip k v m n (ground arith) a.1)

-- The entries of distinct keys are found under them.
pub lookup-All :
    {V : Type 0} (m : List (String × V))
    → Distinct text_discrete (keys m)
    → All (λ e. lookup text_discrete e.0 m ≡ some e.1) m
unfolding lookup
lookup-All [] d = tt
lookup-All ((k, v) ∷ m) d = (ground arith, lookup-All_skip k v m m d.0 (lookup-All m d.1))
