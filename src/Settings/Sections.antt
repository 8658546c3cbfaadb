-- ===== src/Settings/Sections.antt =====
-- The sections as a whole (frontend/src/features/settings/compile-schema.ts).
use mathlib.Core.List.{Perm, append_assoc, perm_append_comm}
use mathlib.Core.List.Perm
use pixiv_biu.Base.{
  ℕ, ◌≡◌, refl, sym, subst, ◌∙◌, arith, Bool, true, false, some, List, [], ◌∷◌, ◌++◌, String,
  if◌then◌else◌, text_discrete, lookup, get_or, filter, map, All, All-map, sort, IsSorted, IsOrder,
  sort-IsSorted, All-sort, map-All, insert_sorted,
}
use pixiv_biu.Settings.Types.{FieldSpec, Platform}
use pixiv_biu.Settings.Schema.{
  Properties, walk, file_fields, SectionSpec, arrange, section_of, sections_of, min_order,
  min_orders, tier_less, is_wholly_advanced, comes_before, compile_schema,
}
use pixiv_biu.Settings.Arranged.{
  field_before, tier_asym, tier_trans, arrange-Perm, arrange-IsSorted, IsSorted-map,
}
use pixiv_biu.Settings.Filed.{
  is_in, filed, leaves, walk-leaves, file_fields-Perm, lookup-filed, file_fields-Distinct,
  lookup-All,
}

-- All fields that are shown, section by section.
abbrev pub shown_fields : List SectionSpec → List FieldSpec
shown_fields [] = []
shown_fields (s ∷ ss) = s.fields ++ shown_fields ss

-- A section has the fields of its category, everyday ones first and each tier in the declaration's order.
abbrev pub IsSection : List FieldSpec → SectionSpec → Type 0
IsSection fields s =
    Perm s.fields (filter (is_in s.category) fields) × IsSorted field_before s.fields

section_of-IsSection :
    (fields : List FieldSpec) (e : String × List FieldSpec)
    → e.1 ≡ filter (is_in e.0) fields
    → IsSection fields (section_of e)
unfolding section_of
section_of-IsSection fields (c, v) h =
    (subst (λ l. Perm (arrange v) l) h (arrange-Perm v), arrange-IsSorted v)

-- The sections before they are sorted.
abbrev unsorted : List FieldSpec → List SectionSpec
unsorted fields = map section_of (file_fields fields [])

unsorted-All : (fields : List FieldSpec) → All (IsSection fields) (unsorted fields)
unsorted-All fields =
    let m = file_fields fields [] in
    map-All section_of (IsSection fields) m (
      All-map (λ e. lookup text_discrete e.0 m ≡ some e.1) (λ e. IsSection fields (section_of e)) m
        (λ e h. section_of-IsSection fields e (ground (arith, lookup-filed e.0 fields)))
        (lookup-All m (file_fields-Distinct fields [] tt)))

swap-Perm : (xs ys zs : List FieldSpec) → Perm (xs ++ (ys ++ zs)) (ys ++ (xs ++ zs))
swap-Perm xs ys zs =
    subst (λ l. Perm l (ys ++ (xs ++ zs))) (append_assoc xs ys zs)
      (subst (λ l. Perm ((xs ++ ys) ++ zs) l) (append_assoc ys xs zs)
        (Perm.append_right zs (perm_append_comm xs ys)))

module _ (less : SectionSpec → SectionSpec → Bool) where
  shown_fields-insert_sorted :
      (x : SectionSpec) (xs : List SectionSpec)
      → Perm (shown_fields (insert_sorted less x xs)) (x.fields ++ shown_fields xs)
  unfolding insert_sorted
  shown_fields-insert_sorted x [] = Perm.refl (x.fields ++ [])
  shown_fields-insert_sorted x (y ∷ ys) =
      elim (less y x)
        as (λ b.
          Perm (shown_fields (if b then y ∷ insert_sorted less x ys else x ∷ y ∷ ys))
            (x.fields ++ (y.fields ++ shown_fields ys))) [
              | true ↦
                  Perm.trans (Perm.append_left y.fields (shown_fields-insert_sorted x ys))
                    (swap-Perm y.fields x.fields (shown_fields ys))
              | false ↦ Perm.refl (x.fields ++ (y.fields ++ shown_fields ys))
            ]

  shown_fields-sort : (xs : List SectionSpec) → Perm (shown_fields (sort less xs)) (shown_fields xs)
  unfolding sort
  shown_fields-sort [] = Perm.refl []
  shown_fields-sort (x ∷ xs) =
      Perm.trans (shown_fields-insert_sorted x (sort less xs))
        (Perm.append_left x.fields (shown_fields-sort xs))

shown_fields-map :
    (m : List (String × List FieldSpec)) → Perm (shown_fields (map section_of m)) (filed m)
unfolding section_of
shown_fields-map [] = Perm.refl []
shown_fields-map ((c, v) ∷ m) = Perm.append (arrange-Perm v) (shown_fields-map m)

units : (xs : List SectionSpec) → All (λ s. Unit {0}) xs
units [] = tt
units (x ∷ xs) = (tt, units xs)

-- A category stands where its earliest field does; wholly advanced ones stand last.
abbrev pub section_before : List FieldSpec → SectionSpec → SectionSpec → Bool
section_before fields a b =
    tier_less (is_wholly_advanced a) (min_order (filter (is_in a.category) fields))
      (is_wholly_advanced b) (min_order (filter (is_in b.category) fields))

min_orders_lem :
    (c : String) (m : List (String × List FieldSpec))
    → get_or 0 (lookup text_discrete c (min_orders m))
      ≡ min_order (get_or [] (lookup text_discrete c m))
unfolding lookup
min_orders_lem c [] = refl
min_orders_lem c ((k, v) ∷ m) = ground (arith, min_orders_lem c m)

comes_before_lem :
    (fields : List FieldSpec) (a b : SectionSpec)
    → comes_before (min_orders (file_fields fields [])) a b ≡ section_before fields a b
comes_before_lem fields a b =
    let m = file_fields fields [] in
    rw (min_orders_lem a.category m, min_orders_lem b.category m)
      (rw (lookup-filed a.category fields, lookup-filed b.category fields) refl)

comes_before-IsOrder : (orders : List (String × ℕ)) → IsOrder (comes_before orders)
comes_before-IsOrder orders = record {
  asym = λ a b. tier_asym (is_wholly_advanced a) (is_wholly_advanced b) _ _;
  trans = λ a b c.
      tier_trans (is_wholly_advanced a) (is_wholly_advanced b) (is_wholly_advanced c) _ _ _;
}

module _ (p : Platform) where
  -- What the sections show together are the leaves of the schema, each exactly once.
  pub compile_schema-Perm :
      (ps : Properties) → Perm (shown_fields (compile_schema p ps)) (leaves p ps "" "")
  unfolding compile_schema sections_of
  compile_schema-Perm ps =
      let fields = walk p ps "" "" [] in
      let m = file_fields fields [] in
      subst (λ l. Perm (shown_fields (sections_of fields)) l) (walk-leaves p ps "" "" [])
        (Perm.trans (shown_fields-sort (comes_before (min_orders m)) (map section_of m))
          (Perm.trans (shown_fields-map m) (file_fields-Perm fields [])))

  -- Each section has the leaves of one category, everyday ones first and each tier by the declaration's order;
  -- and the sections stand by the earliest leaf of their category, wholly advanced ones last.
  pub compile_schema-IsSorted :
      (ps : Properties)
      → All (IsSection (leaves p ps "" "")) (compile_schema p ps)
        × IsSorted (section_before (leaves p ps "" "")) (compile_schema p ps)
  unfolding compile_schema sections_of
  compile_schema-IsSorted ps =
      let fields = walk p ps "" "" [] in
      let orders = min_orders (file_fields fields []) in
      subst
        (λ l.
          All (IsSection l) (sections_of fields) × IsSorted (section_before l) (sections_of fields))
        (walk-leaves p ps "" "" [])
        (
          All-sort (comes_before orders) (IsSection fields) (unsorted fields) (unsorted-All fields),
          IsSorted-map (comes_before orders) (section_before fields) (λ s. Unit {0})
              (sections_of fields) (λ a b x y e. sym (comes_before_lem fields b a) ∙ e)
              (units (sections_of fields))
              (sort-IsSorted (comes_before orders) (comes_before-IsOrder orders) (unsorted fields)),
        )
