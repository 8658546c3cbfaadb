-- ===== src/Settings/Coherent.antt =====
-- The form's baseline and values belong to the view in hand, in any run
-- (frontend/src/features/settings/use-config-form.ts).
use pixiv_biu.Base.{
  ℕ, ◌≡◌, ◌≤◌, ◌<◌, refl, arith, Bool, true, false, ◌||◌, Option, none, some, List, [], ◌∷◌,
  if◌then◌else◌, text_discrete, lookup, All, All-map, All-both, Distinct, is_some, sym, subst,
}
use pixiv_biu.Settings.Types.{FieldSpec, ConfigView, Platform}
use pixiv_biu.Settings.Values.{baseline_string}
use pixiv_biu.Settings.Form.{Form, new_form, keys_of}
use pixiv_biu.Settings.Calls.{
  baseline_from, settle_values, reconcile_now, reconcile, reconcile_at, is_reconciled, is_empty,
  apply_view, load, same_view, with_view, with_fields,
}
use pixiv_biu.Settings.Reconciled.{settled, settle_values-All, baseline_from-All}

-- The part of the form that the effect compares.
abbrev pub core : Form → Form
core s = record new_form {
  view = s.view;
  view_number = s.view_number;
  fields = s.fields;
  fields_number = s.fields_number;
  baseline = s.baseline;
  values = s.values;
  reconciled = s.reconciled;
}

module _ (p : Platform) where
  -- A field has a value, and its baseline is what the view gives.
  abbrev pub Follows : ConfigView → Form → FieldSpec → Type 0
  Follows view s f =
      (lookup text_discrete f.key s.baseline ≡ some (baseline_string p f (some view)))
      × (is_some (lookup text_discrete f.key s.values) ≡ true)

  abbrev pub Seen : Option (ℕ × ℕ) → Form → Type 0
  Seen none s = Unit
  Seen (some (view, fields)) s = (view ≤ s.view_number) × (fields ≤ s.fields_number)

  abbrev pub Shown : Option ConfigView → Form → Type 0
  Shown none s = s.fields ≡ []
  Shown (some view) s =
      (is_empty s.fields || is_reconciled s s.reconciled ≡ true) × All (Follows view s) s.fields

  pub record IsCoherent (s : Form) : Type 0 where
    pub distinct : Distinct text_discrete (keys_of s.fields)
    pub seen : Seen s.reconciled (core s)
    pub shown : Shown s.view (core s)

  reconcile_now-Follows :
      (view : ConfigView) (s : Form) (f : FieldSpec)
      → (lookup text_discrete f.key (settle_values p view s s.fields s.values)
          ≡ settled p view s f (lookup text_discrete f.key s.values))
        × (lookup text_discrete f.key (baseline_from p view s.fields [])
            ≡ some (baseline_string p f (some view)))
      → Follows view (reconcile_now p view s) f
  unfolding reconcile_now
  reconcile_now-Follows view s f (a, b) = (b, ground arith)

  reconcile_now-IsCoherent :
      (view : ConfigView) (s : Form)
      → s.view ≡ some view
      → Distinct text_discrete (keys_of s.fields)
      → IsCoherent (reconcile_now p view s)
  unfolding reconcile_now
  reconcile_now-IsCoherent view s e d = record {
    distinct = d;
    seen = (omega arith, omega arith);
    shown =
        subst (λ o. Shown o (core (reconcile_now p view s))) (sym e)
          (
            ground arith,
            All-map _ _ s.fields (reconcile_now-Follows view s) (
                All-both _ _ s.fields
                  (settle_values-All p view s s.fields s.values d (λ key h. refl))
                  (baseline_from-All p view s.fields [] d)),
          );
  }

  pub All-empty : (P : FieldSpec → Type 0) (fs : List FieldSpec) → is_empty fs ≡ true → All P fs
  All-empty P [] e = tt
  All-empty P (f ∷ fs) e = cc

  skip-IsCoherent :
      (b : Bool) {s t : Form}
      → (b ≡ true → IsCoherent s)
      → (b ≡ false → IsCoherent t)
      → IsCoherent (if b then s else t)
  skip-IsCoherent true f g = f refl
  skip-IsCoherent false f g = g refl

  -- The effect on a form whose view or fields are new.
  fresh-IsCoherent :
      (view : ConfigView) (s : Form)
      → s.view ≡ some view
      → Distinct text_discrete (keys_of s.fields)
      → Seen s.reconciled (core s)
      → is_reconciled s s.reconciled ≡ false
      → IsCoherent (reconcile_at p (some view) s)
  fresh-IsCoherent view s e d seen r =
      skip-IsCoherent (is_empty s.fields || is_reconciled s s.reconciled)
        (λ h. record {
          distinct = d;
          seen = seen;
          shown =
              subst (λ o. Shown o (core s)) (sym e)
                (h, All-empty (Follows view (core s)) s.fields (ground arith));
        })
        (λ h. reconcile_now-IsCoherent view s e d)

  pub is_reconciled-new :
      (o : Option (ℕ × ℕ)) (s t : Form)
      → Seen o s
      → s.view_number < t.view_number
      → is_reconciled t o ≡ false
  is_reconciled-new none s t h l = refl
  is_reconciled-new (some (view, fields)) s t h l = ground arith

  pub Seen-later :
      (o : Option (ℕ × ℕ)) (s t : Form)
      → Seen o s
      → s.view_number ≤ t.view_number
      → s.fields_number ≤ t.fields_number
      → Seen o t
  Seen-later none s t h k l = tt
  Seen-later (some (view, fields)) s t h k l = (omega arith, omega arith)

  pub load-IsCoherent :
      (fields : List FieldSpec) (view : ConfigView) (s : Form)
      → Distinct text_discrete (keys_of fields)
      → IsCoherent s
      → IsCoherent (load p fields view s)
  unfolding load reconcile
  load-IsCoherent fields view s d c =
      let t = with_view view (with_fields fields s) in
      fresh-IsCoherent view t refl d
        (Seen-later s.reconciled (core s) (core t) c.seen (omega arith) (omega arith))
        (is_reconciled-new s.reconciled (core s) t c.seen (omega arith))

  pub reconcile-IsCoherent :
      (o : Option ConfigView) (s : Form)
      → s.view ≡ o
      → IsCoherent s
      → IsCoherent (reconcile_at p o s)
  reconcile-IsCoherent none s e c = c
  reconcile-IsCoherent (some view) s e c =
      skip-IsCoherent (is_empty s.fields || is_reconciled s s.reconciled) (λ h. c)
        (λ h. reconcile_now-IsCoherent view s e c.distinct)

  adopt-IsCoherent :
      (b : Bool) (next : ConfigView) (s : Form)
      → IsCoherent s
      → IsCoherent (reconcile p (if b then s else with_view next s))
  unfolding reconcile
  adopt-IsCoherent true next s c = reconcile-IsCoherent s.view s refl c
  adopt-IsCoherent false next s c =
      let t = with_view next s in
      fresh-IsCoherent next t refl c.distinct
        (Seen-later s.reconciled (core s) (core t) c.seen (omega arith) (omega arith))
        (is_reconciled-new s.reconciled (core s) t c.seen (omega arith))

  pub apply_view-IsCoherent :
      (next : ConfigView) (s : Form) → IsCoherent s → IsCoherent (apply_view p next s)
  unfolding apply_view
  apply_view-IsCoherent next s c = adopt-IsCoherent (same_view p s.view next) next s c
