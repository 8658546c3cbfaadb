-- ===== src/Settings/Saved.antt =====
-- What a new view does to the user's edits (frontend/src/features/settings/use-config-form.ts).
use pixiv_biu.Base.{
  ◌≡◌, refl, sym, subst, arith, Bool, true, false, not, ◌&&◌, Option, none, some, List, [], String,
  if◌then◌else◌, text_discrete, lookup, includes, All, All-map, All-both, Distinct, is_some,
  Bool-cases, inl, inr, filter, filter-All, ap,
}
use pixiv_biu.Settings.Types.{FieldSpec, ConfigView, Platform}
use pixiv_biu.Settings.Values.{baseline_string}
use pixiv_biu.Settings.Form.{Messages, answered, Form, same_value, keys_of, is_dirty, dirty_keys}
use pixiv_biu.Settings.Calls.{
  baseline_from, settle_values, reconcile_now, reconcile, reconcile_at, apply_view, same_view,
  with_view, is_empty, end_save,
}
use pixiv_biu.Settings.Reconciled.{settled, settle_values-All, baseline_from-All}
use pixiv_biu.Settings.Runs.{core-IsCoherent}
use pixiv_biu.Settings.Coherent.{core, IsCoherent, All-empty, is_reconciled-new}

-- The edits that survive a new view: of no secret, not to be discarded, and away from the baseline.
abbrev pub keeps_edit : Form → FieldSpec → Bool
keeps_edit s f =
    not f.sensitive
    && not (includes text_discrete f.key s.pending_discard)
    && is_some (lookup text_discrete f.key s.values)
    && is_dirty s.values s.baseline f

module _ (p : Platform) where
  -- What a field shows and has as its baseline under a new view.
  abbrev pub Adopts : ConfigView → Form → Form → FieldSpec → Type 0
  Adopts next s t f =
      (lookup text_discrete f.key t.values ≡ (
        if keeps_edit s f
        then lookup text_discrete f.key s.values
        else some (baseline_string p f (some next))))
      × (lookup text_discrete f.key t.baseline ≡ some (baseline_string p f (some next)))

  reconcile_now-Adopts :
      (next : ConfigView) (s : Form) (f : FieldSpec)
      → (lookup text_discrete f.key (settle_values p next s s.fields s.values)
          ≡ settled p next s f (lookup text_discrete f.key s.values))
        × (lookup text_discrete f.key (baseline_from p next s.fields [])
            ≡ some (baseline_string p f (some next)))
      → Adopts next s (reconcile_now p next s) f
  unfolding reconcile_now baseline_string
  reconcile_now-Adopts next s f (a, b) = (ground arith, b)

  reconcile_now-All :
      (next : ConfigView) (s : Form)
      → Distinct text_discrete (keys_of s.fields)
      → All (Adopts next s (reconcile_now p next s)) s.fields
  reconcile_now-All next s d = All-map _ _ s.fields (reconcile_now-Adopts next s) (
      All-both _ _ s.fields (settle_values-All p next s s.fields s.values d (λ key h. refl))
        (baseline_from-All p next s.fields [] d))

  new_view :
      (next : ConfigView) (s : Form)
      → same_view p s.view next ≡ false
      → IsCoherent p s
      → is_empty s.fields ≡ false
      → apply_view p next s ≡ reconcile_now p next (with_view next s)
  unfolding apply_view reconcile
  new_view next s n c f =
      rw (n, reconcile_at)
        (rw (f, is_reconciled-new p s.reconciled (core s) (with_view next s) c.seen (omega arith))
          refl)

  -- When a view arrives that differs from the one in hand, in a form as any run leaves it: every field has
  -- the view's value as its baseline and shows it too, unless the user has edited it, it is no secret and
  -- it was not reset; then it goes on showing the edit.
  pub apply_view-All :
      (next : ConfigView) (s : Form)
      → IsCoherent p s
      → same_view p s.view next ≡ false
      → All (Adopts next s (apply_view p next s)) s.fields
  apply_view-All next s c n = elim (Bool-cases (is_empty s.fields)) [
    | inl none_shown ↦ All-empty p (Adopts next s (apply_view p next s)) s.fields none_shown
    | inr f ↦
        subst (λ t. All (Adopts next s t) s.fields) (sym (new_view next s n c f))
          (reconcile_now-All next (with_view next s) c.distinct)
  ]

  fields-reconcile_at : (o : Option ConfigView) (s : Form) → (reconcile_at p o s).fields ≡ s.fields
  unfolding reconcile_now
  fields-reconcile_at none s = refl
  fields-reconcile_at (some view) s = ground arith

  fields-adopt :
      (b : Bool) (next : ConfigView) (s : Form)
      → (reconcile p (if b then s else with_view next s)).fields ≡ s.fields
  unfolding reconcile
  fields-adopt true next s = fields-reconcile_at s.view s
  fields-adopt false next s = fields-reconcile_at (some next) (with_view next s)

  fields-apply_view : (next : ConfigView) (s : Form) → (apply_view p next s).fields ≡ s.fields
  unfolding apply_view
  fields-apply_view next s = fields-adopt (same_view p s.view next) next s

  -- The edits that survive and differ from the new view.
  abbrev pub stays_dirty : ConfigView → Form → FieldSpec → Bool
  stays_dirty next s f =
      keeps_edit s f
      && not (
          same_value (lookup text_discrete f.key s.values) (some (baseline_string p f (some next))))

  is_dirty_of :
      (next : ConfigView) (s t : Form) (f : FieldSpec)
      → Adopts next s t f
      → is_dirty t.values t.baseline f ≡ stays_dirty next s f
  is_dirty_of next s t f (a, b) = ground arith

  dirty_keys-apply_view :
      (next : ConfigView) (s : Form)
      → IsCoherent p s
      → same_view p s.view next ≡ false
      → dirty_keys (apply_view p next s) ≡ keys_of (filter (stays_dirty next s) s.fields)
  unfolding dirty_keys
  dirty_keys-apply_view next s c n =
      let t = apply_view p next s in
      rw (fields-apply_view next s) (
        ap keys_of (
          filter-All (is_dirty t.values t.baseline) (stays_dirty next s) s.fields (
            All-map (Adopts next s t) _ s.fields (is_dirty_of next s t)
              (apply_view-All next s c n))))

  module _ (m : Messages) where
    -- When a save is answered by a view that differs from the one in hand, in a form as any run leaves it:
    -- what counts as unsaved are exactly the edits of fields that are no secrets and were not reset, whose
    -- text is not the very one that the new view gives.
    pub dirty_keys-end_save :
        (known : List String) (next : ConfigView) (s : Form)
        → IsCoherent p s
        → same_view p s.view next ≡ false
        → dirty_keys (end_save p m known (answered next) s)
          ≡ keys_of (filter (stays_dirty next s) s.fields)
    unfolding end_save
    dirty_keys-end_save known next s c n =
        dirty_keys-apply_view next _ (core-IsCoherent p s _ refl c) n
