-- ===== src/Settings/Runs.antt =====
-- Any calls and views, in any order (frontend/src/features/settings/use-config-form.ts).
use pixiv_biu.Base.{
  ◌≡◌, refl, sym, subst, arith, Bool, true, false, not, Option, none, some, List, [], ◌∷◌, String,
  if◌then◌else◌, text_discrete, insert, lookup-insert, All, All-map, Distinct,
}
use pixiv_biu.Settings.Types.{FieldSpec, ConfigView, Platform}
use pixiv_biu.Settings.Form.{
  Messages, Answer, answered, failed, empty, Form, new_form, keys_of, set_value, discard,
}
use pixiv_biu.Settings.Calls.{
  Checked, reconcile, apply_view, load, save_checked, begin_save, end_save, begin_reset, end_reset,
  begin_reset_all, end_reset_all, is_empty, targets_of,
}
use pixiv_biu.Settings.Coherent.{
  core, Follows, Seen, Seen-later, Shown, IsCoherent, load-IsCoherent, reconcile-IsCoherent,
  apply_view-IsCoherent,
}

-- `shown_again` is a run of the effect on the same view.
pub data Event : Type 0 where
  loaded : List FieldSpec → ConfigView → Event
  refetched : ConfigView → Event
  shown_again discarded save_begun reset_all_begun : Event
  edited : String → String → Event
  reset_begun : List String → Event
  save_ended reset_ended reset_all_ended : List String → Answer → Event

module _ (p : Platform) where
  pub core-IsCoherent : (s t : Form) → core t ≡ core s → IsCoherent p s → IsCoherent p t
  core-IsCoherent s t e c = record {
    distinct = subst (λ u. Distinct text_discrete (keys_of u.fields)) (sym e) c.distinct;
    seen = subst (λ u. Seen p u.reconciled u) (sym e) c.seen;
    shown = subst (λ u. Shown p u.view u) (sym e) c.shown;
  }

  revalued :
      (o : Option ConfigView) (values : List (String × String)) (s : Form)
      → ((view : ConfigView) (f : FieldSpec)
          → Follows p view (core s) f
          → Follows p view (record (core s) { values = values }) f)
      → Shown p o (core s)
      → Shown p o (record (core s) { values = values })
  revalued none values s h e = e
  revalued (some view) values s h (r, a) = (r, All-map _ _ s.fields (h view) a)

  set_value-IsCoherent :
      (key value : String) (s : Form) → IsCoherent p s → IsCoherent p (set_value key value s)
  unfolding set_value
  set_value-IsCoherent key value s c = record {
    distinct = c.distinct;
    seen =
        Seen-later p s.reconciled (core s) (core (set_value key value s)) c.seen (omega arith)
          (omega arith);
    shown =
        revalued s.view (insert text_discrete key value s.values) s
          (λ view f h. (h.0, ground (arith, lookup-insert text_discrete f.key key value s.values)))
          c.shown;
  }

  discard-IsCoherent : (s : Form) → IsCoherent p s → IsCoherent p (discard s)
  unfolding discard
  discard-IsCoherent s c = record {
    distinct = c.distinct;
    seen = Seen-later p s.reconciled (core s) (core (discard s)) c.seen (omega arith) (omega arith);
    shown = revalued s.view s.baseline s (λ view f h. (h.0, ground arith)) c.shown;
  }

  ite_IsCoherent :
      (b : Bool) {s t : Form} → IsCoherent p s → IsCoherent p t → IsCoherent p (if b then s else t)
  ite_IsCoherent true c d = c
  ite_IsCoherent false c d = d

  module _ (m : Messages) where
    unfoldable pub handle : Event → Form → Form
    handle (loaded fields view) s = load p fields view s
    handle (refetched view) s = apply_view p view s
    handle shown_again s = reconcile p s
    handle (edited key value) s = set_value key value s
    handle discarded s = discard s
    handle save_begun s = begin_save p m s
    handle (save_ended known answer) s = end_save p m known answer s
    handle (reset_begun keys) s = begin_reset p m keys s
    handle (reset_ended targets answer) s = end_reset p m targets answer s
    handle reset_all_begun s = begin_reset_all p m s
    handle (reset_all_ended keys answer) s = end_reset_all p m keys answer s

    unfoldable pub handle_all : List Event → Form → Form
    handle_all [] s = s
    handle_all (e ∷ es) s = handle_all es (handle e s)

    end_save-IsCoherent :
        (known : List String) (answer : Answer) (s : Form)
        → IsCoherent p s
        → IsCoherent p (end_save p m known answer s)
    unfolding end_save
    end_save-IsCoherent known (answered next) s c =
        apply_view-IsCoherent p next _ (core-IsCoherent s _ refl c)
    end_save-IsCoherent known (failed error) s c = core-IsCoherent s _ refl c
    end_save-IsCoherent known empty s c = core-IsCoherent s _ refl c

    save_checked-IsCoherent :
        (c : Checked) (s : Form) → IsCoherent p s → IsCoherent p (save_checked p m c s)
    unfolding save_checked
    save_checked-IsCoherent c s v =
        ite_IsCoherent (not (is_empty c.errors)) (core-IsCoherent s _ refl v)
          (ite_IsCoherent (is_empty c.body) v (core-IsCoherent s _ refl v))

    end_reset-IsCoherent :
        (targets : List String) (answer : Answer) (s : Form)
        → IsCoherent p s
        → IsCoherent p (end_reset p m targets answer s)
    unfolding end_reset
    end_reset-IsCoherent targets (answered next) s c =
        apply_view-IsCoherent p next _ (core-IsCoherent s _ refl c)
    end_reset-IsCoherent targets (failed error) s c = core-IsCoherent s _ refl c
    end_reset-IsCoherent targets empty s c = core-IsCoherent s _ refl c

    end_reset_all-IsCoherent :
        (keys : List String) (answer : Answer) (s : Form)
        → IsCoherent p s
        → IsCoherent p (end_reset_all p m keys answer s)
    unfolding end_reset_all
    end_reset_all-IsCoherent keys (answered next) s c =
        apply_view-IsCoherent p next _ (core-IsCoherent s _ refl c)
    end_reset_all-IsCoherent keys (failed error) s c = core-IsCoherent s _ refl c
    end_reset_all-IsCoherent keys empty s c = core-IsCoherent s _ refl c

    -- The keys of the fields that are loaded are distinct.
    abbrev pub IsProper : Event → Type 0
    IsProper (loaded fields view) = Distinct text_discrete (keys_of fields)
    IsProper _ = Unit

    handle-IsCoherent :
        (e : Event) (s : Form) → IsProper e → IsCoherent p s → IsCoherent p (handle e s)
    unfolding handle begin_save begin_reset begin_reset_all reconcile
    handle-IsCoherent (loaded fields view) s d c = load-IsCoherent p fields view s d c
    handle-IsCoherent (refetched view) s d c = apply_view-IsCoherent p view s c
    handle-IsCoherent shown_again s d c = reconcile-IsCoherent p s.view s refl c
    handle-IsCoherent (edited key value) s d c = set_value-IsCoherent key value s c
    handle-IsCoherent discarded s d c = discard-IsCoherent s c
    handle-IsCoherent save_begun s d c = save_checked-IsCoherent _ s c
    handle-IsCoherent (save_ended known answer) s d c = end_save-IsCoherent known answer s c
    handle-IsCoherent (reset_begun keys) s d c =
        ite_IsCoherent (is_empty (targets_of p m keys s)) c (core-IsCoherent s _ refl c)
    handle-IsCoherent (reset_ended targets answer) s d c = end_reset-IsCoherent targets answer s c
    handle-IsCoherent reset_all_begun s d c = core-IsCoherent s _ refl c
    handle-IsCoherent (reset_all_ended keys answer) s d c = end_reset_all-IsCoherent keys answer s c

    handled-IsCoherent :
        (es : List Event) (s : Form)
        → All IsProper es
        → IsCoherent p s
        → IsCoherent p (handle_all es s)
    unfolding handle_all
    handled-IsCoherent [] s d c = c
    handled-IsCoherent (e ∷ es) s d c =
        handled-IsCoherent es (handle e s) d.1 (handle-IsCoherent e s d.0 c)

    -- In any run that loads fields with distinct keys, every field shown has a value, and its baseline is
    -- what the view in hand gives; the view and the fields have been reconciled unless no field is shown.
    pub handle_all-IsCoherent :
        (es : List Event) → All IsProper es → IsCoherent p (handle_all es new_form)
    handle_all-IsCoherent es d =
        handled-IsCoherent es new_form d (record { distinct = tt; seen = tt; shown = refl })
