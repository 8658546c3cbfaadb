-- ===== src/Settings/Reconciled.antt =====
-- What the effect of frontend/src/features/settings/use-config-form.ts leaves in the form.
use pixiv_biu.Base.{
  ◌≡◌, refl, arith, true, false, Option, some, List, [], ◌∷◌, String, if◌then◌else◌, ite,
  text_discrete, lookup, insert, lookup-insert, includes, All, Distinct,
}
use pixiv_biu.Settings.Types.{FieldSpec, ConfigView, Platform}
use pixiv_biu.Settings.Values.{baseline_string}
use pixiv_biu.Settings.Form.{Form, keys_of}
use pixiv_biu.Settings.Calls.{baseline_from, resyncs, settle_value, settle_values}

module _ (p : Platform) where
  -- The value of a field after the effect, where `kept` is the one before.
  abbrev pub settled : ConfigView → Form → FieldSpec → Option String → Option String
  settled view s f kept =
      if f.sensitive
      then some ""
      else if resyncs s.pending_discard (lookup text_discrete f.key s.values)
          (lookup text_discrete f.key s.baseline) f.key
      then some (baseline_string p f (some view))
      else kept

  lookup-settle_value :
      (key : String) (view : ConfigView) (s : Form) (f : FieldSpec) (next : List (String × String))
      → lookup text_discrete key (settle_value p view s f next)
        ≡ ite
            (text_discrete f.key key)
            (settled view s f (lookup text_discrete f.key next))
            (lookup text_discrete key next)
  unfolding settle_value
  lookup-settle_value key view s f next = ground (
    arith,
    lookup-insert text_discrete key f.key "" next,
    lookup-insert text_discrete key f.key (baseline_string p f (some view)) next,
  )

  settle_values-absent :
      (key : String) (view : ConfigView) (s : Form) (fs : List FieldSpec)
      (next : List (String × String))
      → includes text_discrete key (keys_of fs) ≡ false
      → lookup text_discrete key (settle_values p view s fs next) ≡ lookup text_discrete key next
  unfolding settle_values
  settle_values-absent key view s [] next h = refl
  settle_values-absent key view s (f ∷ fs) next h = ground (
    arith,
    settle_values-absent key view s fs (settle_value p view s f next),
    lookup-settle_value key view s f next,
  )

  -- Each field's value over `next` is as it was in the form.
  abbrev Agrees : Form → List FieldSpec → List (String × String) → Type 0
  Agrees s fs next =
      (key : String)
      → includes text_discrete key (keys_of fs) ≡ true
      → lookup text_discrete key next ≡ lookup text_discrete key s.values

  pub settle_values-All :
      (view : ConfigView) (s : Form) (fs : List FieldSpec) (next : List (String × String))
      → Distinct text_discrete (keys_of fs)
      → Agrees s fs next
      → All
          (λ f.
            lookup text_discrete f.key (settle_values p view s fs next)
            ≡ settled view s f (lookup text_discrete f.key s.values))
          fs
  unfolding settle_values
  settle_values-All view s [] next d a = tt
  settle_values-All view s (f ∷ fs) next d a = (
    ground (
      arith,
      settle_values-absent f.key view s fs (settle_value p view s f next),
      lookup-settle_value f.key view s f next,
      a f.key,
    ),
    settle_values-All view s fs (settle_value p view s f next) d.1
        (λ key h. ground (arith, lookup-settle_value key view s f next, a key)),
  )

  baseline_from-absent :
      (key : String) (view : ConfigView) (fs : List FieldSpec) (next : List (String × String))
      → includes text_discrete key (keys_of fs) ≡ false
      → lookup text_discrete key (baseline_from p view fs next) ≡ lookup text_discrete key next
  unfolding baseline_from
  baseline_from-absent key view [] next h = refl
  baseline_from-absent key view (f ∷ fs) next h = ground (
    arith,
    baseline_from-absent key view fs
        (insert text_discrete f.key (baseline_string p f (some view)) next),
    lookup-insert text_discrete key f.key (baseline_string p f (some view)) next,
  )

  pub baseline_from-All :
      (view : ConfigView) (fs : List FieldSpec) (next : List (String × String))
      → Distinct text_discrete (keys_of fs)
      → All
          (λ f.
            lookup text_discrete f.key (baseline_from p view fs next)
            ≡ some (baseline_string p f (some view)))
          fs
  unfolding baseline_from
  baseline_from-All view [] next d = tt
  baseline_from-All view (f ∷ fs) next d =
      let v = baseline_string p f (some view) in
      (
        ground (
          arith,
          baseline_from-absent f.key view fs (insert text_discrete f.key v next),
          lookup-insert text_discrete f.key f.key v next,
        ),
        baseline_from-All view fs (insert text_discrete f.key v next) d.1,
      )
