-- ===== src/Settings/Bounds.antt =====
-- What `validateClient` lets pass (frontend/src/features/settings/values.ts).
use pixiv_biu.Base.{◌≡◌, subst, arith, false, Option, none, some, String, ℤ, lt_int}
use pixiv_biu.Settings.Json.{Number, whole, fractional, infinite, nan, number}
use pixiv_biu.Settings.Types.{integer, FieldSpec, Platform}
use pixiv_biu.Settings.Values.{check_max, check_min, check_number, to_patch_value, validate_client}

abbrev pub IsAbove : Option ℤ → ℤ → Type 0
IsAbove none n = Unit
IsAbove (some minimum) n = lt_int n minimum ≡ false

abbrev pub IsBelow : Option ℤ → ℤ → Type 0
IsBelow none n = Unit
IsBelow (some maximum) n = lt_int maximum n ≡ false

check_max-IsBelow : (maximum : Option ℤ) (n : ℤ) → check_max maximum n ≡ none → IsBelow maximum n
check_max-IsBelow none n h = tt
check_max-IsBelow (some maximum) n h = ground arith

check_min_bounds :
    (minimum maximum : Option ℤ) (n : ℤ)
    → check_min minimum maximum n ≡ none
    → IsAbove minimum n × IsBelow maximum n
check_min_bounds none maximum n h = (tt, check_max-IsBelow maximum n h)
check_min_bounds (some minimum) maximum n h =
    (ground arith, check_max-IsBelow maximum n (ground arith))

-- A number that is let pass is whole and within the bounds.
abbrev pub IsInRange : FieldSpec → Number → Type 0
IsInRange f (whole n) = IsAbove f.minimum n × IsBelow f.maximum n
IsInRange f _ = ⊥

check_number-IsInRange : (f : FieldSpec) (n : Number) → check_number f n ≡ none → IsInRange f n
check_number-IsInRange f (whole n) h = check_min_bounds f.minimum f.maximum n h
check_number-IsInRange f (fractional n) h = cc
check_number-IsInRange f infinite h = cc
check_number-IsInRange f nan h = cc

module _ (p : Platform) where
  -- Where white space around a text does not change its number: the number that an integer field sends for a
  -- text that is let pass is whole and within the field's bounds.
  pub validate_client-IsInRange :
      (f : FieldSpec) (v : String)
      → f.kind ≡ integer
      → p.to_number (p.trim v) ≡ p.to_number v
      → validate_client p f v ≡ none
      → (n : Number) × (to_patch_value p f v ≡ number n) × IsInRange f n
  unfolding validate_client to_patch_value
  validate_client-IsInRange f v k t h = (
    p.to_number v,
    ground arith,
    subst (IsInRange f) t (check_number-IsInRange f (p.to_number (p.trim v)) (ground arith)),
  )
