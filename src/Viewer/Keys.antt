-- ===== src/Viewer/Keys.antt =====
-- The viewer's arrow keys: frontend/src/features/illusts/illust-viewer/viewer-navigation.ts, and their
-- handler in frontend/src/features/illusts/illust-viewer/use-viewer-keyboard.ts.
-- Whether the dialog has the keyboard (`ownsViewerKeyboard`, a test on the DOM) is an argument.
use pixiv_biu.Base.{
  ℕ, suc, ◌+◌, ◌-◌, ◌<◌, ◌≡◌, ◌≢◌, ◌⊎◌, min, Bool, true, false, ◌||◌, not, Option, none, some,
  String, ite, ltb, leb, ◌==◌, if◌then◌else◌, text_discrete, ℤ, pos, negsuc, arith,
}

pub record NavigationKey : Type 0 where
  pub key : String
  pub default_prevented : Bool
  pub is_composing : Bool
  pub repeat : Bool
  pub alt_key : Bool
  pub ctrl_key : Bool
  pub meta_key : Bool
  pub shift_key : Bool

pub record ViewerNavigationState : Type 0 where
  pub is_open : Bool
  pub zoomed : Bool
  pub total : ℕ

-- Where `total` is 0 the source's `total - 1` is -1, and the outer `max` makes it the 0 it is here.
unfoldable pub clamp_viewer_page : ℤ → ℕ → ℕ
clamp_viewer_page (pos page) total = min (total - 1) page
clamp_viewer_page (negsuc _) total = 0

unfoldable pub viewer_key_step : NavigationKey → ViewerNavigationState → Option ℤ
viewer_key_step e nav =
    if not nav.is_open
      || nav.zoomed
      || leb nav.total 1
      || e.default_prevented
      || e.is_composing
      || e.repeat
      || e.alt_key
      || e.ctrl_key
      || e.meta_key
      || e.shift_key
    then none
    else ite (text_discrete e.key "ArrowLeft") (some (negsuc 0))
        (ite (text_discrete e.key "ArrowRight") (some (pos 1)) none)

-- `active + delta`.
unfoldable pub shift : ℕ → ℤ → ℤ
shift active (pos d) = pos (active + d)
shift active (negsuc d) = if ltb d active then pos (active - suc d) else negsuc (d - active)

-- `onKeyDown`: the step that it takes, if any.
unfoldable pub on_key_down : ViewerNavigationState → Bool → ℕ → NavigationKey → Option ℤ
on_key_down nav owns active e =
    if not nav.is_open || nav.zoomed || leb nav.total 1
    then none
    else elim (viewer_key_step e nav) [
      | none ↦ none
      | some d ↦
          if not owns
          then none
          else if clamp_viewer_page (shift active d) nav.total == active
          then none
          else some d
    ]

-- From a page that exists, a key moves the viewer only while it is open, not zoomed, and has the
-- keyboard; then the page it goes to exists and is the one after the active page, by the right arrow,
-- or the one before it, by the left.
pub on_key_down-moves :
    (nav : ViewerNavigationState) (owns : Bool) (active : ℕ) (e : NavigationKey) (d : ℤ)
    → active < nav.total
    → on_key_down nav owns active e ≡ some d
    → ((nav.is_open ≡ true) × (nav.zoomed ≡ false) × (owns ≡ true))
      × (clamp_viewer_page (shift active d) nav.total < nav.total)
      × (((e.key ≡ "ArrowRight") × (clamp_viewer_page (shift active d) nav.total ≡ active + 1))
          ⊎ ((e.key ≡ "ArrowLeft") × (clamp_viewer_page (shift active d) nav.total + 1 ≡ active)))
unfolding on_key_down viewer_key_step shift clamp_viewer_page
on_key_down-moves nav owns active e d h m = ground arith

-- No modifier is held, and no one else has the event.
abbrev pub is_plain : NavigationKey → Bool
is_plain e = not (
    e.default_prevented || e.is_composing || e.repeat || e.alt_key || e.ctrl_key || e.meta_key
    || e.shift_key)

arrows_apart : ◌≢◌ {A = String} "ArrowRight" "ArrowLeft"
unfolding text_discrete
arrows_apart p = cc

viewer_key_step-arrow :
    (nav : ViewerNavigationState) (e : NavigationKey) (forward : Bool)
    → nav.is_open ≡ true
    → nav.zoomed ≡ false
    → is_plain e ≡ true
    → e.key ≡ (if forward then "ArrowRight" else "ArrowLeft")
    → 1 < nav.total
    → viewer_key_step e nav ≡ some (if forward then pos 1 else negsuc 0)
unfolding viewer_key_step
viewer_key_step-arrow nav e true o z plain k h = ground (arith, arrows_apart)
viewer_key_step-arrow nav e false o z plain k h = ground arith

-- In an open viewer that is not zoomed and has the keyboard, a plain arrow key (the right one if
-- `forward`) on a page that exists steps wherever there is a page on that side.
pub on_key_down-arrow :
    (nav : ViewerNavigationState) (active : ℕ) (e : NavigationKey) (forward : Bool)
    → nav.is_open ≡ true
    → nav.zoomed ≡ false
    → is_plain e ≡ true
    → e.key ≡ (if forward then "ArrowRight" else "ArrowLeft")
    → active < nav.total
    → (if forward then active + 1 < nav.total else 0 < active)
    → on_key_down nav true active e ≡ some (if forward then pos 1 else negsuc 0)
unfolding on_key_down shift clamp_viewer_page
on_key_down-arrow nav active e true o z plain k h room =
    let key_step = viewer_key_step-arrow nav e true o z plain k (omega arith) in ground arith
on_key_down-arrow nav active e false o z plain k h room =
    let key_step = viewer_key_step-arrow nav e false o z plain k (omega arith) in ground arith
