-- ===== src/Desktop/Updates/Log.antt =====
-- What the update controller has done in a run: the snapshots it sent and the installers it started
-- (desktop/src/update-controller.ts).
use pixiv_biu.Base.{
  ℕ, ◌+◌, ◌≤◌, zero, suc, ap, concat_nil, ◌≡◌, ◌⊎◌, inl, inr, refl, ◌∙◌, sym, subst, arith, Bool,
  true, false, not, ◌&&◌, ◌||◌, Option, none, some, List, [], ◌∷◌, ◌++◌, String, if◌then◌else◌,
  is_some, Bool-cases, Option-cases, ℤ,
}
use pixiv_biu.Desktop.Updates.Store.{UpdateFormat, PendingUpdate, UpdateInfo, Names, matches_feed}
use pixiv_biu.Desktop.Updates.Controller.{
  UpdateSnapshot, Effect, sent, cancelled, quit_and_install, Controller,
}
use native.Mathlib.Numerals.{add-one}

-- How often `quitAndInstall` was called.
unfoldable pub quits : List Effect → ℕ
quits [] = 0
quits (quit_and_install p i ∷ es) = 1 + quits es
quits (_ ∷ es) = quits es

-- The sequence numbers of the snapshots sent, in their order.
unfoldable pub sequences : List Effect → List ℕ
sequences [] = []
sequences (sent s ∷ es) = s.sequence ∷ sequences es
sequences (_ ∷ es) = sequences es

-- The numbers from 1 to n.
unfoldable pub numbers : ℕ → List ℕ
numbers zero = []
numbers (suc n) = numbers n ++ suc n ∷ []

abbrev pub is_offered : Names → UpdateFormat → Option PendingUpdate → Option UpdateInfo → Bool
is_offered names format (some p) (some info) = matches_feed names p info format
is_offered names format _ _ = false

-- Every `quitAndInstall` was called with a pending update that the offer's feed has.
unfoldable pub are_offered : Names → UpdateFormat → List Effect → Bool
are_offered names format [] = true
are_offered names format (quit_and_install p i ∷ es) =
    is_offered names format p i && are_offered names format es
are_offered names format (_ ∷ es) = are_offered names format es

quits-++ : (es fs : List Effect) → quits (es ++ fs) ≡ quits es + quits fs
unfolding quits
quits-++ [] fs = omega arith
quits-++ (sent s ∷ es) fs = quits-++ es fs
quits-++ (Effect.resumed ∷ es) fs = quits-++ es fs
quits-++ (cancelled ∷ es) fs = quits-++ es fs
quits-++ (quit_and_install p i ∷ es) fs = ground (arith, quits-++ es fs)

sequences-++ : (es fs : List Effect) → sequences (es ++ fs) ≡ sequences es ++ sequences fs
unfolding sequences
sequences-++ [] fs = refl
sequences-++ (sent s ∷ es) fs = ap (λ ns. s.sequence ∷ ns) (sequences-++ es fs)
sequences-++ (Effect.resumed ∷ es) fs = sequences-++ es fs
sequences-++ (cancelled ∷ es) fs = sequences-++ es fs
sequences-++ (quit_and_install p i ∷ es) fs = sequences-++ es fs

are_offered-++ :
    (names : Names) (f : UpdateFormat) (es fs : List Effect)
    → are_offered names f (es ++ fs) ≡ (are_offered names f es && are_offered names f fs)
unfolding are_offered
are_offered-++ names f [] fs = refl
are_offered-++ names f (sent s ∷ es) fs = are_offered-++ names f es fs
are_offered-++ names f (Effect.resumed ∷ es) fs = are_offered-++ names f es fs
are_offered-++ names f (cancelled ∷ es) fs = are_offered-++ names f es fs
are_offered-++ names f (quit_and_install p i ∷ es) fs = ground (arith, are_offered-++ names f es fs)

pub numbers_add_one : (n : ℕ) → numbers (n + 1) ≡ numbers n ++ (n + 1) ∷ []
unfolding numbers
numbers_add_one n = rw (add-one n) refl

pub quits_sent : (es : List Effect) (s : UpdateSnapshot) → quits (es ++ sent s ∷ []) ≡ quits es
unfolding quits
quits_sent es s = ground (arith, quits-++ es (sent s ∷ []))

pub sequences_sent :
    (es : List Effect) (s : UpdateSnapshot)
    → sequences (es ++ sent s ∷ []) ≡ sequences es ++ s.sequence ∷ []
unfolding sequences
sequences_sent es s = sequences-++ es (sent s ∷ [])

pub are_offered_sent :
    (names : Names) (f : UpdateFormat) (es : List Effect) (s : UpdateSnapshot)
    → are_offered names f (es ++ sent s ∷ []) ≡ are_offered names f es
unfolding are_offered
are_offered_sent names f es s = ground (arith, are_offered-++ names f es (sent s ∷ []))

pub quits_resumed : (es : List Effect) → quits (es ++ Effect.resumed ∷ []) ≡ quits es
unfolding quits
quits_resumed es = ground (arith, quits-++ es (Effect.resumed ∷ []))

pub sequences_resumed : (es : List Effect) → sequences (es ++ Effect.resumed ∷ []) ≡ sequences es
unfolding sequences
sequences_resumed es = sequences-++ es (Effect.resumed ∷ []) ∙ concat_nil (sequences es)

pub are_offered_resumed :
    (names : Names) (f : UpdateFormat) (es : List Effect)
    → are_offered names f (es ++ Effect.resumed ∷ []) ≡ are_offered names f es
unfolding are_offered
are_offered_resumed names f es = ground (arith, are_offered-++ names f es (Effect.resumed ∷ []))

pub quits_cancelled : (es : List Effect) → quits (es ++ cancelled ∷ []) ≡ quits es
unfolding quits
quits_cancelled es = ground (arith, quits-++ es (cancelled ∷ []))

pub sequences_cancelled : (es : List Effect) → sequences (es ++ cancelled ∷ []) ≡ sequences es
unfolding sequences
sequences_cancelled es = sequences-++ es (cancelled ∷ []) ∙ concat_nil (sequences es)

pub are_offered_cancelled :
    (names : Names) (f : UpdateFormat) (es : List Effect)
    → are_offered names f (es ++ cancelled ∷ []) ≡ are_offered names f es
unfolding are_offered
are_offered_cancelled names f es = ground (arith, are_offered-++ names f es (cancelled ∷ []))

pub quits_quit :
    (es : List Effect) (p : Option PendingUpdate) (i : Option UpdateInfo)
    → quits (es ++ quit_and_install p i ∷ []) ≡ 1 + quits es
unfolding quits
quits_quit es p i = ground (arith, quits-++ es (quit_and_install p i ∷ []))

pub sequences_quit :
    (es : List Effect) (p : Option PendingUpdate) (i : Option UpdateInfo)
    → sequences (es ++ quit_and_install p i ∷ []) ≡ sequences es
unfolding sequences
sequences_quit es p i = sequences-++ es (quit_and_install p i ∷ []) ∙ concat_nil (sequences es)

pub are_offered_quit :
    (names : Names) (f : UpdateFormat) (es : List Effect) (p : Option PendingUpdate)
    (i : Option UpdateInfo)
    → are_offered names f (es ++ quit_and_install p i ∷ [])
      ≡ (are_offered names f es && is_offered names f p i)
unfolding are_offered
are_offered_quit names f es p i =
    ground (arith, are_offered-++ names f es (quit_and_install p i ∷ []))

-- What one more effect adds to the log.
pub ruleset log_rules = (
  arith, numbers_add_one, quits_sent, sequences_sent, are_offered_sent, quits_resumed,
  sequences_resumed, are_offered_resumed, quits_cancelled, sequences_cancelled,
  are_offered_cancelled, quits_quit, sequences_quit, are_offered_quit,
)

pub record IsLogged (names : Names) (c : Controller) : Type 0 where
  -- One handoff at most, and none before an installation is prepared or given up.
  pub once : quits c.effects ≤ (if c.prepared || c.install_blocked then 1 else 0)
  -- The snapshots sent are numbered from 1 on, without a gap.
  pub ordered : sequences c.effects ≡ numbers c.snapshot.sequence
  pub from_feed : are_offered names c.format c.effects ≡ true
