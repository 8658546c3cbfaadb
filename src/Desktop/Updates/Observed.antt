-- ===== src/Desktop/Updates/Observed.antt =====
-- What the page has of the controller's snapshots (frontend/src/features/system/desktop-update-state.ts
-- with desktop/src/update-controller.ts).
use pixiv_biu.Base.{
  ℕ, zero, suc, ◌≤◌, ◌==◌, ◌≡◌, refl, ap, sym, ◌∙◌, arith, Bool, true, false, ◌&&◌, ◌||◌, Option,
  none, some, List, [], ◌∷◌, ◌++◌, String, leb, map,
}
use pixiv_biu.Desktop.Updates.Store.{UpdateFormat, StoredUpdates, Names}
use pixiv_biu.Desktop.Updates.Controller.{InstallMode, UpdateSnapshot, Controller, Effect, sent}
use pixiv_biu.Desktop.Updates.Events.{Event}
use pixiv_biu.Desktop.Updates.Observe.{snapshot, Observer, new_observer, deliver}
use pixiv_biu.Desktop.Updates.Log.{sequences, numbers}
use pixiv_biu.Desktop.Updates.Runs.{reached, sequences-reached}
use pixiv_biu.Desktop.Updates.Arrivals.{
  Arrival, status, observe, observe_all, is_rising, last_of, observe_all-IsRising,
}

-- The snapshots that the controller sent, in their order.
unfoldable pub snapshots : List Effect → List UpdateSnapshot
snapshots [] = []
snapshots (sent s ∷ es) = s ∷ snapshots es
snapshots (_ ∷ es) = snapshots es

snapshots-sequences : (es : List Effect) → map (λ s. s.sequence) (snapshots es) ≡ sequences es
unfolding snapshots sequences
snapshots-sequences [] = refl
snapshots-sequences (sent s ∷ es) = ap (λ ns. s.sequence ∷ ns) (snapshots-sequences es)
snapshots-sequences (Effect.resumed ∷ es) = snapshots-sequences es
snapshots-sequences (Effect.cancelled ∷ es) = snapshots-sequences es
snapshots-sequences (Effect.quit_and_install p i ∷ es) = snapshots-sequences es

abbrev at_most : ℕ → List UpdateSnapshot → Bool
at_most n [] = true
at_most n (s ∷ ss) = leb s.sequence n && at_most n ss

abbrev has : ℕ → List UpdateSnapshot → Bool
has n [] = false
has n (s ∷ ss) = (s.sequence == n) || has n ss

module _ (version : String) (mode : InstallMode) where
  abbrev pub arrivals_of : List UpdateSnapshot → List Arrival
  arrivals_of [] = []
  arrivals_of (s ∷ ss) = status (snapshot version mode s) ∷ arrivals_of ss

  abbrev is_below : Option ℕ → ℕ → Bool
  is_below none n = true
  is_below (some m) n = leb m n

  abbrev is_at : Option ℕ → ℕ → Bool
  is_at none n = false
  is_at (some m) n = m == n

  deliver-alive :
      (s : UpdateSnapshot) (o : Observer)
      → o.alive ≡ true
      → (deliver (snapshot version mode s) o).alive ≡ true
  unfolding deliver
  deliver-alive s o v = ground arith

  deliver-is_below :
      (n : ℕ) (s : UpdateSnapshot) (o : Observer)
      → leb s.sequence n ≡ true
      → is_below o.sequence n ≡ true
      → is_below (deliver (snapshot version mode s) o).sequence n ≡ true
  unfolding deliver
  deliver-is_below n s o m b = ground arith

  deliver-is_at :
      (n : ℕ) (s : UpdateSnapshot) (o : Observer) (later : Bool)
      → o.alive ≡ true
      → leb s.sequence n ≡ true
      → is_below o.sequence n ≡ true
      → (((s.sequence == n) || later) || is_at o.sequence n) ≡ true
      → (later || is_at (deliver (snapshot version mode s) o).sequence n) ≡ true
  unfolding deliver
  deliver-is_at n s o later v m b h = ground arith

  delivered-sequence :
      (n : ℕ) (ss : List UpdateSnapshot) (o : Observer)
      → o.alive ≡ true
      → at_most n ss ≡ true
      → is_below o.sequence n ≡ true
      → (has n ss || is_at o.sequence n) ≡ true
      → (observe_all (arrivals_of ss) o).sequence ≡ some n
  unfolding observe_all observe
  delivered-sequence n [] o v m b h = ground arith
  delivered-sequence n (s ∷ ss) o v m b h =
      delivered-sequence n ss (deliver (snapshot version mode s) o) (deliver-alive s o v)
        (ground arith) (deliver-is_below n s o (ground arith) b)
        (deliver-is_at n s o (has n ss) v (ground arith) b h)

-- One more snapshot, anywhere.
at_most-insert :
    (n : ℕ) (before : List UpdateSnapshot) (s : UpdateSnapshot) (later : List UpdateSnapshot)
    → at_most n (before ++ s ∷ later) ≡ (leb s.sequence n && at_most n (before ++ later))
at_most-insert n [] s later = refl
at_most-insert n (x ∷ before) s later = ground (arith, at_most-insert n before s later)

has-insert :
    (n : ℕ) (before : List UpdateSnapshot) (s : UpdateSnapshot) (later : List UpdateSnapshot)
    → has n (before ++ s ∷ later) ≡ ((s.sequence == n) || has n (before ++ later))
has-insert n [] s later = refl
has-insert n (x ∷ before) s later = ground (arith, has-insert n before s later)

-- The same tests on the numbers alone.
abbrev numbers_at_most : ℕ → List ℕ → Bool
numbers_at_most n [] = true
numbers_at_most n (m ∷ ms) = leb m n && numbers_at_most n ms

abbrev has_number : ℕ → List ℕ → Bool
has_number n [] = false
has_number n (m ∷ ms) = (m == n) || has_number n ms

at_most-numbers :
    (n : ℕ) (ss : List UpdateSnapshot) → at_most n ss ≡ numbers_at_most n (map (λ s. s.sequence) ss)
at_most-numbers n [] = refl
at_most-numbers n (s ∷ ss) = ap (λ b. leb s.sequence n && b) (at_most-numbers n ss)

has-numbers :
    (n : ℕ) (ss : List UpdateSnapshot) → has n ss ≡ has_number n (map (λ s. s.sequence) ss)
has-numbers n [] = refl
has-numbers n (s ∷ ss) = ap (λ b. (s.sequence == n) || b) (has-numbers n ss)

numbers_at_most-++ :
    (n m : ℕ) (ms : List ℕ) → numbers_at_most n (ms ++ m ∷ []) ≡ (numbers_at_most n ms && leb m n)
numbers_at_most-++ n m [] = ground arith
numbers_at_most-++ n m (x ∷ ms) = ground (arith, numbers_at_most-++ n m ms)

has_number-++ :
    (n m : ℕ) (ms : List ℕ) → has_number n (ms ++ m ∷ []) ≡ (has_number n ms || (m == n))
has_number-++ n m [] = ground arith
has_number-++ n m (x ∷ ms) = ground (arith, has_number-++ n m ms)

numbers_at_most-numbers : (n m : ℕ) → m ≤ n → numbers_at_most n (numbers m) ≡ true
unfolding numbers
numbers_at_most-numbers n zero h = refl
numbers_at_most-numbers n (suc m) h =
    ground (arith, numbers_at_most-++ n (suc m) (numbers m), numbers_at_most-numbers n m)

has_number-numbers : (n : ℕ) → (has_number n (numbers n) || (n == 0)) ≡ true
unfolding numbers
has_number-numbers zero = refl
has_number-numbers (suc n) = ground (arith, has_number-++ (suc n) (suc n) (numbers n))

merged-sequence :
    (version : String) (mode : InstallMode) (n : ℕ) (before later : List UpdateSnapshot)
    (read : UpdateSnapshot)
    → map (λ s. s.sequence) (before ++ later) ≡ numbers n
    → read.sequence ≤ n
    → (observe_all (arrivals_of version mode (before ++ read ∷ later)) new_observer).sequence
      ≡ some n
merged-sequence version mode n before later read e r =
    let below =
      at_most-numbers n (before ++ later)
      ∙ ap (numbers_at_most n) e
      ∙ numbers_at_most-numbers n n (omega arith) in
    let has_it = has-numbers n (before ++ later) ∙ ap (has_number n) e in
    delivered-sequence version mode n (before ++ read ∷ later) new_observer refl
      (ground (arith, at_most-insert n before read later, below)) refl
      (ground (arith, has-insert n before read later, has_it, has_number-numbers n))

module _ (names : Names) (version : String) (format : UpdateFormat) (packaged file writable : Bool)
    (s : StoredUpdates) (events : List Event) where
  abbrev pub sender : Controller
  sender = reached names version format packaged file writable s events

  -- Let an update controller's run have sent its snapshots, and let them arrive at the page in their
  -- order, with the answer to the page's first read among them at any place; the answer is a snapshot
  -- whose number is at most that of the snapshot reached. Then the snapshots that the page hands on have
  -- rising numbers, and the last of them has the number of the snapshot reached, which is also the one
  -- that the page remembers: a late answer overwrites nothing.
  pub observe_all-reached :
      (before later : List UpdateSnapshot) (read : UpdateSnapshot)
      → snapshots sender.effects ≡ before ++ later
      → read.sequence ≤ sender.snapshot.sequence
      → let o =
          observe_all
            (arrivals_of version sender.install_mode (before ++ read ∷ later))
            new_observer in
        (is_rising none o.received ≡ true)
        × (last_of none o.received ≡ some sender.snapshot.sequence)
        × (o.sequence ≡ some sender.snapshot.sequence)
  observe_all-reached before later read e r =
      let arrivals = arrivals_of version sender.install_mode (before ++ read ∷ later) in
      let rising =
        observe_all-IsRising arrivals new_observer (record { rising = refl; last = refl }) in
      let at_end =
        merged-sequence version sender.install_mode sender.snapshot.sequence before later read
          (ap (map (λ s. s.sequence)) (sym e)
            ∙ snapshots-sequences sender.effects
            ∙ sequences-reached names version format packaged file writable s events)
          r in
      (rising.rising, rising.last ∙ at_end, at_end)
