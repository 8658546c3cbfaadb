-- ===== src/Desktop/Core/Kept.antt =====
-- The launch, the events of the child and the stop keep the supervisor valid
-- (desktop/src/core-supervisor.ts).
use pixiv_biu.Base.{
  ℕ, ◌+◌, ◌≡◌, refl, arith, Bool, true, false, ◌&&◌, Option, none, some, List, [], ◌∷◌, ◌++◌,
  if◌then◌else◌, is_some,
}
use pixiv_biu.Desktop.Core.Supervisor.{
  CoreFailure, start_failed, stop_failed, Attempt, Phase, waiting, draining, Supervisor, transition,
  Answer, Progress, done, at, terminate, terminate_at,
}
use pixiv_biu.Desktop.Core.Run.{
  port_busy_exit_code, has_code, is_ready, relaunched, launch, start, failure_of, after_ending,
  end_attempt, not_ready, poll, spawned, port_chosen, fetched,
}
use pixiv_biu.Desktop.Core.Invariant.{
  is_dead, are_dead, is_choosing, knows_exit, is_fetching, is_past_launch, IsValid, give_up-IsValid,
  try_again-IsValid,
}

launch-IsValid :
    (s : Supervisor)
    → is_ready s.state ≡ false
    → is_past_launch s.stop_operation ≡ false
    → s.quitting ≡ false
    → IsValid s
    → IsValid (launch s)
unfolding launch transition
launch-IsValid s h0 h1 h2 v =
    ground (arith, try_again-IsValid 0 start_failed (transition (relaunched s.state) none s))

pub start-IsValid : (s : Supervisor) → IsValid s → IsValid (start s)
unfolding start
start-IsValid s v = ground (arith, launch-IsValid s)

pub ite_IsValid :
    (b : Bool) {s t : Supervisor} → IsValid s → IsValid t → IsValid (if b then s else t)
ite_IsValid true v w = v
ite_IsValid false v w = w

-- Where `terminate` waits for the pipes, or has ended well, the child has exited.
abbrev pub is_sound : Progress → Attempt → Bool
is_sound (at draining) a = is_some a.result
is_sound (done true) a = is_some a.result
is_sound _ a = true

pub terminate-is_sound :
    (a : Attempt) → knows_exit (some a) ≡ true → is_sound (terminate a) a ≡ true
unfolding terminate
terminate-is_sound a k = ground arith

pub terminate_at-is_sound :
    (phase : Phase) (w : Answer) (a : Attempt)
    → knows_exit (some a) ≡ true
    → is_sound (at phase) a ≡ true
    → is_sound (terminate_at phase w a) a ≡ true
unfolding terminate_at
terminate_at-is_sound phase w a k d = ground arith

after_ending-IsValid :
    (tries : ℕ) (failure : CoreFailure) (a : Attempt) (ok : Bool) (s : Supervisor)
    → is_some s.operation ≡ true
    → IsValid s
    → IsValid (after_ending tries failure a ok s)
unfolding after_ending
after_ending-IsValid tries failure a false s h0 v = give_up-IsValid stop_failed s h0 v
after_ending-IsValid tries failure a true s h0 v =
    ite_IsValid (a.scan.handshake && has_code port_busy_exit_code a.result)
      (try_again-IsValid (tries + 1) failure s (ground arith) (ground arith) v)
      (give_up-IsValid failure s h0 v)

pub end_attempt-IsValid :
    (tries : ℕ) (failure : CoreFailure) (a : Attempt) (p : Progress) (s : Supervisor)
    → is_some s.operation ≡ true
    → s.attempt ≡ some a
    → is_sound p a ≡ true
    → IsValid s
    → IsValid (end_attempt tries failure a p s)
unfolding end_attempt
end_attempt-IsValid tries failure a (at phase) s h0 h1 d v = ground arith
end_attempt-IsValid tries failure a (done ok) s h0 h1 d v =
    after_ending-IsValid tries failure a ok s h0 v

not_ready-IsValid :
    (tries : ℕ) (a : Attempt) (s : Supervisor)
    → is_some s.operation ≡ true
    → s.attempt ≡ some a
    → IsValid s
    → IsValid (not_ready tries a s)
unfolding not_ready
not_ready-IsValid tries a s h0 h1 v =
    ground (arith, terminate-is_sound a, end_attempt-IsValid tries (failure_of a) a (terminate a) s)

pub poll-IsValid :
    (tries : ℕ) (w : Answer) (a : Attempt) (s : Supervisor)
    → is_some s.operation ≡ true
    → s.attempt ≡ some a
    → IsValid s
    → IsValid (poll tries w a s)
unfolding poll
poll-IsValid tries w a s h0 h1 v = ground (arith, not_ready-IsValid tries a s)

pub are_dead-++ :
    (xs : List (Option Attempt)) (a : Option Attempt)
    → are_dead (xs ++ a ∷ []) ≡ (are_dead xs && is_dead a)
are_dead-++ [] a = ground arith
are_dead-++ (x ∷ xs) a = ground (arith, are_dead-++ xs a)

-- The supervisor with a new child, at the head of the loop that polls it.
polled : ℕ → Answer → Supervisor → Supervisor
polled tries w s = record s {
  attempt = some (spawned w);
  launched = s.launched ++ s.attempt ∷ [];
  operation = some (waiting tries);
}

polled-IsValid :
    (tries : ℕ) (w : Answer) (s : Supervisor)
    → is_choosing s.operation ≡ true
    → s.quitting ≡ false
    → IsValid s
    → IsValid (polled tries w s)
unfolding polled
polled-IsValid tries w s h0 h1 v = ground (arith, are_dead-++ s.launched s.attempt)

pub port_chosen-IsValid :
    (tries : ℕ) (failure : CoreFailure) (w : Answer) (s : Supervisor)
    → is_choosing s.operation ≡ true
    → IsValid s
    → IsValid (port_chosen tries failure w s)
unfolding port_chosen polled
port_chosen-IsValid tries failure w s h0 v = ground (
  arith,
  polled-IsValid tries w s,
  poll-IsValid tries w (spawned w) (polled tries w s) refl refl,
  give_up-IsValid failure s,
)

pub fetched-IsValid :
    (tries : ℕ) (w : Answer) (a : Attempt) (s : Supervisor)
    → is_some s.operation ≡ true
    → s.attempt ≡ some a
    → is_fetching s.operation ≡ true
    → IsValid s
    → IsValid (fetched tries w a s)
unfolding fetched transition
fetched-IsValid tries w a s h0 h1 h2 v = ground arith
