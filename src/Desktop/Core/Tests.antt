-- ===== src/Desktop/Core/Tests.antt =====
-- Runs of the supervisor and of its reading of the output, and the theorems at them.
use pixiv_biu.Base.{
  ltb, if◌then◌else◌, ◌≡◌, refl, arith, ℕ, true, false, some, List, [], ◌∷◌, ◌++◌, length, is_some,
}
use pixiv_biu.Desktop.Core.Stdout.{
  new_scan, on_data, on_buffer, on_buffer_all, split, append_part, end_line, ended, read_parts,
  read_rest,
}
use pixiv_biu.Desktop.Core.Chunks.{
  read_units, concat_all, KeepsAscii, on_buffer_all-read_units, new_scan-IsScan,
}
use pixiv_biu.Desktop.Core.Supervisor.{
  CoreState, Supervisor, new_supervisor, transition, Answer, terminate, terminate_at, give_up,
  try_again,
}
use pixiv_biu.Desktop.Core.Run.{
  is_ready, launch, start, failure_of, after_ending, end_attempt, not_ready, poll, port_chosen,
  fetched, attempt_at, launch_at, on_output, on_child_exit, on_exit, on_close, stop, Event,
  start_call, stop_call, launch_step, output, child_exit, child_close, handle, handle_all,
}
use pixiv_biu.Desktop.Core.Invariant.{are_dead, Serves}
use pixiv_biu.Desktop.Core.Handled.{handle_all-IsValid, new_supervisor-IsValid}
use pixiv_biu.Desktop.Core.Runs.{launched-are_dead, ready-Serves, handle_all-launched}
use pixiv_biu.Desktop.Core.Stopped.{IsAtRest, launch_steps, stop_steps, handle_all-IsAtRest}

-- The marker "p" and its line "p r".
abbrev marker : List ℕ
marker = 112 ∷ []

abbrev ready_line : List ℕ
ready_line = 112 ∷ 32 ∷ 114 ∷ []

-- "p\np r\n", in three chunks.
abbrev chunks : List (List ℕ)
chunks = (112 ∷ 10 ∷ 112 ∷ []) ∷ (32 ∷ []) ∷ (114 ∷ 10 ∷ 33 ∷ []) ∷ []

abbrev fine : Answer
fine = record {
  resolved = true;
  found_port = 4000;
  has_pid = true;
  is_late = false;
  is_windows = false;
}

-- Started, ready, and asked to start again; the second child is under way.
abbrev restarting : List Event
restarting =
    start_call
    ∷ launch_step fine
    ∷ output (112 ∷ 10 ∷ 112 ∷ [])
    ∷ output (32 ∷ 114 ∷ 10 ∷ [])
    ∷ launch_step fine
    ∷ launch_step fine
    ∷ child_exit (some 75)
    ∷ child_close (some 75)
    ∷ launch_step fine
    ∷ []

abbrev restarted : Supervisor
restarted = handle_all marker ready_line new_supervisor restarting

restarts_once : (length restarted.launched ≡ 2) × (restarted.state ≡ CoreState.restarting)
unfolding handle_all handle start launch transition try_again give_up launch_at attempt_at
    port_chosen poll not_ready end_attempt after_ending failure_of fetched on_output on_data split
    append_part end_line ended read_parts read_rest on_child_exit on_close on_exit terminate
    terminate_at
restarts_once = (refl, refl)

launched-are_dead_example : are_dead restarted.launched ≡ true
launched-are_dead_example = launched-are_dead marker ready_line restarting

ready-Serves_example :
    (is_some restarted.port ≡ is_ready restarted.state) × Serves restarted.port restarted.attempt
ready-Serves_example = ready-Serves marker ready_line restarting

handle_all-launched_example :
    (handle_all marker ready_line (stop new_supervisor) restarting).launched ≡ []
unfolding stop transition
handle_all-launched_example =
    handle_all-launched marker ready_line (stop new_supervisor) restarting refl

-- The second child is stopped while the launch waits for it.
handle_all-IsAtRest_example : IsAtRest (
    handle_all marker ready_line
      (handle_all marker ready_line new_supervisor (restarting ++ stop_call ∷ []))
      (launch_steps (fine ∷ fine ∷ fine ∷ fine ∷ [])
        ++ stop_steps (fine ∷ fine ∷ fine ∷ fine ∷ fine ∷ [])))
unfolding handle_all handle start launch transition try_again give_up launch_at attempt_at
    port_chosen poll not_ready end_attempt after_ending failure_of fetched on_output on_data split
    append_part end_line ended read_parts read_rest on_child_exit on_close on_exit terminate
    terminate_at stop
handle_all-IsAtRest_example =
    handle_all-IsAtRest marker ready_line (fine ∷ fine ∷ fine ∷ fine ∷ [])
      (fine ∷ fine ∷ fine ∷ fine ∷ fine ∷ [])
      (handle_all marker ready_line new_supervisor (restarting ++ stop_call ∷ [])) refl
      (omega arith) (omega arith)
      (handle_all-IsValid marker ready_line new_supervisor (restarting ++ stop_call ∷ [])
        new_supervisor-IsValid)

-- A decoder of ASCII, with a replacement character for each other byte.
abbrev decode : List ℕ → List ℕ
decode [] = []
decode (c ∷ cs) = (if ltb c 128 then c else 65533) ∷ decode cs

decode-KeepsAscii : KeepsAscii marker ready_line decode
decode-KeepsAscii [] a = refl
decode-KeepsAscii (c ∷ cs) a = ground (arith, decode-KeepsAscii cs a.1)

on_buffer_all-read_units_example :
    ((on_buffer_all marker ready_line decode chunks new_scan).handshake
      ≡ (read_units marker ready_line (concat_all chunks) new_scan).handshake)
    × ((on_buffer_all marker ready_line decode chunks new_scan).listening
        ≡ (read_units marker ready_line (concat_all chunks) new_scan).listening)
on_buffer_all-read_units_example =
    on_buffer_all-read_units marker ready_line decode chunks new_scan decode-KeepsAscii
      (omega arith) (new_scan-IsScan marker ready_line)

it_listens : (on_buffer_all marker ready_line decode chunks new_scan).listening ≡ true
unfolding on_buffer_all on_buffer on_data split append_part end_line ended read_parts read_rest
it_listens = refl
