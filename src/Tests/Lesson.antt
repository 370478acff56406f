-- ===== src/Tests/Lesson.antt =====
-- Runs of the container and the start of the service, with concrete answers.
use rust_daily.Runner.Commands.{ProcessCommandSpec}
use rust_daily.Runner.Capture.Turns.{ended, flowing}
use rust_daily.Model.Types.{LearnerOutcome}
use rust_daily.Text.Lines.{lines}
use rust_daily.Config.Values.{F64}
use rust_daily.Base.{
  any, if◌then◌else◌, List, ℕ, Result, Option, ◌≡◌, [], ◌∷◌, none, some, ok, err, true, false, refl,
}
use rust_daily.CargoOutput.{Output}
use rust_daily.DependencySet.{std}
use rust_daily.Model.Deadline.{timed_out_outcome, remaining, is_elapsed, RunDeadline}
use rust_daily.Runner.{completed, published_result, run_cancelled, RunnerError}
use rust_daily.Runner.Capture.{
  spawned, collect_turn, readers_turn, run_readers, reader_turn, Source, Read, from_stdout,
  from_stderr,
}
use rust_daily.Runner.Capture.Accounted.{arrive, IsAccounted, run_readers-IsAccounted}
use rust_daily.Runner.Capture.Returned.{HasReturned, run_readers-HasReturned}
use rust_daily.Runner.Container.{run_podman_lesson, ensure_control_success, Answers}
use rust_daily.Runner.Info.{
  all_entries, boolean, eq_ignore_ascii_case, entry_of, as_bool, find_boolean_field-first_hit,
  own_value, no_entries, first_hit, to_ascii_lowercase, object, find_boolean_field, Json,
}
use rust_daily.Runner.Lifecycle.{run_result, publications, run_podman_lesson-publications}
use rust_daily.Runner.Podman.{
  started_outcome, waited_outcome, captured_outcome, join_output_task, exited_outcome,
  child_completed, execute_podman_command, Execution,
}
use rust_daily.Runner.Podman.Complete.{IsWhole, execute_podman_command-IsWhole}
use rust_daily.Runner.Ready.{IsReady, initialize_runtime-IsReady}
use rust_daily.Runner.Removal.{IsStart, IsRemoval, IsFollowed, run_podman_lesson-IsFollowed}
use rust_daily.Runner.Startup.{
  image_spec, info_spec, remove_spec, list_spec, remove_all, check_rootless, check_found,
  reap_stale_containers, listed_ids, run_checked, and_then, initialize_local, TimedAnswer,
  initialize_runtime, StartupAnswers,
}
use rust_daily.Tests.Configuring.{test_settings}
use rust_daily.Text.Utf8.{from_utf8_lossy, decode, Bytes}
use rust_daily.Text.{trim_start, trim, text_eq, Text, codes}

-- Three bytes on one stream, then one on the other, then both ends.
abbrev turns : List (Source × Read)
turns =
    (from_stdout, ok (codes "abc"))
    ∷ (from_stderr, ok (codes "d"))
    ∷ (from_stdout, ok [])
    ∷ (from_stderr, ok [])
    ∷ []

run_readers-IsAccounted_example :
    IsAccounted 4
      (run_readers (spawned 4) turns)
      (arrive from_stdout (flowing []) turns)
      (arrive from_stderr (flowing []) turns)
run_readers-IsAccounted_example = run_readers-IsAccounted 4 turns

abbrev deadline : RunDeadline
deadline = record { started_at = 0; timeout = 1000000000 }

abbrev execution : Execution
execution = record {
  started = 5;
  start_error = none;
  wait_outcome = child_completed (ok (some 0));
  waited = 9;
  turns = turns;
  join_times_out = false;
}

abbrev whole_output : Output
whole_output = record { code = some 0; stdout = codes "abc"; stderr = codes "d" }

executed : execute_podman_command deadline test_settings execution ≡ ok (completed whole_output)
unfolding execute_podman_command started_outcome waited_outcome exited_outcome captured_outcome
    join_output_task run_readers readers_turn reader_turn collect_turn spawned is_elapsed remaining
executed = refl

execute_podman_command-IsWhole_example : IsWhole deadline test_settings execution whole_output
execute_podman_command-IsWhole_example =
    execute_podman_command-IsWhole deadline test_settings execution whole_output executed

run_readers-HasReturned_example :
    (arrive from_stdout (flowing []) turns ≡ ended (codes "abc")
      → HasReturned (run_readers (spawned 4) turns).stdout)
    × (arrive from_stderr (flowing []) turns ≡ ended (codes "abc")
        → HasReturned (run_readers (spawned 4) turns).stderr)
run_readers-HasReturned_example = run_readers-HasReturned 4 turns (codes "abc")

-- The container starts, and the copy into it fails.
abbrev answers : Answers
answers = record {
  started = 1;
  now = 4;
  workspace = ok (codes "/w/t");
  cases = ok tt;
  start = record { now = 2; answer = ok (record { code = some 0; stdout = []; stderr = [] }) };
  prepare = record { now = 3; answer = ok (record { code = some 1; stdout = []; stderr = [] }) };
}

abbrev id_text : ℕ → Text
id_text n = codes "7"

abbrev cpus_text : F64 → Text
cpus_text x = codes "1"

abbrev no_outcome : Result RunnerError LearnerOutcome
no_outcome = err run_cancelled

run_podman_lesson-publications_example :
    publications
      (run_podman_lesson id_text id_text cpus_text test_settings deadline 7 no_outcome std answers)
    ≡ (if is_elapsed deadline 1
        then ok (timed_out_outcome deadline 1)
        else published_result 7 deadline 4
            (run_result id_text id_text cpus_text test_settings deadline 7 no_outcome std answers))
      ∷ []
run_podman_lesson-publications_example =
    run_podman_lesson-publications id_text id_text cpus_text test_settings deadline 7 no_outcome std
      answers

run_podman_lesson-IsFollowed_example :
    IsFollowed
      (IsStart id_text id_text cpus_text test_settings deadline 7 std)
      (IsRemoval id_text id_text cpus_text test_settings deadline 7 std)
      (run_podman_lesson id_text id_text cpus_text test_settings deadline 7 no_outcome std answers)
run_podman_lesson-IsFollowed_example =
    run_podman_lesson-IsFollowed id_text id_text cpus_text test_settings deadline 7 std no_outcome
      answers

-- The report nests the field that is looked for.
abbrev report : Json
report = object (
    entry_of (codes "host") (object (entry_of (codes "Rootless") (boolean true) no_entries))
      no_entries)

find_boolean_field-first_hit_example :
    find_boolean_field (codes "rootless") report ≡ first_hit (codes "rootless") (all_entries report)
find_boolean_field-first_hit_example = find_boolean_field-first_hit (codes "rootless") report

abbrev printed : Text → TimedAnswer
printed text = some (ok (record { code = some 0; stdout = text; stderr = [] }))

-- One stale container is listed, and every command succeeds.
unfoldable podman_answer : ProcessCommandSpec → TimedAnswer
podman_answer spec =
    if any (text_eq (codes "ps")) spec.args then printed (codes "c1\n") else printed []

abbrev startup : StartupAnswers
startup = record { remote_configured = false; answer = podman_answer }

abbrev parse_json : Bytes → Option Json
parse_json b = some report

initialized : (initialize_runtime parse_json test_settings startup).1 ≡ ok tt
unfolding initialize_runtime initialize_local run_checked and_then check_rootless check_found
    find_boolean_field reap_stale_containers remove_all listed_ids ensure_control_success as_bool
    own_value eq_ignore_ascii_case to_ascii_lowercase text_eq trim trim_start lines from_utf8_lossy
    podman_answer list_spec info_spec image_spec remove_spec decode
initialized = refl

initialize_runtime-IsReady_example :
    IsReady parse_json test_settings startup (initialize_runtime parse_json test_settings startup).0
initialize_runtime-IsReady_example =
    initialize_runtime-IsReady parse_json test_settings startup initialized
