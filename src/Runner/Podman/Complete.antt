-- ===== src/Runner/Podman/Complete.antt =====
-- What a completed execution has captured.
use rust_daily.Service.{code}
use rust_daily.Text.Utf8.{Bytes}
use rust_daily.Config.Settings.{RunnerSettings}
use rust_daily.Base.{
  ◌||◌, if◌then◌else◌, subst, Result, ◌∙◌, Bool, on_ok, ◌>>=◌, ◌≤◌, arith, ◌+◌, ap, [], Option, ℕ,
  length, ok-injective, ◌≡◌, true, false, none, some, ok, err, refl,
}
use rust_daily.CargoOutput.{Output}
use rust_daily.Model.Deadline.{RunDeadline, is_elapsed}
use rust_daily.Runner.Capture.{
  spawned, run_readers, StreamCapture, Reader, Readers, ErrorKind, reading, returned, broken,
  from_stdout, from_stderr,
}
use rust_daily.Runner.Capture.Turns.{retained, CaptureTracks, Tracks, Written, flowing, ended}
use rust_daily.Runner.Capture.Accounted.{run_readers-IsAccounted, arrive}
use rust_daily.Runner.Podman.{
  child_cancelled, started_outcome, execute_podman_command, child_output_limit_exceeded,
  child_timeout, exited_outcome, ChildWaitOutcome, child_completed, join_output_task,
  captured_outcome, waited_outcome, Execution,
}
use rust_daily.Runner.{RunnerSettings, PodmanOutcome, completed, outer_timeout}

-- An output that is all that a process has written, within the budget and before the deadline.
pub record IsWhole (deadline : RunDeadline) (config : RunnerSettings) (x : Execution)
    (output : Output) : Type 0 where
  pub exited : x.wait_outcome ≡ child_completed (ok output.code)
  pub in_time : (is_elapsed deadline x.started ≡ false) × (is_elapsed deadline x.waited ≡ false)
  pub stdout_whole : arrive from_stdout (flowing []) x.turns ≡ ended output.stdout
  pub stderr_whole : arrive from_stderr (flowing []) x.turns ≡ ended output.stderr
  pub within : length output.stdout + length output.stderr ≤ config.max_process_output_bytes

-- What two joined readers with the outcome `completed output` give.
record IsJoined (r : Readers) (status : Option ℕ) (output : Output) : Type 0 where
  code_kept : status ≡ output.code
  stdout_returned : r.stdout ≡ returned (record { output = output.stdout; exceeded = false })
  stderr_returned : r.stderr ≡ returned (record { output = output.stderr; exceeded = false })

join-returned : (r : Reader) (c : StreamCapture) → join_output_task r ≡ ok c → r ≡ returned c
unfolding join_output_task
join-returned (reading output) c h = cc
join-returned (returned capture) c h = ap returned (ok-injective _ _ h)
join-returned (broken kind) c h = cc

captured-IsJoined :
    (status : Option ℕ) (stdout stderr : StreamCapture) (output : Output)
    → captured_outcome status stdout stderr ≡ completed output
    → (stdout.exceeded ≡ false)
      × (stderr.exceeded ≡ false)
      × (status ≡ output.code)
      × (stdout.output ≡ output.stdout)
      × (stderr.output ≡ output.stderr)
unfolding captured_outcome
captured-IsJoined status stdout stderr output h = ground arith

waited-completed :
    (deadline : RunDeadline) (retained_bytes : ℕ) (x : Execution) (w : ChildWaitOutcome)
    (output : Output)
    → waited_outcome deadline retained_bytes x w ≡ ok (completed output)
    → (status : Option ℕ) × (w ≡ child_completed (ok status))
      × (exited_outcome deadline retained_bytes status x ≡ ok (completed output))
unfolding waited_outcome
waited-completed deadline retained_bytes x (child_completed (ok status)) output h =
    (status, refl, h)
waited-completed deadline retained_bytes x (child_completed (err kind)) output h = cc
waited-completed deadline retained_bytes x child_timeout output h = cc
waited-completed deadline retained_bytes x child_output_limit_exceeded output h = cc
waited-completed deadline retained_bytes x child_cancelled output h = cc

join-IsJoined :
    (r : Readers) (status : Option ℕ) (output : Output)
    → (join_output_task r.stdout >>= λ stdout.
        join_output_task r.stderr >>= λ stderr. ok (captured_outcome status stdout stderr))
      ≡ ok (completed output)
    → IsJoined r status output
join-IsJoined r status output h = on_ok (join_output_task r.stdout) _ h λ a e1 h.
    on_ok (join_output_task r.stderr) _ h λ b e2 z.
      let (x1, x2, code, o1, o2) = captured-IsJoined status a b output (ok-injective _ _ z) in
      record {
        code_kept = code;
        stdout_returned =
            join-returned r.stdout a e1
            ∙ (λ i. returned (record { output = o1 i; exceeded = x1 i }));
        stderr_returned =
            join-returned r.stderr b e2
            ∙ (λ i. returned (record { output = o2 i; exceeded = x2 i }));
      }

unless-completed :
    (t : Bool) (y : Result ErrorKind PodmanOutcome) (output : Output)
    → (if t then ok outer_timeout else y) ≡ ok (completed output)
    → (t ≡ false) × (y ≡ ok (completed output))
unless-completed true y output h = cc
unless-completed false y output h = (refl, h)

whole-ended :
    (budget total : ℕ) (r : Reader) (w : Written) (output : Bytes)
    → r ≡ returned (record { output = output; exceeded = false })
    → Tracks budget total r w
    → w ≡ ended output
whole-ended budget total r w output e t = ended_by w (subst (λ r. Tracks budget total r w) e t)
  where
    ended_by : (w : Written) → CaptureTracks budget total output false w → w ≡ ended output
    ended_by (flowing b) t = absurd t
    ended_by (ended b) t = ap ended t

started-completed :
    (deadline : RunDeadline) (retained_bytes : ℕ) (x : Execution) (e : Option ErrorKind)
    (output : Output)
    → started_outcome deadline retained_bytes x e ≡ ok (completed output)
    → waited_outcome deadline retained_bytes x x.wait_outcome ≡ ok (completed output)
unfolding started_outcome
started-completed deadline retained_bytes x none output h = h
started-completed deadline retained_bytes x (some kind) output h = cc

-- A command that completes has exited by itself, neither its start nor its end has come after the
-- deadline, and its output is all that it has written to both streams, which together hold at
-- most `max_process_output_bytes` bytes.
pub execute_podman_command-IsWhole :
    (deadline : RunDeadline) (config : RunnerSettings) (x : Execution) (output : Output)
    → execute_podman_command deadline config x ≡ ok (completed output)
    → IsWhole deadline config x output
unfolding execute_podman_command exited_outcome
execute_podman_command-IsWhole deadline config x output h =
    let budget = config.max_process_output_bytes in
    let (early, h1) = unless-completed (is_elapsed deadline x.started) _ output h in
    let h2 = started-completed deadline budget x x.start_error output h1 in
    let (status, exited, h3) = waited-completed deadline budget x x.wait_outcome output h2 in
    let (late, h4) =
      unless-completed (is_elapsed deadline x.waited || x.join_times_out) _ output h3 in
    let j = join-IsJoined (run_readers (spawned budget) x.turns) status output h4 in
    let a = run_readers-IsAccounted budget x.turns in
    record {
      exited = exited ∙ ap (λ c. child_completed (ok c)) j.code_kept;
      in_time = (early, ground (arith, late));
      stdout_whole = whole-ended budget _ _ _ output.stdout j.stdout_returned a.stdout_tracks;
      stderr_whole = whole-ended budget _ _ _ output.stderr j.stderr_returned a.stderr_tracks;
      within = omega (
        arith,
        a.within,
        ap (λ r. length (retained r)) j.stdout_returned,
        ap (λ r. length (retained r)) j.stderr_returned,
      );
    }
