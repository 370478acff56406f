-- ===== src/Runner/Capture.antt =====
-- The two readers of a command's output: `collect_limited_stream`, run once for stdout and once for
-- stderr over one budget of bytes. The order in which the readers' turns come is a sequence of events.
pub mod Turns
pub mod Accounted
pub mod Returned
use rust_daily.Base.{
  ◌-◌, true, ltb, if◌then◌else◌, take, ◌++◌, min, [], false, ◌∷◌, err, ok, length, List, ℕ, Bool,
  ◌||◌, Result,
}
use rust_daily.Text.Utf8.{Bytes}

-- `io::ErrorKind`, as far as the code tells one kind from another.
pub data ErrorKind : Type 0 where
  timed_out_kind interrupted other_kind : ErrorKind

pub record StreamCapture : Type 0 where
  pub output : Bytes
  pub exceeded : Bool

-- A reader between two turns of its loop, or with what it has returned.
pub data Reader : Type 0 where
  reading : Bytes → Reader
  returned : StreamCapture → Reader
  broken : ErrorKind → Reader

-- The two readers, the budget that they share, and whether the limit has been signalled.
pub record Readers : Type 0 where
  pub stdout : Reader
  pub stderr : Reader
  pub remaining_budget : ℕ
  pub limit_signalled : Bool

pub data Source : Type 0 where
  from_stdout from_stderr : Source

-- What one `read` gives: bytes, none of them at the end of the stream, or an error.
abbrev pub Read : Type 0
Read = Result ErrorKind Bytes

-- One turn of the loop behind a read of a reader with the output `output`: its next state, and the
-- budget that is left.
unfoldable pub collect_turn : ℕ → Bytes → Read → Reader × ℕ
collect_turn remaining output (err kind) = (broken kind, remaining)
collect_turn remaining output (ok []) =
    (returned (record { output = output; exceeded = false }), remaining)
collect_turn remaining output (ok (c ∷ cs)) =
    let read = length (c ∷ cs) in
    let retained = min read remaining in
    let extended = output ++ take retained (c ∷ cs) in
    if ltb retained read
    then (returned (record { output = extended; exceeded = true }), remaining - retained)
    else (reading extended, remaining - retained)

-- The same for a reader in any state: one that has returned takes no more turns.
unfoldable pub reader_turn : ℕ → Reader → Read → Reader × ℕ
reader_turn remaining (reading output) read = collect_turn remaining output read
reader_turn remaining (returned capture) read = (returned capture, remaining)
reader_turn remaining (broken kind) read = (broken kind, remaining)

abbrev pub is_exceeded : Reader → Bool
is_exceeded (returned capture) = capture.exceeded
is_exceeded _ = false

unfoldable pub readers_turn : Readers → Source × Read → Readers
readers_turn r (from_stdout, read) =
    let (next, left) = reader_turn r.remaining_budget r.stdout read in
    record {
      stdout = next;
      stderr = r.stderr;
      remaining_budget = left;
      limit_signalled = r.limit_signalled || is_exceeded next;
    }
readers_turn r (from_stderr, read) =
    let (next, left) = reader_turn r.remaining_budget r.stderr read in
    record {
      stdout = r.stdout;
      stderr = next;
      remaining_budget = left;
      limit_signalled = r.limit_signalled || is_exceeded next;
    }

-- The readers as they are spawned.
unfoldable pub spawned : ℕ → Readers
spawned retained_bytes = record {
  stdout = reading [];
  stderr = reading [];
  remaining_budget = retained_bytes;
  limit_signalled = false;
}

unfoldable pub run_readers : Readers → List (Source × Read) → Readers
run_readers r [] = r
run_readers r (e ∷ es) = run_readers (readers_turn r e) es
