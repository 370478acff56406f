-- ===== src/Runner/Capture/Returned.antt =====
-- The readers' loops end with their streams.
use rust_daily.Base.{List, ℕ, ◌≡◌, [], ◌⊎◌, inl, inr, subst, refl}
use rust_daily.Runner.Capture.{
  spawned, from_stderr, from_stdout, Source, Read, run_readers, Reader, reading, returned, broken,
  ErrorKind, StreamCapture,
}
use rust_daily.Runner.Capture.Turns.{flowing, ended, Tracks}
use rust_daily.Runner.Capture.Accounted.{arrive, run_readers-IsAccounted}
use rust_daily.Text.Utf8.{Bytes}

-- The reader's task is over, with a capture or with an error.
abbrev pub HasReturned : Reader → Type 0
HasReturned r = ((c : StreamCapture) × (r ≡ returned c)) ⊎ ((k : ErrorKind) × (r ≡ broken k))

ended-HasReturned :
    (budget total : ℕ) (r : Reader) (b : Bytes) → Tracks budget total r (ended b) → HasReturned r
ended-HasReturned budget total (reading output) b t = absurd t
ended-HasReturned budget total (returned capture) b t = inl (capture, refl)
ended-HasReturned budget total (broken kind) b t = inr (kind, refl)

-- Once a stream has ended or failed, its reader has returned, with a capture or with an error,
-- whatever the other one does.
pub run_readers-HasReturned :
    (budget : ℕ) (es : List (Source × Read)) (b : Bytes)
    → (arrive from_stdout (flowing []) es ≡ ended b
        → HasReturned (run_readers (spawned budget) es).stdout)
      × (arrive from_stderr (flowing []) es ≡ ended b
          → HasReturned (run_readers (spawned budget) es).stderr)
run_readers-HasReturned budget es b =
    let a = run_readers-IsAccounted budget es in
    (
      (λ e. ended-HasReturned budget _ _ b (subst (Tracks budget _ _) e a.stdout_tracks)),
      (λ e. ended-HasReturned budget _ _ b (subst (Tracks budget _ _) e a.stderr_tracks)),
    )
