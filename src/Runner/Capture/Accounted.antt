-- ===== src/Runner/Capture/Accounted.antt =====
-- What the two readers retain, whatever the order of their turns.
use rust_daily.Base.{
  [], [], ◌∷◌, refl, inr, inl, ◌||◌, ◌⊎◌, ◌<◌, ◌↔◌, ◌+◌, arith, ◌-◌, Bool, ◌≤◌, List, length, ℕ,
  true, false, ◌≡◌,
}
use rust_daily.Text.Utf8.{Bytes}
use rust_daily.Runner.Capture.{
  spawned, run_readers, reader_turn, from_stdout, from_stderr, reading, returned, broken,
  is_exceeded, broken, from_stdout, Readers, Source, Read, returned, from_stderr, reading,
  readers_turn, Reader,
}
use rust_daily.Runner.Capture.Turns.{
  flowing, ended, turn-TurnTracks, size, flowing, ended, retained, Tracks, CaptureTracks, receive,
  Written,
}

-- What the events carry from the stream `source`.
arrive_one : Source → Written → Source × Read → Written
arrive_one from_stdout w (from_stdout, read) = receive w read
arrive_one from_stderr w (from_stderr, read) = receive w read
arrive_one from_stdout w (from_stderr, read) = w
arrive_one from_stderr w (from_stdout, read) = w

unfoldable pub arrive : Source → Written → List (Source × Read) → Written
unfolding arrive_one
arrive source w [] = w
arrive source w (e ∷ es) = arrive source (arrive_one source w e) es

-- The readers together with what has been written to the two streams.
pub record IsAccounted (budget : ℕ) (r : Readers) (out err : Written) : Type 0 where
  pub left_over : r.remaining_budget ≡ budget - (size out + size err)
  pub stdout_tracks : Tracks budget (size out + size err) r.stdout out
  pub stderr_tracks : Tracks budget (size out + size err) r.stderr err
  pub within : length (retained r.stdout) + length (retained r.stderr) + r.remaining_budget ≤ budget
  pub signalled : (r.limit_signalled ≡ true) ↔ (budget < size out + size err)

capture_mono :
    (budget : ℕ) {t t' : ℕ} (output : Bytes) (exceeded : Bool) (w : Written)
    → t ≤ t'
    → CaptureTracks budget t output exceeded w
    → CaptureTracks budget t' output exceeded w
capture_mono budget output true w h k = omega (arith, h, k)
capture_mono budget output false (flowing b) h k = k
capture_mono budget output false (ended b) h k = k

Tracks-mono :
    (budget : ℕ) {t t' : ℕ} (r : Reader) (w : Written)
    → t ≤ t'
    → Tracks budget t r w
    → Tracks budget t' r w
Tracks-mono budget (reading output) (flowing b) h t = t
Tracks-mono budget (reading output) (ended b) h t = t
Tracks-mono budget (returned capture) w h k =
    capture_mono budget capture.output capture.exceeded w h k
Tracks-mono budget (broken kind) (flowing b) h t = t
Tracks-mono budget (broken kind) (ended b) h t = t

captured-exceeds :
    (budget total : ℕ) (output : Bytes) (exceeded : Bool) (w : Written)
    → CaptureTracks budget total output exceeded w
    → exceeded ≡ true
    → budget < total
captured-exceeds budget total output true w t e = t
captured-exceeds budget total output false w t e = cc

exceeded→ :
    (budget total : ℕ) (r : Reader) (w : Written)
    → Tracks budget total r w
    → is_exceeded r ≡ true
    → budget < total
exceeded→ budget total (reading output) w t e = cc
exceeded→ budget total (returned capture) w t e =
    captured-exceeds budget total capture.output capture.exceeded w t e
exceeded→ budget total (broken kind) w t e = cc

-- A flag that a turn may raise.
raised {ℓ} :
    {P P' : Type ℓ} (flag now : Bool)
    → (flag ≡ true) ↔ P
    → (P → P')
    → (now ≡ true → P')
    → (P' → P ⊎ (now ≡ true))
    → (flag || now ≡ true) ↔ P'
raised true now f m g h = (λ e. m (f.0 refl), λ p. refl)
raised false now f m g h = (g, λ p. elim (h p) [ inl q ↦ absurd (cc (f.1 q)) | inr e ↦ e ])

out_turn-IsAccounted :
    (budget : ℕ) (r : Readers) (out err : Written) (read : Read)
    → IsAccounted budget r out err
    → IsAccounted budget (readers_turn r (from_stdout, read)) (receive out read) err
unfolding readers_turn
out_turn-IsAccounted budget r out err read a =
    let t =
      turn-TurnTracks budget (size err) (length (retained r.stderr)) r.remaining_budget r.stdout out
        read a.left_over a.stdout_tracks (omega (arith, a.within)) in
    record {
      left_over = t.left_over;
      stdout_tracks = t.tracks;
      stderr_tracks = Tracks-mono budget r.stderr err (omega (arith, t.grows)) a.stderr_tracks;
      within = t.within;
      signalled =
          raised r.limit_signalled _ a.signalled (λ l. omega (arith, l, t.grows))
            (exceeded→ budget (size (receive out read) + size err) _ _ t.tracks) t.signals;
    }

err_turn-IsAccounted :
    (budget : ℕ) (r : Readers) (out err : Written) (read : Read)
    → IsAccounted budget r out err
    → IsAccounted budget (readers_turn r (from_stderr, read)) out (receive err read)
unfolding readers_turn
err_turn-IsAccounted budget r out err read a =
    let t =
      turn-TurnTracks budget (size out) (length (retained r.stdout)) r.remaining_budget r.stderr err
        read (omega (arith, a.left_over))
        (Tracks-mono budget r.stderr err (omega arith) a.stderr_tracks) (omega (arith, a.within)) in
    let tracks : Tracks budget (size out + size (receive err read))
        (reader_turn r.remaining_budget r.stderr read).0 (receive err read) =
      Tracks-mono budget (reader_turn r.remaining_budget r.stderr read).0 (receive err read)
        (omega arith) t.tracks in
    record {
      left_over = omega (arith, t.left_over);
      stdout_tracks = Tracks-mono budget r.stdout out (omega (arith, t.grows)) a.stdout_tracks;
      stderr_tracks = tracks;
      within = omega (arith, t.within);
      signalled =
          raised r.limit_signalled _ a.signalled (λ l. omega (arith, l, t.grows))
            (exceeded→ budget (size out + size (receive err read)) _ _ tracks)
            (λ l. elim (t.signals (omega (arith, l))) [
              | inl q ↦ inl (omega (arith, q))
              | inr e ↦ inr e
            ]);
    }

turn-IsAccounted :
    (budget : ℕ) (r : Readers) (out err : Written) (e : Source × Read)
    → IsAccounted budget r out err
    → IsAccounted budget
        (readers_turn r e)
        (arrive_one from_stdout out e)
        (arrive_one from_stderr err e)
unfolding arrive_one
turn-IsAccounted budget r out err (from_stdout, read) a =
    out_turn-IsAccounted budget r out err read a
turn-IsAccounted budget r out err (from_stderr, read) a =
    err_turn-IsAccounted budget r out err read a

run-IsAccounted :
    (budget : ℕ) (es : List (Source × Read)) (r : Readers) (out err : Written)
    → IsAccounted budget r out err
    → IsAccounted budget (run_readers r es) (arrive from_stdout out es) (arrive from_stderr err es)
unfolding run_readers arrive arrive_one
run-IsAccounted budget [] r out err a = a
run-IsAccounted budget (e ∷ es) r out err a =
    run-IsAccounted budget es (readers_turn r e) (arrive_one from_stdout out e)
      (arrive_one from_stderr err e) (turn-IsAccounted budget r out err e a)

-- In whatever order the two readers' turns come, they hold the budget's bytes at most, together
-- with what is left of it; the limit is signalled exactly if the two streams have carried more
-- bytes than the budget; and a reader that has neither exceeded the budget nor failed holds every
-- byte that its stream has carried.
pub run_readers-IsAccounted :
    (budget : ℕ) (es : List (Source × Read))
    → IsAccounted budget
        (run_readers (spawned budget) es)
        (arrive from_stdout (flowing []) es)
        (arrive from_stderr (flowing []) es)
unfolding spawned
run_readers-IsAccounted budget es =
    run-IsAccounted budget es (spawned budget) (flowing []) (flowing []) (record {
      left_over = omega arith;
      stdout_tracks = refl;
      stderr_tracks = refl;
      within = omega arith;
      signalled = (λ e. cc, λ l. absurd (omega (arith, l)));
    })
