-- ===== src/Runner/Capture/Turns.antt =====
-- One turn of a reader, against what its stream has carried.
use rust_daily.Base.{
  sym, ≤-cases, length-take, take-length, false, true, refl, min, ltb, take, inl, true, ◌⊎◌, inr,
  ◌<◌, ◌+◌, length-append, ◌-◌, ◌++◌, arith, Bool, ◌≤◌, [], ◌∷◌, length, ok, err, ℕ, ◌≡◌,
}
use rust_daily.Text.Utf8.{Bytes}
use rust_daily.Runner.Capture.{
  broken, is_exceeded, returned, Read, reading, collect_turn, reader_turn, Reader,
}

-- What a process has written to a stream, and whether the stream has ended.
pub data Written : Type 0 where
  flowing : Bytes → Written
  ended : Bytes → Written

abbrev pub bytes_of : Written → Bytes
bytes_of (flowing b) = b
bytes_of (ended b) = b

unfoldable pub receive : Written → Read → Written
receive (flowing b) (ok []) = ended b
receive (flowing b) (ok (c ∷ cs)) = flowing (b ++ c ∷ cs)
receive (flowing b) (err kind) = ended b
receive (ended b) read = ended b

abbrev pub size : Written → ℕ
size w = length (bytes_of w)

-- The output that a reader holds; it is lost with an error.
abbrev pub retained : Reader → Bytes
retained (reading output) = output
retained (returned capture) = capture.output
retained (broken kind) = []

-- How a reader stands to its stream, with `total` bytes written to both streams.
abbrev pub CaptureTracks : ℕ → ℕ → Bytes → Bool → Written → Type 0
CaptureTracks budget total output true w = budget < total
CaptureTracks budget total output false (flowing b) = ⊥
CaptureTracks budget total output false (ended b) = b ≡ output

abbrev pub Tracks : ℕ → ℕ → Reader → Written → Type 0
Tracks budget total (reading output) (flowing b) = b ≡ output
Tracks budget total (reading output) (ended b) = ⊥
Tracks budget total (returned capture) w =
    CaptureTracks budget total capture.output capture.exceeded w
Tracks budget total (broken kind) (flowing b) = ⊥
Tracks budget total (broken kind) (ended b) = Unit {0}

-- The outcome of one turn, for the reader that takes it.
pub record TurnTracks (budget other held : ℕ) (next : Reader) (left : ℕ) (w w' : Written)
    : Type 0 where
  pub left_over : left ≡ budget - (size w' + other)
  pub tracks : Tracks budget (size w' + other) next w'
  pub within : length (retained next) + held + left ≤ budget
  pub grows : size w ≤ size w'
  pub signals : budget < size w' + other → (budget < size w + other) ⊎ (is_exceeded next ≡ true)

size-receive : (w : Written) (read : Read) → size w ≤ size (receive w read)
unfolding receive
size-receive (flowing b) (ok []) = omega arith
size-receive (flowing b) (ok (c ∷ cs)) = omega (arith, length-append b (c ∷ cs))
size-receive (flowing b) (err kind) = omega arith
size-receive (ended b) read = omega arith

collect_turn-fits :
    (left : ℕ) (output : Bytes) (c : ℕ) (cs : Bytes)
    → length (c ∷ cs) ≤ left
    → collect_turn left output (ok (c ∷ cs)) ≡ (reading (output ++ c ∷ cs), left - length (c ∷ cs))
unfolding collect_turn
collect_turn-fits left output c cs h =
    let m : min (length (c ∷ cs)) left ≡ length (c ∷ cs) = omega (arith, h) in
    let t : ltb (length (c ∷ cs)) (length (c ∷ cs)) ≡ false = ground arith in
    rw (m, t, take-length (c ∷ cs)) refl

collect_turn-exceeds :
    (left : ℕ) (output : Bytes) (c : ℕ) (cs : Bytes)
    → left < length (c ∷ cs)
    → collect_turn left output (ok (c ∷ cs))
      ≡ (returned (record { output = output ++ take left (c ∷ cs); exceeded = true }), 0)
unfolding collect_turn
collect_turn-exceeds left output c cs h =
    let m : min (length (c ∷ cs)) left ≡ left = omega (arith, h) in
    let t : ltb left (length (c ∷ cs)) ≡ true = ground (arith, h) in
    let z : left - left ≡ 0 = omega arith in rw (m, t, z) refl

module _ (budget other held left : ℕ) where
  capture-TurnTracks :
      (output : Bytes) (exceeded : Bool) (w : Written) (read : Read)
      → left ≡ budget - (size w + other)
      → CaptureTracks budget (size w + other) output exceeded w
      → length output + held + left ≤ budget
      → TurnTracks budget other held
          (returned (record { output = output; exceeded = exceeded }))
          left
          w
          (receive w read)
  unfolding receive
  capture-TurnTracks output true w read e t h = record {
    left_over = omega (arith, e, t, size-receive w read);
    tracks = omega (arith, t, size-receive w read);
    within = h;
    grows = size-receive w read;
    signals = λ l. inr refl;
  }
  capture-TurnTracks output false (flowing b) read e t h = absurd t
  capture-TurnTracks output false (ended b) read e t h = record {
    left_over = e;
    tracks = t;
    within = h;
    grows = omega arith;
    signals = λ l. inl l;
  }

  fitting-TurnTracks :
      (b : Bytes) (c : ℕ) (cs : Bytes)
      → left ≡ budget - (length b + other)
      → length b + held + left ≤ budget
      → length (c ∷ cs) ≤ left
      → TurnTracks budget other held
          (reader_turn left (reading b) (ok (c ∷ cs))).0
          (reader_turn left (reading b) (ok (c ∷ cs))).1
          (flowing b)
          (flowing (b ++ c ∷ cs))
  unfolding reader_turn
  fitting-TurnTracks b c cs e h f = rw (collect_turn-fits left b c cs f) (record {
    left_over = omega (arith, e, length-append b (c ∷ cs));
    tracks = refl;
    within = omega (arith, e, h, f, length-append b (c ∷ cs));
    grows = omega (arith, length-append b (c ∷ cs));
    signals = λ l. inl (omega (arith, e, f, l, length-append b (c ∷ cs)));
  })

  exceeding-TurnTracks :
      (b : Bytes) (c : ℕ) (cs : Bytes)
      → left ≡ budget - (length b + other)
      → length b + held + left ≤ budget
      → left < length (c ∷ cs)
      → TurnTracks budget other held
          (reader_turn left (reading b) (ok (c ∷ cs))).0
          (reader_turn left (reading b) (ok (c ∷ cs))).1
          (flowing b)
          (flowing (b ++ c ∷ cs))
  unfolding reader_turn
  exceeding-TurnTracks b c cs e h f = rw (collect_turn-exceeds left b c cs f) (record {
    left_over = omega (arith, e, f, length-append b (c ∷ cs));
    tracks = omega (arith, e, f, length-append b (c ∷ cs));
    within = omega (
      arith,
      h,
      f,
      length-append b (take left (c ∷ cs)),
      length-take left (c ∷ cs) (omega (arith, f)),
    );
    grows = omega (arith, length-append b (c ∷ cs));
    signals = λ l. inr refl;
  })

  pub turn-TurnTracks :
      (r : Reader) (w : Written) (read : Read)
      → left ≡ budget - (size w + other)
      → Tracks budget (size w + other) r w
      → length (retained r) + held + left ≤ budget
      → TurnTracks budget other held
          (reader_turn left r read).0
          (reader_turn left r read).1
          w
          (receive w read)
  unfolding reader_turn receive collect_turn
  turn-TurnTracks (reading output) (flowing b) (err kind) e t h = record {
    left_over = e;
    tracks = tt;
    within = omega (arith, h);
    grows = omega arith;
    signals = λ l. inl l;
  }
  turn-TurnTracks (reading output) (flowing b) (ok []) e t h = record {
    left_over = e;
    tracks = t;
    within = h;
    grows = omega arith;
    signals = λ l. inl l;
  }
  turn-TurnTracks (reading output) (flowing b) (ok (c ∷ cs)) e t h =
      elim (≤-cases (length (c ∷ cs)) left) [
        | inl f ↦ rw (sym t) (fitting-TurnTracks b c cs e (rw t h) f)
        | inr f ↦ rw (sym t) (exceeding-TurnTracks b c cs e (rw t h) f)
      ]
  turn-TurnTracks (reading output) (ended b) read e t h = absurd t
  turn-TurnTracks (returned capture) w read e t h =
      capture-TurnTracks capture.output capture.exceeded w read e t h
  turn-TurnTracks (broken kind) (flowing b) read e t h = absurd t
  turn-TurnTracks (broken kind) (ended b) read e t h = record {
    left_over = e;
    tracks = tt;
    within = h;
    grows = omega arith;
    signals = λ l. inl l;
  }
