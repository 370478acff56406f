-- ===== src/Queue/Responses.antt =====
-- The two ends of a response channel, and the summary.
use rust_daily.Base.{
  inr, inl, Bool-cases, ◌&&◌, ℕ, ◌+◌, ◌≤◌, ◌≡◌, refl, arith, Bool, false, List, [], ◌∷◌, Option,
  none, some, if◌then◌else◌,
}
use rust_daily.Queue.{queue_summary, RunResult, OutcomePublisher, publish}

-- For whatever the channel and the counter report, the depth and the free slots of a summary are
-- the capacity, so neither exceeds it; and the free slots are those reported if these fit.
pub queue_summary-consistent :
    (capacity slots running workers : ℕ) (closed : Bool)
    → let s = queue_summary capacity slots running workers closed in
      (s.queued_depth + s.available_slots ≡ s.queue_capacity)
      × (slots ≤ capacity → s.available_slots ≡ slots)
unfolding queue_summary
queue_summary-consistent capacity slots running workers closed = (omega arith, λ h. omega arith)

abbrev sent_before : Option RunResult → List RunResult → List RunResult
sent_before none rs = rs
sent_before (some r) rs = r ∷ rs

-- The results that reach the other end, if the publisher is asked again and again.
unfoldable pub published : OutcomePublisher → List (Bool × RunResult) → List RunResult
published p [] = []
published p ((receives, r) ∷ rs) =
    let attempt = publish p receives r in sent_before attempt.1 (published attempt.0 rs)

spent : (rs : List (Bool × RunResult)) → published (record { has_sender = false }) rs ≡ []
unfolding published publish
spent [] = refl
spent ((receives, r) ∷ rs) = spent rs

-- However often a result is published, the other end gets that of the first call, if the publisher
-- still has its sender and the other end is there to receive; and otherwise nothing at all.
pub published-once :
    (p : OutcomePublisher) (receives : Bool) (r : RunResult) (rs : List (Bool × RunResult))
    → published p ((receives, r) ∷ rs) ≡ (if p.has_sender && receives then r ∷ [] else [])
unfolding published publish
published-once p receives r rs = elim (Bool-cases p.has_sender) [
  | inl h ↦ elim (Bool-cases receives) [
    | inl w ↦ rw (h, w, spent rs) refl
    | inr w ↦ rw (h, w, spent rs) refl
  ]
  | inr h ↦ rw h (spent rs)
]
