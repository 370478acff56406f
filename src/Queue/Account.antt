-- ===== src/Queue/Account.antt =====
-- The account of one job over the effects of a worker.
use rust_daily.Base.{
  [], true, false, refl, none, some, ◌++◌, ◌∷◌, ◌==◌, List, Bool, Option, ℕ, ◌+◌, ◌≤◌, ◌≡◌, arith,
}
use rust_daily.Text.{Text}
use rust_daily.Queue.{RunResult, JobControl, while_running, cancellation_reason}
use rust_daily.Queue.Worker.{
  cancellation_recorded, record_closed_response, send_response, record_reason, Worker, selecting,
  awaiting_task, Effect, started, responded, undelivered, runner_cancelled, finished,
}

-- Sums over effects and over workers.
unfoldable pub tally : (Effect → ℕ) → List Effect → ℕ
tally f [] = 0
tally f (e ∷ es) = f e + tally f es

unfoldable pub load : (Worker → ℕ) → List Worker → ℕ
load g [] = 0
load g (w ∷ ws) = g w + load g ws

tally-append : (f : Effect → ℕ) (xs ys : List Effect) → tally f (xs ++ ys) ≡ tally f xs + tally f ys
unfolding tally
tally-append f [] ys = omega arith
tally-append f (x ∷ xs) ys = omega (arith, tally-append f xs ys)

pub load-append : (g : Worker → ℕ) (xs ys : List Worker) → load g (xs ++ ys) ≡ load g xs + load g ys
unfolding load
load-append g [] ys = omega arith
load-append g (x ∷ xs) ys = omega (arith, load-append g xs ys)

-- The starts, ends, attempts to answer and cancellations of one job.
abbrev pub one_if : Bool → ℕ
one_if true = 1
one_if false = 0

abbrev pub is_start : ℕ → Effect → ℕ
is_start id (started j) = one_if (j == id)
is_start id _ = 0

abbrev pub is_end : ℕ → Effect → ℕ
is_end id (finished j) = one_if (j == id)
is_end id _ = 0

abbrev pub is_attempt : ℕ → Effect → ℕ
is_attempt id (responded j _) = one_if (j == id)
is_attempt id (undelivered j _) = one_if (j == id)
is_attempt id _ = 0

abbrev pub is_cancellation : ℕ → Effect → ℕ
is_cancellation id (runner_cancelled j) = one_if (j == id)
is_cancellation id _ = 0

-- The workers that run a job, and those that have yet to answer it.
abbrev pub runs : ℕ → Worker → ℕ
runs id (selecting job) = one_if (job.id == id)
runs id (awaiting_task job) = one_if (job.id == id)
runs id _ = 0

abbrev pub owes : ℕ → Worker → ℕ
owes id (selecting job) = one_if (job.id == id)
owes id _ = 0

-- The account of one job over some effects, between two loads.
pub record IsBalanced (id : ℕ) (es : List Effect)
    (runs_before owes_before runs_after owes_after : ℕ) : Type 0 where
  pub ended : tally (is_end id) es + runs_after ≡ tally (is_start id) es + runs_before
  pub answered_once : tally (is_attempt id) es + owes_after ≤ tally (is_start id) es + owes_before
  pub answered_or_cancelled :
      tally (is_start id) es + owes_before
      ≤ tally (is_attempt id) es + tally (is_cancellation id) es + owes_after

-- Recording a reason starts, ends, answers and cancels nothing.
reason_tally :
    (f : Effect → ℕ) (id : ℕ) (r : Option Text)
    → ((j : ℕ) (t : Text) → f (cancellation_recorded j t) ≡ 0)
    → tally f (record_reason id r) ≡ 0
unfolding tally record_reason
reason_tally f id none h = refl
reason_tally f id (some t) h = omega (arith, h id t)

pub reason-Balanced : (id j a b : ℕ) (r : Option Text) → IsBalanced id (record_reason j r) a b a b
reason-Balanced id j a b r =
    let s = reason_tally (is_start id) j r (λ _ _. refl) in
    let e = reason_tally (is_end id) j r (λ _ _. refl) in
    let t = reason_tally (is_attempt id) j r (λ _ _. refl) in
    let c = reason_tally (is_cancellation id) j r (λ _ _. refl) in
    record {
      ended = omega (arith, s, e);
      answered_once = omega (arith, s, t);
      answered_or_cancelled = omega (arith, s, t, c);
    }

-- Accounts follow one another.
pub Balanced-append :
    (id a b c d x y : ℕ) (es fs : List Effect)
    → IsBalanced id es a b c d
    → IsBalanced id fs c d x y
    → IsBalanced id (es ++ fs) a b x y
Balanced-append id a b c d x y es fs p q =
    let s = tally-append (is_start id) es fs in
    let e = tally-append (is_end id) es fs in
    let t = tally-append (is_attempt id) es fs in
    let n = tally-append (is_cancellation id) es fs in
    record {
      ended = omega (arith, s, e, p.ended, q.ended);
      answered_once = omega (arith, s, t, p.answered_once, q.answered_once);
      answered_or_cancelled =
          omega (arith, s, t, n, p.answered_or_cancelled, q.answered_or_cancelled);
    }

-- One effect of each kind.
pub sends-Balanced :
    (id j : ℕ) (r : RunResult) (delivered : Bool) (control : JobControl)
    → IsBalanced id
        (send_response j r delivered (record_closed_response j control))
        (one_if (j == id))
        (one_if (j == id))
        (one_if (j == id))
        0
unfolding send_response tally
sends-Balanced id j r true control = record {
  ended = omega arith;
  answered_once = omega arith;
  answered_or_cancelled = omega arith;
}
sends-Balanced id j r false control =
    Balanced-append id _ _ _ _ _ _ (undelivered j r ∷ []) (record_closed_response j control)
      (record {
        ended = omega arith;
        answered_once = omega arith;
        answered_or_cancelled = omega arith;
      })
      (reason-Balanced id j (one_if (j == id)) 0 (cancellation_reason control while_running))

pub ends-Balanced : (id j : ℕ) → IsBalanced id (finished j ∷ []) (one_if (j == id)) 0 0 0
unfolding tally
ends-Balanced id j = record {
  ended = omega arith;
  answered_once = omega arith;
  answered_or_cancelled = omega arith;
}

pub starts-Balanced :
    (id j : ℕ) → IsBalanced id (started j ∷ []) 0 0 (one_if (j == id)) (one_if (j == id))
unfolding tally
starts-Balanced id j = record {
  ended = omega arith;
  answered_once = omega arith;
  answered_or_cancelled = omega arith;
}

pub cancels-Balanced :
    (id j : ℕ) (control : JobControl)
    → IsBalanced id
        (record_closed_response j control ++ runner_cancelled j ∷ [])
        (one_if (j == id))
        (one_if (j == id))
        (one_if (j == id))
        0
unfolding tally
cancels-Balanced id j control =
    Balanced-append id _ _ _ _ _ _ (record_closed_response j control) (runner_cancelled j ∷ [])
      (reason-Balanced id j (one_if (j == id)) (one_if (j == id))
        (cancellation_reason control while_running))
      (record {
        ended = omega arith;
        answered_once = omega arith;
        answered_or_cancelled = omega arith;
      })

-- A response that may fail, and then cancels the runner.
pub outcome-Balanced :
    (id j : ℕ) (r : RunResult) (delivered : Bool) (control : JobControl)
    → IsBalanced id
        (send_response j r delivered (record_closed_response j control ++ runner_cancelled j ∷ []))
        (one_if (j == id))
        (one_if (j == id))
        (one_if (j == id))
        0
unfolding send_response tally
outcome-Balanced id j r true control = record {
  ended = omega arith;
  answered_once = omega arith;
  answered_or_cancelled = omega arith;
}
outcome-Balanced id j r false control =
    Balanced-append id _ _ _ _ _ _ (undelivered j r ∷ [])
      (record_closed_response j control ++ runner_cancelled j ∷ [])
      (record {
        ended = omega arith;
        answered_once = omega arith;
        answered_or_cancelled = omega arith;
      })
      (Balanced-append id _ _ _ _ _ _ (record_closed_response j control) (runner_cancelled j ∷ [])
        (reason-Balanced id j (one_if (j == id)) 0 (cancellation_reason control while_running))
        (record {
          ended = omega arith;
          answered_once = omega arith;
          answered_or_cancelled = omega arith;
        }))
