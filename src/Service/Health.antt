-- ===== src/Service/Health.antt =====
-- backend/src/api.rs: the readiness of the service, and the errors of a JSON body.
use rust_daily.Base.{if◌then◌else◌, Bool, ℕ}
use rust_daily.Queue.{QueueSummary}
use rust_daily.Service.{ApiError, json_payload_too_large, invalid_json}
use rust_daily.Text.{Text, codes}

pub record QueueHealthResponse : Type 0 where
  pub capacity : ℕ
  pub queued_depth : ℕ
  pub available_slots : ℕ
  pub running_jobs : ℕ
  pub workers : ℕ
  pub closed : Bool

pub record ReadinessResponse : Type 0 where
  pub status : Text
  pub queue : QueueHealthResponse

-- `QueueHealthResponse::from`.
unfoldable pub queue_health : QueueSummary → QueueHealthResponse
queue_health s = record {
  capacity = s.queue_capacity;
  queued_depth = s.queued_depth;
  available_slots = s.available_slots;
  running_jobs = s.running_jobs;
  workers = s.workers;
  closed = s.is_closed;
}

-- The status and the body of `readyz`.
unfoldable pub readyz : QueueSummary → ℕ × ReadinessResponse
readyz s = (
  if s.is_closed then 503 else 200,
  record {
    status = if s.is_closed then codes "unavailable" else codes "ok";
    queue = queue_health s;
  },
)

-- The errors of the JSON extractor that the code tells apart.
pub data JsonPayloadError : Type 0 where
  overflow overflow_known_length other_json_error : JsonPayloadError

unfoldable pub json_payload_error : JsonPayloadError → ApiError
json_payload_error overflow = json_payload_too_large
json_payload_error overflow_known_length = json_payload_too_large
json_payload_error other_json_error = invalid_json
