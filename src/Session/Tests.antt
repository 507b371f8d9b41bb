-- ===== src/Session/Tests.antt =====
-- The metrics of two targets.
use audio_share.Base.{ℕ, [], ◌∷◌, none, some, String}
use audio_share.Discovery.Address.{v4}
use audio_share.Session.{
  StreamSessionState, StreamTargetHealth, StreamTargetSnapshot, no_metrics, aggregate_metrics,
}
use audio_share.Session.Totals.{IsTotal, aggregate_metrics-IsTotal}

abbrev target : String → ℕ → StreamTargetSnapshot
target id sent = record {
  receiver_id = id;
  receiver_name = id;
  endpoint = record { ip = v4 192 168 1 20; port = 51700 };
  state = StreamSessionState.streaming;
  health = StreamTargetHealth.healthy;
  session_id = none;
  codec = none;
  stream = none;
  network_buffer = record { queued_packets = 0; max_packets = 0; dropped_packets = 0 };
  metrics = record no_metrics { packets_sent = sent; latency_estimate_ms = some sent };
  attempt_count = 1;
  next_retry_at_unix_ms = none;
  last_error_kind = none;
  last_error = none;
}

aggregate_metrics-IsTotal_example :
    IsTotal
      (target "office" 3 ∷ target "kitchen" 5 ∷ [])
      (aggregate_metrics (target "office" 3 ∷ target "kitchen" 5 ∷ []))
aggregate_metrics-IsTotal_example =
    aggregate_metrics-IsTotal (target "office" 3 ∷ target "kitchen" 5 ∷ [])
