-- ===== src/Stream/Tests.antt =====
-- Buffer sizes at concrete durations.
use audio_share.Base.{◌*◌, ◌+◌, ◌≤◌, ◌<◌, arith}
use audio_share.Stream.{packet_count_for_duration, millis}
use audio_share.Stream.Limits.{packet_count_covers}

-- A buffer of 70 ms with packets of 3 ms.
packet_count_covers_example :
    (millis 70 ≤ packet_count_for_duration (millis 70) (millis 3) * millis 3)
    × (packet_count_for_duration (millis 70) (millis 3) * millis 3 < millis 70 + millis 3)
packet_count_covers_example =
    packet_count_covers (millis 70) (millis 3) (omega arith) (omega arith) (omega arith)
