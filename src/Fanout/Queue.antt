-- ===== src/Fanout/Queue.antt =====
-- crates/synchrosonic-transport/src/fanout.rs: `BufferedBranchQueue`. The worker that takes items
-- off the queue runs beside the code that pushes: between the calls of `push` it may take some.
use audio_share.Base.{ℕ, zero, suc, ◌+◌, ◌%◌, min, max, Option, none, some, Result, ok, err}
use audio_share.Stream.{u64, u32_mod}
use audio_share.Session.{StreamBranchBufferSnapshot}
use audio_share.Protocol.{TransportError, channel_closed}
use audio_share.Fanout.Channel.{Flume, TrySend, sent, full, disconnected}

pub data BufferedPushOutcome : Type 0 where
  enqueued dropped_oldest dropped_newest : BufferedPushOutcome

pub record BufferedBranchQueue (C : Type 0) : Type 0 where
  pub channel : C
  pub capacity : ℕ
  pub dropped_packets : ℕ

module _ {C T : Type 0} (flume : Flume C T) where
  unfoldable pub new : ℕ → BufferedBranchQueue C
  new capacity = record {
    channel = flume.bounded (max capacity 1);
    capacity = max capacity 1;
    dropped_packets = 0;
  }

  unfoldable pub snapshot : BufferedBranchQueue C → StreamBranchBufferSnapshot
  snapshot q = record {
    queued_packets = min (flume.len q.channel) q.capacity % u32_mod;
    max_packets = q.capacity % u32_mod;
    dropped_packets = q.dropped_packets;
  }

  abbrev pub drained : (C → C) → Option T × C → C
  drained rest (none, c) = c
  drained rest (some x, c) = rest c

  -- `while try_recv().is_ok() {}`, with more fuel than the channel has items.
  unfoldable pub drain : ℕ → C → C
  drain zero c = c
  drain (suc fuel) c = drained (drain fuel) (flume.try_recv c)

  unfoldable pub clear : BufferedBranchQueue C → BufferedBranchQueue C
  unfolding drain
  clear q = record q { channel = drain (suc (flume.len q.channel)) q.channel }

  -- The worker at the other end takes up to `n` items.
  unfoldable pub take_items : ℕ → C → C
  take_items zero c = c
  take_items (suc n) c = take_items n (flume.try_recv c).1

  -- `fetch_add(1)`
  abbrev count_drop : BufferedBranchQueue C → BufferedBranchQueue C
  count_drop q = record q { dropped_packets = u64 (q.dropped_packets + 1) }

  abbrev on_channel : BufferedBranchQueue C → C → BufferedBranchQueue C
  on_channel q c = record q { channel = c }

  abbrev pub on_second_send :
      BufferedBranchQueue C
      → TrySend T × C
      → Result TransportError BufferedPushOutcome × BufferedBranchQueue C
  on_second_send q (sent, c) = (ok dropped_oldest, on_channel q c)
  on_second_send q (disconnected item, c) = (err channel_closed, on_channel q c)
  on_second_send q (full item, c) = (ok dropped_newest, count_drop (on_channel q c))

  -- The worker takes `later` items before the second `try_send`.
  abbrev pub on_try_recv :
      ℕ
      → T
      → BufferedBranchQueue C
      → Option T × C
      → Result TransportError BufferedPushOutcome × BufferedBranchQueue C
  on_try_recv later item q (some oldest, c) =
      on_second_send (count_drop q) (flume.try_send item (take_items later c))
  on_try_recv later item q (none, c) = (ok dropped_newest, count_drop (on_channel q c))

  -- It takes `sooner` items before the `try_recv`.
  abbrev pub on_first_send :
      ℕ
      → ℕ
      → BufferedBranchQueue C
      → TrySend T × C
      → Result TransportError BufferedPushOutcome × BufferedBranchQueue C
  on_first_send sooner later q (sent, c) = (ok enqueued, on_channel q c)
  on_first_send sooner later q (disconnected item, c) = (err channel_closed, on_channel q c)
  on_first_send sooner later q (full item, c) =
      on_try_recv later item q (flume.try_recv (take_items sooner c))

  unfoldable pub push :
      ℕ
      → ℕ
      → T
      → BufferedBranchQueue C
      → Result TransportError BufferedPushOutcome × BufferedBranchQueue C
  unfolding take_items
  push sooner later item q = on_first_send sooner later q (flume.try_send item q.channel)
