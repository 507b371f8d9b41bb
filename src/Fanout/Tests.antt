-- ===== src/Fanout/Tests.antt =====
-- The branches at a concrete channel, a list of at most `limit` items.
use audio_share.Base.{
  ℕ, suc, ◌≤◌, ◌<◌, ◌≡◌, refl, false, List, [], ◌∷◌, ◌++◌, Option, none, some, ok, err, length, ltb,
  if◌then◌else◌, newest, arith,
}
use audio_share.Stream.{default_stream}
use audio_share.Receiver.State.{PlaybackStartRequest}
use audio_share.Fanout.Channel.{Flume, FlumeLaws, sent, full}
use audio_share.Fanout.Queue.{BufferedBranchQueue}
use audio_share.Fanout.QueueLaws.{IsValid}
use audio_share.Fanout.Window.{push_all, push_all-newest_items}
use audio_share.Fanout.Mirror.{
  FanoutAudioFrame, Engine, Round, local_mirror_worker_loop, new_worker, start, stop, timeout,
  arrived,
}
use audio_share.Fanout.MirrorLaws.{IsSettled, local_mirror_worker_loop-IsSettled}

pub record Bounded (T : Type 0) : Type 0 where
  pub limit : ℕ
  pub items : List T

abbrev pub recv : {T : Type 0} → ℕ → List T → Option T × Bounded T
recv n [] = (none, record { limit = n; items = [] })
recv n (x ∷ xs) = (some x, record { limit = n; items = xs })

abbrev pub channel : {T : Type 0} → Flume (Bounded T) T
channel = record {
  bounded = λ n. record { limit = n; items = [] };
  try_send = λ x c.
      (if ltb (length c.items) c.limit
        then (sent, record c { items = c.items ++ (x ∷ []) })
        else (full x, c));
  try_recv = λ c. recv c.limit c.items;
  len = λ c. length c.items;
}

recv-none :
    {T : Type 0} (n : ℕ) (xs : List T)
    → xs ≡ []
    → recv n xs ≡ (none, record { limit = n; items = xs })
recv-none n [] h = refl
recv-none n (x ∷ xs) h = absurd (ground arith)

recv-some :
    {T : Type 0} (n : ℕ) (xs : List T) (y : T) (ys : List T)
    → xs ≡ y ∷ ys
    → ((recv n xs).0 ≡ some y) × ((recv n xs).1.items ≡ ys)
recv-some n xs y ys h = rw h (refl, refl)

recv_limit : {T : Type 0} (n : ℕ) (xs : List T) → (recv n xs).1.limit ≡ n
recv_limit n [] = refl
recv_limit n (x ∷ xs) = refl

sent_with_room :
    {T : Type 0} (x : T) (c : Bounded T)
    → length c.items < c.limit
    → ((channel.try_send x c).0 ≡ sent) × ((channel.try_send x c).1.items ≡ c.items ++ (x ∷ []))
sent_with_room x c h = (ground arith, ground arith)

full_without :
    {T : Type 0} (x : T) (c : Bounded T)
    → c.limit ≤ length c.items
    → channel.try_send x c ≡ (full x, c)
full_without x c h = ground arith

sent_limit : {T : Type 0} (x : T) (c : Bounded T) → (channel.try_send x c).1.limit ≡ c.limit
sent_limit x c = ground arith

abbrev channel_laws : {T : Type 0} → FlumeLaws (channel {T = T})
channel_laws = record {
  contents = λ c. c.items;
  capacity = λ c. c.limit;
  contents-bounded = λ n. refl;
  capacity-bounded = λ n. refl;
  try_send_room = sent_with_room;
  try_send_full = full_without;
  capacity-try_send = sent_limit;
  try_recv_none = λ c h. recv-none c.limit c.items h;
  try_recv_some = λ c x xs h. recv-some c.limit c.items x xs h;
  capacity-try_recv = λ c. recv_limit c.limit c.items;
  len_lem = λ c. refl;
}

-- A queue of two.
abbrev two : BufferedBranchQueue (Bounded ℕ)
two = record { channel = record { limit = 2; items = [] }; capacity = 2; dropped_packets = 0 }

two-IsValid : IsValid channel_laws two
two-IsValid = record { same = refl; positive = omega arith; within = omega arith }

push_all-newest_items_example :
    (push_all channel_laws (1 ∷ 2 ∷ 3 ∷ []) two).channel.items ≡ newest 2 ([] ++ (1 ∷ 2 ∷ 3 ∷ []))
push_all-newest_items_example = push_all-newest_items channel_laws (1 ∷ 2 ∷ 3 ∷ []) two two-IsValid

-- Full, and both items are taken while a third is pushed.
abbrev full_queue : BufferedBranchQueue (Bounded ℕ)
full_queue = record {
  channel = record { limit = 2; items = 1 ∷ 2 ∷ [] };
  capacity = 2;
  dropped_packets = 0;
}

abbrev engine : Engine ℕ (Unit {0})
engine = record {
  backend_name = "test";
  start_stream = λ request w. (ok tt, suc w);
  write = λ sink payload w. (ok tt, w);
  stop_sink = λ sink w. (err "gone", w);
}

abbrev request : PlaybackStartRequest
request = record { stream = default_stream; target_id = none; latency_ms = 50 }

abbrev frames : Bounded FanoutAudioFrame
frames = record {
  limit = 4;
  items =
      (record { sequence = 1; captured_at_ms = 0; captured_at_unix_ms = 0; payload = 7 ∷ [] }) ∷ [];
}

abbrev mirror_rounds : List Round
mirror_rounds =
    (record { controls = []; control_wait = arrived (start request); frames_closed = false })
    ∷ (record { controls = []; control_wait = timeout; frames_closed = false })
    ∷ (record { controls = stop ∷ []; control_wait = timeout; frames_closed = false })
    ∷ []

local_mirror_worker_loop-IsSettled_example :
    IsSettled engine channel
      (local_mirror_worker_loop engine channel mirror_rounds (new_worker 0 frames))
unfolding new_worker
local_mirror_worker_loop-IsSettled_example =
    local_mirror_worker_loop-IsSettled engine channel mirror_rounds (new_worker 0 frames) refl
