-- ===== src/Fanout/Window.antt =====
-- The queue of crates/synchrosonic-transport/src/fanout.rs as a sliding window.
use audio_share.Base.{
  newest, newest-newest, ℕ, zero, suc, ◌-◌, ◌<◌, ◌≡◌, refl, sym, ap, ◌∙◌, List, [], ◌∷◌, ◌++◌, some,
  Result, length, drop, drop-append, length-append, arith,
}
use mathlib.Core.List.{append_assoc, append-nil}
use audio_share.Protocol.{TransportError}
use audio_share.Fanout.Channel.{Flume, FlumeLaws}
use audio_share.Fanout.Queue.{BufferedPushOutcome, BufferedBranchQueue, clear, drain, drained, push}
use audio_share.Fanout.QueueLaws.{
  IsValid, Push, has_room, drops_oldest, drops_newest, push_lem, push-IsValid,
}

module _ {C T : Type 0} {flume : Flume C T} (laws : FlumeLaws flume) where
  open laws use {contents}

  Push-newest :
      (x : T) (q : BufferedBranchQueue C)
      → IsValid laws q
      → {r : Result TransportError BufferedPushOutcome × BufferedBranchQueue C}
      → Push laws 0 0 x q r
      → (contents r.1.channel ≡ newest q.capacity (contents q.channel ++ (x ∷ [])))
        × (r.1.capacity ≡ q.capacity)
  Push-newest x q v (has_room c' lt cs k) =
      let e = length-append (contents q.channel) (x ∷ []) in
      (
        cs
            ∙ ap (λ n. drop n (contents q.channel ++ (x ∷ []))) {x = 0}
                {y = length (contents q.channel ++ (x ∷ [])) - q.capacity} (omega (arith, e, lt)),
        refl,
      )
  Push-newest x q v (drops_oldest c' h lt cs k) =
      let e = length-append (contents q.channel) (x ∷ []) in
      (
        cs
            ∙ sym (
                drop-append 1 (contents q.channel) (x ∷ [])
                  (let p = v.positive in omega (arith, h, p)))
            ∙ ap (λ n. drop n (contents q.channel ++ (x ∷ []))) {x = 1}
                {y = length (contents q.channel ++ (x ∷ [])) - q.capacity} (omega (arith, e, h)),
        refl,
      )
  Push-newest x q v (drops_newest c' h ge nil k) =
      absurd (let p = v.positive in omega (arith, p, ge))

  unfoldable pub push_all : List T → BufferedBranchQueue C → BufferedBranchQueue C
  push_all [] q = q
  push_all (x ∷ xs) q = push_all xs (push flume 0 0 x q).1

  keep_all :
      (q : BufferedBranchQueue C)
      → IsValid laws q
      → contents q.channel ≡ newest q.capacity (contents q.channel ++ [])
  keep_all q v =
      let w = v.within in
      rw append-nil (
        ap (λ i. drop i (contents q.channel)) {x = 0} {y = length (contents q.channel) - q.capacity}
          (omega (arith, w)))

  -- Over any channel that behaves as documented, and while the worker takes nothing, pushing
  -- items on a valid queue leaves exactly the newest `capacity` of the old items followed by the
  -- new ones, in order.
  pub push_all-newest_items :
      (xs : List T) (q : BufferedBranchQueue C)
      → IsValid laws q
      → contents (push_all xs q).channel ≡ newest q.capacity (contents q.channel ++ xs)
  unfolding push_all
  push_all-newest_items [] q v = keep_all q v
  push_all-newest_items (x ∷ xs) q v =
      let (e, k) = Push-newest x q v (push_lem laws 0 0 x q v) in
      push_all-newest_items xs (push flume 0 0 x q).1 (push-IsValid laws 0 0 x q v)
      ∙ ap (λ n. newest n (contents (push flume 0 0 x q).1.channel ++ xs)) k
      ∙ ap (λ l. newest q.capacity (l ++ xs)) e
      ∙ newest-newest q.capacity (contents q.channel ++ (x ∷ [])) xs
      ∙ ap (newest q.capacity) (append_assoc (contents q.channel) (x ∷ []) xs)

  drained-nil :
      (fuel : ℕ) (rest : C → C)
      → ((c : C) → length (contents c) < fuel → contents (rest c) ≡ [])
      → (xs : List T) (c : C) → contents c ≡ xs
      → length xs < suc fuel
      → contents (drained flume rest (flume.try_recv c)) ≡ []
  drained-nil fuel rest all [] c e h = rw (laws.try_recv_none c e) e
  drained-nil fuel rest all (x ∷ xs) c e h =
      let (e0, e1) = laws.try_recv_some c x xs e in
      let c1 = (flume.try_recv c).1 in
      let p : flume.try_recv c ≡ (some x, c1) = ap (λ r. (r, c1)) e0 in
      rw p (all c1 (rw e1 (omega arith)))

  drain-nil : (fuel : ℕ) (c : C) → length (contents c) < fuel → contents (drain flume fuel c) ≡ []
  unfolding drain
  drain-nil zero c h = absurd (omega arith)
  drain-nil (suc fuel) c h =
      drained-nil fuel (drain flume fuel) (drain-nil fuel) (contents c) c refl h

  -- Clearing leaves nothing in the queue.
  pub clear_empty : (q : BufferedBranchQueue C) → contents (clear flume q).channel ≡ []
  unfolding clear
  clear_empty q =
      drain-nil (suc (flume.len q.channel)) q.channel
        (let e = laws.len_lem q.channel in omega (arith, e))
