-- ===== src/Fanout/QueueLaws.antt =====
-- Lemmas about `BufferedBranchQueue` of crates/synchrosonic-transport/src/fanout.rs, over any channel
-- that behaves as documented.
use audio_share.Base.{
  ℕ, zero, suc, ◌+◌, ◌-◌, max, ◌≤◌, ◌<◌, ◌≡◌, refl, ap, ◌∙◌, List, [], ◌∷◌, ◌++◌, some, Result, ok,
  length, drop, drop-drop, length-append, length-drop, dec_lt, arith,
}
use audio_share.Stream.{u64}
use audio_share.Protocol.{TransportError}
use audio_share.Fanout.Channel.{Flume, FlumeLaws, sent}
use audio_share.Fanout.Queue.{
  BufferedPushOutcome, enqueued, dropped_oldest, dropped_newest, BufferedBranchQueue, new,
  take_items, push, on_try_recv,
}

module _ {C T : Type 0} {flume : Flume C T} (laws : FlumeLaws flume) where
  open laws use {contents}

  -- The channel is as large as the queue says, and not over full.
  pub record IsValid (q : BufferedBranchQueue C) : Type 0 where
    pub same : laws.capacity q.channel ≡ q.capacity
    pub positive : 1 ≤ q.capacity
    pub within : length (contents q.channel) ≤ q.capacity

  pub new-IsValid : (n : ℕ) → IsValid (new flume n)
  unfolding new
  new-IsValid n = record {
    same = laws.capacity-bounded (max n 1);
    positive = omega arith;
    within = rw (laws.contents-bounded (max n 1)) (omega arith);
  }

  capacity-take_items : (n : ℕ) (c : C) → laws.capacity (take_items flume n c) ≡ laws.capacity c
  unfolding take_items
  capacity-take_items zero c = refl
  capacity-take_items (suc n) c =
      capacity-take_items n (flume.try_recv c).1 ∙ laws.capacity-try_recv c

  contents-try_recv :
      (xs : List T) (c : C) → contents c ≡ xs → contents (flume.try_recv c).1 ≡ drop 1 xs
  contents-try_recv [] c h = rw (laws.try_recv_none c h) h
  contents-try_recv (x ∷ xs) c h = (laws.try_recv_some c x xs h).1

  drop_one : (n : ℕ) (xs : List T) → drop n (drop 1 xs) ≡ drop (suc n) xs
  drop_one zero [] = refl
  drop_one (suc n) [] = refl
  drop_one n (x ∷ xs) = refl

  contents-take_items : (n : ℕ) (c : C) → contents (take_items flume n c) ≡ drop n (contents c)
  unfolding take_items
  contents-take_items zero c = refl
  contents-take_items (suc n) c =
      contents-take_items n (flume.try_recv c).1
      ∙ ap (drop n) (contents-try_recv (contents c) c refl)
      ∙ drop_one n (contents c)

  -- What a channel with room does with an item.
  try_send_sent :
      (x : T) (c : C)
      → length (contents c) < laws.capacity c
      → (c' : C) × (flume.try_send x c ≡ (sent, c'))
        × (contents c' ≡ contents c ++ (x ∷ []))
        × (laws.capacity c' ≡ laws.capacity c)
  try_send_sent x c h = (
    (flume.try_send x c).1,
    ap (λ r. (r, (flume.try_send x c).1)) (laws.try_send_room x c h).0,
    (laws.try_send_room x c h).1,
    laws.capacity-try_send x c,
  )

  -- The three ways of a push, with the worker taking `sooner` and then `later` items meanwhile.
  pub data Push (sooner later : ℕ) (x : T) (q : BufferedBranchQueue C)
      : Result TransportError BufferedPushOutcome × BufferedBranchQueue C → Type 0 where
    has_room :
        (c' : C)
        → length (contents q.channel) < q.capacity
        → contents c' ≡ contents q.channel ++ (x ∷ [])
        → laws.capacity c' ≡ laws.capacity q.channel
        → Push sooner later x q (ok enqueued, record q { channel = c' })
    drops_oldest :
        (c' : C)
        → length (contents q.channel) ≡ q.capacity
        → sooner < q.capacity
        → contents c' ≡ drop later (drop (suc sooner) (contents q.channel)) ++ (x ∷ [])
        → laws.capacity c' ≡ laws.capacity q.channel
        → Push sooner later x q (
          ok dropped_oldest,
          record q { channel = c'; dropped_packets = u64 (q.dropped_packets + 1) },
        )
    drops_newest :
        (c' : C)
        → length (contents q.channel) ≡ q.capacity
        → q.capacity ≤ sooner
        → contents c' ≡ []
        → laws.capacity c' ≡ laws.capacity q.channel
        → Push sooner later x q (
          ok dropped_newest,
          record q { channel = c'; dropped_packets = u64 (q.dropped_packets + 1) },
        )

  length-cons :
      (xs : List T) (n : ℕ) → length xs ≡ n → 0 < n → (y : T) × (ys : List T) × (xs ≡ y ∷ ys)
  length-cons [] n e h = absurd (omega arith)
  length-cons (y ∷ ys) n e h = (y, ys, refl)

  length-nil : (xs : List T) → length xs ≡ 0 → xs ≡ []
  length-nil [] e = refl
  length-nil (y ∷ ys) e = absurd (omega arith)

  module _ (sooner later : ℕ) (x : T) (q : BufferedBranchQueue C) (v : IsValid q) where
    Push-dropping :
        length (contents q.channel) ≡ q.capacity
        → sooner < q.capacity
        → Push sooner later x q
            (on_try_recv flume later x q (flume.try_recv (take_items flume sooner q.channel)))
    Push-dropping h lt =
        let same = v.same in
        let taken = take_items flume sooner q.channel in
        let e = contents-take_items sooner q.channel in
        let len : length (contents taken) ≡ q.capacity - sooner =
          rw e (length-drop sooner (contents q.channel) ∙ ap (λ n. n - sooner) h) in
        let (y, ys, cons) = length-cons (contents taken) (q.capacity - sooner) len (omega arith) in
        let c1 = (flume.try_recv taken).1 in
        let e0 : flume.try_recv taken ≡ (some y, c1) =
          ap (λ r. (r, c1)) (laws.try_recv_some taken y ys cons).0 in
        let c2 = take_items flume later c1 in
        let e1 : contents c1 ≡ drop (suc sooner) (contents q.channel) =
          contents-try_recv (contents taken) taken refl
          ∙ ap (drop 1) e
          ∙ drop-drop 1 sooner (contents q.channel)
          ∙ ap (λ n. drop n (contents q.channel)) {x = sooner + 1} {y = suc sooner} (omega arith) in
        let e2 : contents c2 ≡ drop later (drop (suc sooner) (contents q.channel)) =
          contents-take_items later c1 ∙ ap (drop later) e1 in
        let cap2 : laws.capacity c2 ≡ laws.capacity q.channel =
          capacity-take_items later c1
          ∙ laws.capacity-try_recv taken
          ∙ capacity-take_items sooner q.channel in
        let len2 : length (contents c2) ≡ q.capacity - suc sooner - later = rw e2 (
          length-drop later (drop (suc sooner) (contents q.channel))
          ∙ ap (λ n. n - later) (length-drop (suc sooner) (contents q.channel))
          ∙ ap (λ n. n - suc sooner - later) h) in
        let (c3, e3, cs, k) = try_send_sent x c2 (omega (arith, len2, cap2, same)) in
        rw (e0, e3) (drops_oldest c3 h lt (cs ∙ ap (λ l. l ++ (x ∷ [])) e2) (k ∙ cap2))

    push_full :
        length (contents q.channel) ≡ q.capacity
        → Push sooner later x q (push flume sooner later x q)
    unfolding push
    push_full h =
        let same = v.same in
        let taken = take_items flume sooner q.channel in
        let e = contents-take_items sooner q.channel in
        let cap_taken = capacity-take_items sooner q.channel in
        let len : length (contents taken) ≡ q.capacity - sooner =
          rw e (length-drop sooner (contents q.channel) ∙ ap (λ n. n - sooner) h) in
        rw (laws.try_send_full x q.channel (rw (same, h) (omega arith)))
          (elim (dec_lt sooner q.capacity) [
            | yes lt ↦ Push-dropping h lt
            | no ge ↦
                let nil = length-nil (contents taken) (omega (arith, len)) in
                rw (laws.try_recv_none taken nil) (drops_newest taken h (omega arith) nil cap_taken)
          ])

    pub push_lem : Push sooner later x q (push flume sooner later x q)
    unfolding push
    push_lem = elim (dec_lt (length (contents q.channel)) q.capacity) [
      | yes lt ↦
          let same = v.same in
          let (c', e, cs, k) = try_send_sent x q.channel (rw same lt) in rw e (has_room c' lt cs k)
      | no ge ↦ let w = v.within in push_full (omega arith)
    ]

    Push-IsValid :
        {r : Result TransportError BufferedPushOutcome × BufferedBranchQueue C}
        → Push sooner later x q r
        → IsValid r.1
    Push-IsValid (has_room c' lt cs k) = record {
      same = k ∙ v.same;
      positive = v.positive;
      within = rw cs (let e = length-append (contents q.channel) (x ∷ []) in omega (arith, e, lt));
    }
    Push-IsValid (drops_oldest c' h lt cs k) =
        let rest = drop (suc sooner) (contents q.channel) in
        record {
          same = k ∙ v.same;
          positive = v.positive;
          within = rw cs (
              let e = length-append (drop later rest) (x ∷ []) in
              let e1 = length-drop later rest in
              let e2 = length-drop (suc sooner) (contents q.channel) in
              omega (arith, e, e1, e2, h, lt));
        }
    Push-IsValid (drops_newest c' h ge nil k) = record {
      same = k ∙ v.same;
      positive = v.positive;
      within = rw nil (omega arith);
    }

    -- Whatever the worker takes while an item is pushed, the queue stays within its capacity.
    pub push-IsValid : IsValid (push flume sooner later x q).1
    push-IsValid = Push-IsValid push_lem
