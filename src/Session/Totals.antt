-- ===== src/Session/Totals.antt =====
-- Lemmas about `StreamMetrics::accumulate` (crates/synchrosonic-core/src/streaming.rs) and
-- `aggregate_metrics`.
use audio_share.Base.{
  ℕ, ◌+◌, ◌≤◌, ◌≡◌, ◌⊎◌, inl, inr, refl, ◌∙◌, Option, none, some, arith, List, [], ◌∷◌, map, All,
  max,
}
use audio_share.Stream.{u64}
use audio_share.Session.{
  StreamMetrics, StreamTargetSnapshot, accumulate, slower, no_metrics, aggregate_from,
  aggregate_metrics,
}

-- The sum of a counter over the targets, as a number without bound.
abbrev pub sum_of : (StreamMetrics → ℕ) → List StreamTargetSnapshot → ℕ
sum_of f [] = 0
sum_of f (t ∷ ts) = f t.metrics + sum_of f ts

abbrev pub latencies : List StreamTargetSnapshot → List (Option ℕ)
latencies ts = map (λ (t : StreamTargetSnapshot). t.metrics.latency_estimate_ms) ts

abbrev pub IsReported : ℕ → List (Option ℕ) → Type 0
IsReported n [] = ⊥
IsReported n (l ∷ ls) = (l ≡ some n) ⊎ IsReported n ls

abbrev pub IsWithin : ℕ → Option ℕ → Type 0
IsWithin n none = Unit
IsWithin n (some m) = m ≤ n

-- The greatest of the latencies that are reported, if any is.
abbrev pub IsGreatest : List (Option ℕ) → Option ℕ → Type 0
IsGreatest ls none = All (λ (l : Option ℕ). l ≡ none) ls
IsGreatest ls (some n) = IsReported n ls × All (IsWithin n) ls

pub record IsTotal (ts : List StreamTargetSnapshot) (m : StreamMetrics) : Type 0 where
  pub packets_sent : m.packets_sent ≡ u64 (sum_of (λ x. x.packets_sent) ts)
  pub packets_received : m.packets_received ≡ u64 (sum_of (λ x. x.packets_received) ts)
  pub bytes_sent : m.bytes_sent ≡ u64 (sum_of (λ x. x.bytes_sent) ts)
  pub bytes_received : m.bytes_received ≡ u64 (sum_of (λ x. x.bytes_received) ts)
  pub bitrate : m.estimated_bitrate_bps ≡ u64 (sum_of (λ x. x.estimated_bitrate_bps) ts)
  pub packet_gaps : m.packet_gaps ≡ u64 (sum_of (λ x. x.packet_gaps) ts)
  pub keepalives_sent : m.keepalives_sent ≡ u64 (sum_of (λ x. x.keepalives_sent) ts)
  pub keepalives_received : m.keepalives_received ≡ u64 (sum_of (λ x. x.keepalives_received) ts)
  pub latency : IsGreatest (latencies ts) m.latency_estimate_ms

module _ (f : StreamMetrics → ℕ)
    (adds : (a b : StreamMetrics) → f (accumulate a b) ≡ u64 (f a + f b)) where
  aggregate_from-sum :
      (ts : List StreamTargetSnapshot) (m : StreamMetrics) (n : ℕ)
      → f m ≡ u64 n
      → f (aggregate_from m ts) ≡ u64 (n + sum_of f ts)
  unfolding aggregate_from
  aggregate_from-sum [] m n h = omega (arith, h)
  aggregate_from-sum (t ∷ ts) m n h =
      let e = adds m t.metrics in
      aggregate_from-sum ts (accumulate m t.metrics) (n + f t.metrics) (omega (arith, h, e))
      ∙ omega arith

  aggregate_metrics-sum :
      (ts : List StreamTargetSnapshot)
      → f no_metrics ≡ 0
      → f (aggregate_metrics ts) ≡ u64 (sum_of f ts)
  unfolding aggregate_metrics
  aggregate_metrics-sum ts h = aggregate_from-sum ts no_metrics 0 (omega (arith, h)) ∙ omega arith

slowest_from : Option ℕ → List (Option ℕ) → Option ℕ
slowest_from o [] = o
slowest_from o (l ∷ ls) = slowest_from (slower o l) ls

slower-IsGreatest :
    (o l : Option ℕ) (ls : List (Option ℕ)) (r : Option ℕ)
    → IsGreatest (slower o l ∷ ls) r
    → IsGreatest (o ∷ l ∷ ls) r
slower-IsGreatest none none ls none h = (refl, h)
slower-IsGreatest none (some b) ls none h = (refl, h)
slower-IsGreatest (some a) none ls none h = (h.0, (refl, h.1))
slower-IsGreatest (some a) (some b) ls none h = absurd (ground (arith, h.0))
slower-IsGreatest none none ls (some n) (r, w) = (inr r, (tt, w))
slower-IsGreatest none (some b) ls (some n) (r, w) = (inr r, (tt, w))
slower-IsGreatest (some a) none ls (some n) (inl e, w) = (inl e, (w.0, (tt, w.1)))
slower-IsGreatest (some a) none ls (some n) (inr r, w) = (inr (inr r), (w.0, (tt, w.1)))
slower-IsGreatest (some a) (some b) ls (some n) (inr r, w) =
    (inr (inr r), (omega (arith, w.0), (omega (arith, w.0), w.1)))
slower-IsGreatest (some a) (some b) ls (some n) (inl e, w) =
    (one_of e, (omega (arith, w.0), (omega (arith, w.0), w.1)))
  where
    one_of : some (max a b) ≡ some n → (some a ≡ some n) ⊎ (some b ≡ some n) ⊎ IsReported n ls
    one_of e = ground arith

slowest_from-IsGreatest :
    (ls : List (Option ℕ)) (o : Option ℕ) → IsGreatest (o ∷ ls) (slowest_from o ls)
unfolding slowest_from
slowest_from-IsGreatest [] none = (refl, tt)
slowest_from-IsGreatest [] (some n) = (inl refl, (omega arith, tt))
slowest_from-IsGreatest (l ∷ ls) o =
    slower-IsGreatest o l ls (slowest_from (slower o l) ls)
      (slowest_from-IsGreatest ls (slower o l))

drop_none : (ls : List (Option ℕ)) (r : Option ℕ) → IsGreatest (none ∷ ls) r → IsGreatest ls r
drop_none ls none h = h.1
drop_none ls (some n) (inl e, w) = absurd (ground (arith, e))
drop_none ls (some n) (inr r, w) = (r, w.1)

aggregate_from-latency :
    (ts : List StreamTargetSnapshot) (m : StreamMetrics)
    → (aggregate_from m ts).latency_estimate_ms ≡ slowest_from m.latency_estimate_ms (latencies ts)
unfolding aggregate_from accumulate slowest_from
aggregate_from-latency [] m = refl
aggregate_from-latency (t ∷ ts) m = aggregate_from-latency ts (accumulate m t.metrics)

aggregate_metrics-IsGreatest :
    (ts : List StreamTargetSnapshot)
    → IsGreatest (latencies ts) (aggregate_metrics ts).latency_estimate_ms
unfolding aggregate_metrics
aggregate_metrics-IsGreatest ts =
    drop_none (latencies ts) _
      (rw (aggregate_from-latency ts no_metrics) (slowest_from-IsGreatest (latencies ts) none))

-- In the total of the targets' metrics every counter, the bitrate included, is the sum of the
-- targets' ones modulo 2^64, and the latency is the greatest that a target reports, or none
-- where no target reports one.
pub aggregate_metrics-IsTotal : (ts : List StreamTargetSnapshot) → IsTotal ts (aggregate_metrics ts)
unfolding accumulate
aggregate_metrics-IsTotal ts = record {
  packets_sent = aggregate_metrics-sum (λ x. x.packets_sent) (λ a b. refl) ts refl;
  packets_received = aggregate_metrics-sum (λ x. x.packets_received) (λ a b. refl) ts refl;
  bytes_sent = aggregate_metrics-sum (λ x. x.bytes_sent) (λ a b. refl) ts refl;
  bytes_received = aggregate_metrics-sum (λ x. x.bytes_received) (λ a b. refl) ts refl;
  bitrate = aggregate_metrics-sum (λ x. x.estimated_bitrate_bps) (λ a b. refl) ts refl;
  packet_gaps = aggregate_metrics-sum (λ x. x.packet_gaps) (λ a b. refl) ts refl;
  keepalives_sent = aggregate_metrics-sum (λ x. x.keepalives_sent) (λ a b. refl) ts refl;
  keepalives_received = aggregate_metrics-sum (λ x. x.keepalives_received) (λ a b. refl) ts refl;
  latency = aggregate_metrics-IsGreatest ts;
}
