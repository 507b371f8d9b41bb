-- ===== src/Sender/ConnectLaws.antt =====
-- Lemmas about `ManagedTargetSession::connect` of crates/synchrosonic-transport/src/sender.rs.
use audio_share.Base.{ℕ, ◌≡◌, refl, ap, Bool, true, false, some, String, Result, ok, err, arith}
use audio_share.Stream.{Ratio}
use audio_share.Session.{
  StreamTargetSnapshot, StreamTargetHealth, StreamTargetFailureKind, StreamSessionState,
}
use audio_share.Protocol.{FrameKind, TransportError}
use audio_share.Protocol.Messages.{AcceptMessage, Codecs}
use audio_share.Fanout.Channel.{Flume}
use audio_share.Fanout.Mirror.{FanoutAudioFrame}
use audio_share.Sender.Policy.{
  SenderTarget, TargetConnectFailure, connect_failure, classify_connect_error,
  pending_target_snapshot,
}
use audio_share.Sender.PolicyLaws.{validate_accept_iff}
use audio_share.Sender.Target.{ManagedTargetSession}
use audio_share.Sender.Connect.{
  ◌>>=◌, ◌>>◌, TargetConnectRequest, Attempt, or_fail, refuse_self, check_kind, activate,
  connect_target, session_id_of,
}

-- A snapshot of the target, in its attempt.
abbrev pub IsOf : SenderTarget → ℕ → StreamTargetSnapshot → Type 0
IsOf target n snapshot = (snapshot.receiver_id ≡ target.receiver_id) × (snapshot.attempt_count ≡ n)

abbrev pub IsFinal : StreamTargetFailureKind → Type 0
IsFinal StreamTargetFailureKind.protocol_mismatch = Unit
IsFinal StreamTargetFailureKind.self_target_blocked = Unit
IsFinal _ = ⊥

abbrev pub IsFinalUnless : Bool → StreamTargetFailureKind → Type 0
IsFinalUnless true kind = ¬ IsFinal kind
IsFinalUnless false kind = IsFinal kind

pub record IsFailure (target : SenderTarget) (n : ℕ) (f : TargetConnectFailure) : Type 0 where
  pub of_target : f.target ≡ target
  pub of_attempt : IsOf target n f.snapshot
  pub in_error : f.snapshot.state ≡ StreamSessionState.error
  pub retried : IsFinalUnless f.retryable f.failure_kind

pub record IsConnected {C : Type 0} (target : SenderTarget) (n : ℕ) (request : TargetConnectRequest)
    (session_id : String) (s : ManagedTargetSession C) : Type 0 where
  pub of_target : s.target ≡ target
  pub of_attempt : IsOf target n s.snapshot
  pub is_streaming : s.snapshot.state ≡ StreamSessionState.streaming
  pub is_healthy : s.snapshot.health ≡ StreamTargetHealth.healthy
  pub as_asked : s.snapshot.stream ≡ some request.stream_config
  pub as_named : s.snapshot.session_id ≡ some session_id

module _ {C : Type 0} (flume : Flume C FanoutAudioFrame) (codecs : Codecs) (ratio : Ratio)
    (to_string : TransportError → String) (show : ℕ → String) where
  module _ (target : SenderTarget) (n : ℕ) (request : TargetConnectRequest)
      (attempt : Attempt) where
    unfoldable pub IsOutcome : Result TargetConnectFailure (ManagedTargetSession C) → Type 0
    IsOutcome (ok s) =
        IsConnected target n request
          (session_id_of flume codecs ratio to_string show target request attempt) s
    IsOutcome (err f) = IsFailure target n f

    unfoldable IsFailing : {A : Type 0} → Result TargetConnectFailure A → Type 0
    IsFailing (ok a) = Unit
    IsFailing (err f) = IsFailure target n f

    or_fail-IsFailing :
        {A : Type 0} (snapshot : StreamTargetSnapshot)
        → IsOf target n snapshot
        → (kind : TransportError → StreamTargetFailureKind) (retryable : Bool)
        → ((e : TransportError) → IsFinalUnless retryable (kind e))
        → (r : Result TransportError A)
        → IsFailing (or_fail flume codecs ratio to_string show target snapshot kind retryable r)
    unfolding or_fail connect_failure IsFailing
    or_fail-IsFailing snapshot h kind retryable k (ok a) = tt
    or_fail-IsFailing snapshot h kind retryable k (err e) = record {
      of_target = refl;
      of_attempt = h;
      in_error = refl;
      retried = k e;
    }

    bind-IsOutcome :
        {A : Type 0} (r : Result TargetConnectFailure A)
        (k : A → Result TargetConnectFailure (ManagedTargetSession C))
        → IsFailing r
        → ((a : A) → r ≡ ok a → IsOutcome (k a))
        → IsOutcome (r >>= k)
    unfolding ◌>>=◌ IsOutcome IsFailing
    bind-IsOutcome (ok a) k h on = on a refl
    bind-IsOutcome (err f) k h on = h

    then-IsOutcome :
        {A : Type 0} (r : Result TargetConnectFailure A)
        (k : Result TargetConnectFailure (ManagedTargetSession C))
        → IsFailing r
        → ((a : A) → r ≡ ok a → IsOutcome k)
        → IsOutcome (r >> k)
    unfolding ◌>>◌ ◌>>=◌ IsOutcome IsFailing
    then-IsOutcome (ok a) k h on = on a refl
    then-IsOutcome (err f) k h on = h

    IsFailure-is :
        (snapshot : StreamTargetSnapshot)
        → IsOf target n snapshot
        → (kind : StreamTargetFailureKind) (message : String) (retryable : Bool)
        → IsFinalUnless retryable kind
        → IsFailure target n (connect_failure target snapshot kind message retryable)
    unfolding connect_failure
    IsFailure-is snapshot h kind message retryable k = record {
      of_target = refl;
      of_attempt = h;
      in_error = refl;
      retried = k;
    }

    refuse_self-IsFailing :
        (snapshot : StreamTargetSnapshot)
        → IsOf target n snapshot
        → IsFailing (refuse_self flume codecs ratio to_string show target snapshot request)
    unfolding IsFailing refuse_self
    refuse_self-IsFailing snapshot h =
        let f =
          IsFailure-is snapshot h StreamTargetFailureKind.self_target_blocked
            "self-target connections are blocked" false tt in
        ground (arith, f)

    check_kind-IsFailing :
        (snapshot : StreamTargetSnapshot)
        → IsOf target n snapshot
        → (kind : FrameKind)
        → IsFailing (check_kind flume codecs ratio to_string show target snapshot kind)
    unfolding IsFailing check_kind
    check_kind-IsFailing snapshot h kind =
        let f =
          IsFailure-is snapshot h StreamTargetFailureKind.protocol_mismatch
            "receiver did not respond with Accept" false tt in
        ground (arith, f)

    or_fail-eq-ok :
        {A : Type 0} (snapshot : StreamTargetSnapshot)
        (kind : TransportError → StreamTargetFailureKind) (retryable : Bool)
        (r : Result TransportError A) {a : A}
        → or_fail flume codecs ratio to_string show target snapshot kind retryable r ≡ ok a
        → r ≡ ok a
    unfolding or_fail
    or_fail-eq-ok snapshot kind retryable (ok a) h = ground arith
    or_fail-eq-ok snapshot kind retryable (err e) h = absurd (ground arith)

    classified : (e : TransportError) → ¬ IsFinal (classify_connect_error e)
    unfolding classify_connect_error
    classified e = ground arith

    activate-IsOutcome :
        (snapshot : StreamTargetSnapshot) (accept : AcceptMessage)
        → IsOf target n snapshot
        → accept.stream ≡ request.stream_config
        → IsOutcome
            (activate flume codecs ratio to_string show target request attempt snapshot accept)
    unfolding activate IsOutcome
    activate-IsOutcome snapshot accept h same =
        then-IsOutcome _ _ (or_fail-IsFailing _ h _ true (λ e h. h) _) (λ _ _.
          then-IsOutcome _ _ (or_fail-IsFailing _ h _ true (λ e h. h) _) (λ _ _. record {
            of_target = refl;
            of_attempt = h;
            is_streaming = refl;
            is_healthy = refl;
            as_asked = ap some same;
            as_named = refl;
          }))

    -- An attempt to connect gives a healthy streaming session of the target, in the stream that
    -- was asked for and under the session's id, or a failure of the target in the state of an
    -- error, which may be retried unless the protocol did not match or the target is the sender
    -- itself; both count the attempt.
    pub connect_target-IsOutcome :
        IsOutcome (connect_target flume codecs ratio to_string show target n request attempt)
    unfolding connect_target pending_target_snapshot
    connect_target-IsOutcome = then-IsOutcome _ _ (refuse_self-IsFailing _ (refl, refl)) (λ _ _.
        then-IsOutcome _ _ (or_fail-IsFailing _ (refl, refl) _ true classified _) (λ _ _.
          then-IsOutcome _ _ (or_fail-IsFailing _ (refl, refl) _ true (λ e h. h) _) (λ _ _.
            bind-IsOutcome _ _ (or_fail-IsFailing _ (refl, refl) _ false (λ e. tt) _) (λ sent _.
              bind-IsOutcome _ _ (or_fail-IsFailing _ (refl, refl) _ true (λ e h. h) _) (λ frame _.
                then-IsOutcome _ _ (check_kind-IsFailing _ (refl, refl) frame.kind) (λ _ _.
                  bind-IsOutcome _ _ (or_fail-IsFailing _ (refl, refl) _ false (λ e. tt) _)
                    (λ accept _.
                      then-IsOutcome _ _ (or_fail-IsFailing _ (refl, refl) _ false (λ e. tt) _)
                        (λ _ valid.
                          activate-IsOutcome _ accept (refl, refl)
                            ((validate_accept_iff accept _ request.stream_config).0
                              (or_fail-eq-ok _ _ false _ valid)).2))))))))
