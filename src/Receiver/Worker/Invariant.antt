-- ===== src/Receiver/Worker/Invariant.antt =====
-- The invariant of the worker in crates/synchrosonic-receiver/src/service.rs.
use audio_share.Base.{◌<◌, ◌≡◌, Bool, true, false, none, List, [], is_some}
use audio_share.Stream.{ReceiverLatencyProfile, millis, u32_mod}
use audio_share.Receiver.Buffer.Invariant.{IsWellFormed}
use audio_share.Receiver.State.{Environment, ReceiverServiceState, connected, buffering, playing}
use audio_share.Receiver.Worker.{Worker}

-- `Connected`, `Buffering` and `Playing` are the states of an open stream.
abbrev pub is_streaming : ReceiverServiceState → Bool
is_streaming connected = true
is_streaming buffering = true
is_streaming playing = true
is_streaming _ = false

abbrev pub is_empty {ℓ} : {A : Type ℓ} → List A → Bool
is_empty [] = true
is_empty _ = false

-- Sizes that keep the buffer's counters below their widths.
pub record FitsProfile (p : ReceiverLatencyProfile) : Type 0 where
  pub target : millis p.target_buffer_ms < u32_mod
  pub limit : millis p.max_buffer_ms < u32_mod

module _ (env : Environment) where
  pub record IsConsistent (w : Worker env) : Type 0 where
    pub well_formed : IsWellFormed w.buffer
    pub profile : FitsProfile w.buffer_profile
    -- A sink is open exactly while a sender is connected.
    pub sink_open : is_some w.playback_sink ≡ is_some w.connection
    -- The state tells whether a sender is connected.
    pub streaming : is_streaming w.state ≡ is_some w.connection
    -- Audio is queued only for a connected sender, and then its clock is anchored.
    pub clocked : is_empty w.buffer.packets ≡ false → is_some w.sync_clock ≡ true
    pub drained : w.connection ≡ none → is_empty w.buffer.packets ≡ true
