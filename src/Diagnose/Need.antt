-- ===== src/Diagnose/Need.antt =====
-- When `should_escalate` of cc_mqtt_monitor/diagnose.py asks for a probe, through `classify_drops` of
-- cc_mqtt_monitor/health.py.
use cc_rms_mqtt_monitor.Base.{
  ℕ, ◌≤◌, String, ◌≡◌, ◌⊎◌, ◌↔◌, Bool, true, not, ◌&&◌, ◌||◌, Option, none, some, ltb, ◌==◌, Dict,
  lookup, arith, ℤ, ◌<ℤ◌, ltb_ℤ_iff,
}
use cc_rms_mqtt_monitor.Config.{Thresholds}
use cc_rms_mqtt_monitor.Health.Metrics.{StationMetrics, HostMetrics, hot}
use cc_rms_mqtt_monitor.Health.Drops.{
  classify_drops, attribute, is_backpressure, by_network, by_stream, unexplained,
}
use cc_rms_mqtt_monitor.Diagnose.{Escalation, explained, host_explained, is_due, should_escalate}

-- A value is there, and greater than the limit.
abbrev pub Above : Option ℤ → ℤ → Type 0
Above none limit = ⊥
Above (some v) limit = limit <ℤ v

-- what the host and a ping can tell of the drops: a buffer that filled up over a stream that never reconnected,
-- a counter of the network or the loss of pings above its limit
abbrev pub Told : StationMetrics → HostMetrics → Thresholds → Type 0
Told m h th =
    (Above m.buffer_fill_max_leadup th.buffer_fill_spike_pct × (m.pipeline_reconnects ≡ 0))
    ⊎ Above h.udp_rcvbuf_errors_per_min th.udp_rcvbuf_errors_per_min_warn
    ⊎ Above h.nic_rx_errors_per_min th.nic_rx_errors_per_min_warn
    ⊎ Above h.ip_reasm_fails_per_min th.ip_reasm_fails_per_min_warn
    ⊎ Above m.probe_ping_loss_pct th.ping_loss_warn_pct

-- no probe was noted since the drops began, or its interval has passed
abbrev pub Waited : Option Escalation → ℕ → Type 0
Waited none now = Unit
Waited (some st) now = st.next_t ≤ now

hot_iff : (o : Option ℤ) (limit : ℤ) → (hot o limit ≡ true) ↔ Above o limit
unfolding hot
hot_iff none limit = ground arith
hot_iff (some v) limit = ltb_ℤ_iff limit v

due_iff : (o : Option Escalation) (now : ℕ) → (is_due o now ≡ true) ↔ Waited o now
unfolding is_due
due_iff none now = ground arith
due_iff (some st) now = ground arith

module _ (m : StationMetrics) (h : HostMetrics) (th : Thresholds) where
  -- the signals as they are tested
  abbrev signalled : Bool
  signalled =
      (hot m.buffer_fill_max_leadup th.buffer_fill_spike_pct && m.pipeline_reconnects == 0)
      || hot h.udp_rcvbuf_errors_per_min th.udp_rcvbuf_errors_per_min_warn
      || hot h.nic_rx_errors_per_min th.nic_rx_errors_per_min_warn
      || hot h.ip_reasm_fails_per_min th.ip_reasm_fails_per_min_warn
      || hot m.probe_ping_loss_pct th.ping_loss_warn_pct

  signalled_iff : (signalled ≡ true) ↔ Told m h th
  signalled_iff =
      let (a, a') = hot_iff m.buffer_fill_max_leadup th.buffer_fill_spike_pct in
      let (b, b') = hot_iff h.udp_rcvbuf_errors_per_min th.udp_rcvbuf_errors_per_min_warn in
      let (c, c') = hot_iff h.nic_rx_errors_per_min th.nic_rx_errors_per_min_warn in
      let (d, d') = hot_iff h.ip_reasm_fails_per_min th.ip_reasm_fails_per_min_warn in
      let (e, e') = hot_iff m.probe_ping_loss_pct th.ping_loss_warn_pct in
      ground (arith, a, a', b, b', c, c', d, d', e, e')

  explained-attribute : host_explained (attribute m h th).cause ≡ signalled
  unfolding host_explained attribute is_backpressure by_network by_stream unexplained
  explained-attribute = ground arith

  explained_as : explained (classify_drops m h th) ≡ (
      not (m.dropped_frames_10min == 0 || ltb m.dropped_frames_10min th.dropped_frames_warn)
      && signalled)
  unfolding explained classify_drops
  explained_as = ground (arith, explained-attribute)

tested :
    (sid : String) (m : StationMetrics) (h : HostMetrics) (th : Thresholds) (now : ℕ)
    (esc : Dict Escalation)
    → (should_escalate sid m h th now esc).0 ≡ (
        not (ltb m.dropped_frames_10min th.dropped_frames_warn)
        && (not (explained (classify_drops m h th)) && is_due (lookup sid esc) now))
unfolding should_escalate
tested sid m h th now esc = ground arith

-- the test, by what is tested
asked :
    (drops least : ℕ) (signal due : Bool) (T W : Type 0)
    → ((signal ≡ true) ↔ T)
    → ((due ≡ true) ↔ W)
    → ((not (ltb drops least) && (not (not (drops == 0 || ltb drops least) && signal) && due)
          ≡ true)
        ↔ ((least ≤ drops) × ((drops ≡ 0) ⊎ ¬ T) × W))
asked drops least signal due T W (told, told') (waited, waited') =
    ground (arith, told, told', waited, waited')

-- A probe is asked for exactly where the drops have reached their threshold, neither the counters of the host nor
-- a ping tell their cause, unless there are none, and the interval since the last probe has passed.
pub should_escalate_iff :
    (sid : String) (m : StationMetrics) (h : HostMetrics) (th : Thresholds) (now : ℕ)
    (esc : Dict Escalation)
    → ((should_escalate sid m h th now esc).0 ≡ true) ↔ (
        (th.dropped_frames_warn ≤ m.dropped_frames_10min)
        × ((m.dropped_frames_10min ≡ 0) ⊎ ¬ Told m h th)
        × Waited (lookup sid esc) now)
should_escalate_iff sid m h th now esc =
    rw (tested, explained_as m h th)
      (asked m.dropped_frames_10min th.dropped_frames_warn (signalled m h th)
        (is_due (lookup sid esc) now) (Told m h th) (Waited (lookup sid esc) now)
        (signalled_iff m h th) (due_iff (lookup sid esc) now))
