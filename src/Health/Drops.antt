-- ===== src/Health/Drops.antt =====
-- `classify_drops` of cc_mqtt_monitor/health.py: the cause of a drop burst by elimination.
use cc_rms_mqtt_monitor.Base.{
  ℕ, String, Bool, ◌&&◌, ◌||◌, Option, none, some, ℤ, ltb, leb, ◌==◌, if◌then◌else◌, is_some, Text,
  Args, nil, arg, str, int, num, fmt, join, cat, one, two, push,
}
use cc_rms_mqtt_monitor.Config.{Thresholds}
use cc_rms_mqtt_monitor.Health.Metrics.{
  StationMetrics, HostMetrics, DropCause, backpressure, udp_buffer, nic, ip_frag, link_loss,
  camera_bw, uncertain, Confidence, high, medium, low, Attribution, hot,
}
use cc_rms_mqtt_monitor.Health.Reading.{opt, num_or}

-- `verdict(cause, confidence, detail)`
abbrev pub verdict : DropCause → Confidence → Text → Attribution
verdict c f d = record { cause = c; confidence = f; detail = d }

-- appends `fmt % value` where there is a value
pub push_num : Args → String → Option ℤ → Args
push_num l format none = l
push_num l format (some z) = push l (fmt format (one (num z)))

pub spike_detail : StationMetrics → HostMetrics → Text
spike_detail m h =
    let ctx = push_num nil "host cpu %.0f%%" h.cpu_busy_pct in
    let ctx = push_num ctx "iowait %.0f%%" h.cpu_iowait_pct in
    let ctx = push_num ctx "capture %.0f%%" m.capture_cpu_pct in
    cat (fmt "buffer fill spiked to %.0f%%" (one (opt m.buffer_fill_max_leadup)))
      (elim ctx [ nil ↦ str "" | arg t ts ↦ fmt " (%s)" (one (join ", " (arg t ts))) ])

pub reconnect_text : ℕ → ℕ → Args
reconnect_text reconnects warn =
    if leb warn reconnects
    then one (fmt "%d reconnects (camera dropping the stream)" (one (int reconnects)))
    else if reconnects == 0
    then nil
    else one (
        fmt "%d reconnect%s (stream dropped and rebuilt)"
          (two (int reconnects) (str (if reconnects == 1 then "" else "s"))))

pub decoder_text : ℕ → Args → Args
decoder_text n l = if n == 0 then l else push l (fmt "%d decoder errors" (one (int n)))

-- `any(_num(h, k) is not None for k in …)`
unfoldable pub host_known : HostMetrics → Bool
host_known h = is_some h.cpu_busy_pct || is_some h.nic_rx_errors_per_min

pub stream_detail : StationMetrics → HostMetrics → Thresholds → Text
stream_detail m h th =
    let l = reconnect_text m.pipeline_reconnects th.pipeline_reconnects_warn in
    let l = decoder_text m.decoder_errors l in
    let l = push_num l "keyframe peak %.0f KB" m.probe_keyframe_peak_kb in
    let l = push_num l "%.1f Mbps" (num_or m.probe_stream_mbps m.stream_mbps) in
    join "; " (if host_known h then push l (str "host clean") else l)

unfoldable pub stream_confidence : StationMetrics → HostMetrics → Confidence
unfolding host_known
stream_confidence m h =
    if is_some m.probe_keyframe_peak_kb then high else if host_known h then medium else low

pub probed_detail : StationMetrics → Text
probed_detail m =
    let l = one (str "probed: no host/network/bandwidth cause") in
    let l = push_num l "steady %.1f Mbps" (num_or m.probe_stream_mbps m.stream_mbps) in
    join "; " (push l (str "frames lost at the camera -- check the camera itself"))

-- nothing positive: a probe has run, or one is asked for
unfoldable pub unexplained : StationMetrics → Attribution
unexplained m =
    if is_some m.probe_ping_note
    then verdict uncertain medium (probed_detail m)
    else verdict uncertain low (str "drops with no host signal; probe to confirm camera/link")

-- camera and link: damaged or dropped streams
unfoldable pub by_stream : StationMetrics → HostMetrics → Thresholds → Attribution
unfolding unexplained stream_confidence
by_stream m h th =
    if leb th.decoder_errors_warn m.decoder_errors || ltb 0 m.pipeline_reconnects
    then verdict camera_bw (stream_confidence m h) (stream_detail m h th)
    else unexplained m

-- the network layers with a counter of their own, then the ping probe
unfoldable pub by_network : StationMetrics → HostMetrics → Thresholds → Attribution
unfolding by_stream
by_network m h th =
    if hot h.udp_rcvbuf_errors_per_min th.udp_rcvbuf_errors_per_min_warn
    then verdict udp_buffer high
        (fmt "UDP RcvbufErrors +%.0f/min (raise rmem_max)" (one (opt h.udp_rcvbuf_errors_per_min)))
    else if hot h.nic_rx_errors_per_min th.nic_rx_errors_per_min_warn
    then verdict nic high
        (fmt "NIC RX errors +%.0f/min (cable/duplex/port)" (one (opt h.nic_rx_errors_per_min)))
    else if hot h.ip_reasm_fails_per_min th.ip_reasm_fails_per_min_warn
    then verdict ip_frag high (fmt "IP reasm fails +%.0f/min" (one (opt h.ip_reasm_fails_per_min)))
    else if hot m.probe_ping_loss_pct th.ping_loss_warn_pct
    then verdict link_loss high (fmt "ping loss %.0f%% to camera" (one (opt m.probe_ping_loss_pct)))
    else by_stream m h th

-- the buffer filled before the drop, over a stream that never reconnected
unfoldable pub is_backpressure : StationMetrics → Thresholds → Bool
is_backpressure m th =
    hot m.buffer_fill_max_leadup th.buffer_fill_spike_pct && m.pipeline_reconnects == 0

unfoldable pub attribute : StationMetrics → HostMetrics → Thresholds → Attribution
unfolding is_backpressure by_network
attribute m h th =
    if is_backpressure m th then verdict backpressure high (spike_detail m h) else by_network m h th

unfoldable pub classify_drops : StationMetrics → HostMetrics → Thresholds → Option Attribution
unfolding attribute
classify_drops m h th =
    if m.dropped_frames_10min == 0 || ltb m.dropped_frames_10min th.dropped_frames_warn
    then none
    else some (attribute m h th)
