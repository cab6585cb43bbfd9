-- ===== src/Monitor/Forced/Alerts.antt =====
-- What the UDP test alert of cc_mqtt_monitor/monitor.py tells.
use mathlib.Core.Path.{subst}
use mathlib.Core.List.Memᴰ
use cc_rms_mqtt_monitor.Base.{
  ℕ, ◌≡◌, ◌≢◌, refl, sym, String, true, false, Option, some, List, [], ◌∷◌, Memᴰ, filter, contains,
  eq_iff, ℤ, Text, arith,
}
use cc_rms_mqtt_monitor.Config.{Config, Thresholds}
use cc_rms_mqtt_monitor.Discovery.{Station}
use cc_rms_mqtt_monitor.Health.{ok, Verdict, Check, flag, when, ◌>>◌}
use cc_rms_mqtt_monitor.Health.Findings.{add, enabled, texts}
use cc_rms_mqtt_monitor.Health.Reports.{Reports}
use cc_rms_mqtt_monitor.Health.Policy.{after_udp-Reports, Decided-ok_iff, evaluate_host-Decided}
use cc_rms_mqtt_monitor.Health.Metrics.{HostMetrics, hot}
use cc_rms_mqtt_monitor.Health.Host.{check_udp, check_host, evaluate_host, udp_text}
use cc_rms_mqtt_monitor.Health.State.{build_host_state}
use cc_rms_mqtt_monitor.Monitor.Forced.{but_udp, with_rate, marked, make_udp_test_state}

-- A problem that is listed stays so.
stays_listed :
    (c : Check) (t : Text) (d : List String) (v : Verdict)
    → Reports c
    → Memᴰ t v.problems
    → Memᴰ t (c d v).problems
unfolding add
stays_listed c t d v r m =
    subst (λ (w : Verdict). Memᴰ t w.problems) (sym (r.same d v))
      (Memᴰ.append_left (texts (enabled d r.found)) m)

udp_listed :
    (m : HostMetrics) (th : Thresholds) (d : List String) (v : Verdict)
    → hot m.udp_rcvbuf_errors_per_min th.udp_rcvbuf_errors_per_min_warn ≡ true
    → contains "udp_rcvbuf_errors" d ≡ false
    → Memᴰ (udp_text m) (check_udp m th d v).problems
unfolding check_udp when flag
udp_listed m th d v fast on = rw (fast, on) (Memᴰ.append_right v.problems (Memᴰ.head refl))

evaluate_host_listed :
    (m : HostMetrics) (th : Thresholds) (d : List String)
    → hot m.udp_rcvbuf_errors_per_min th.udp_rcvbuf_errors_per_min_warn ≡ true
    → contains "udp_rcvbuf_errors" d ≡ false
    → Memᴰ (udp_text m) (evaluate_host m th d).problems
unfolding evaluate_host check_host ◌>>◌
evaluate_host_listed m th d fast on =
    stays_listed _ (udp_text m) d _ (after_udp-Reports m th) (udp_listed m th d _ fast on)

udp_enabled : (d : List String) → contains "udp_rcvbuf_errors" (but_udp d) ≡ false
unfolding but_udp filter contains
udp_enabled [] = refl
udp_enabled (k ∷ ks) = ground (arith, eq_iff k "udp_rcvbuf_errors", udp_enabled ks)

-- Where the rate is above the limit of the configuration, the alert lists the UDP errors with this rate,
-- marked as a test, and its status is not ok, whatever checks are disabled and whatever was measured.
pub udp_alert_listed :
    (c : Config) (timestamp : String) (stations : List Station) (m : HostMetrics)
    → (counted total : Option ℕ) (rate : ℤ)
    → hot (some rate) c.thresholds.udp_rcvbuf_errors_per_min_warn ≡ true
    → let r = make_udp_test_state c timestamp stations m counted total rate in
      Memᴰ (marked (udp_text (with_rate rate counted total m))) r.state.problems
      × (r.state.status ≢ ok)
unfolding make_udp_test_state build_host_state with_rate
udp_alert_listed c timestamp stations m counted total rate fast =
    let m' = with_rate rate counted total m in
    let d = but_udp c.disabled_checks in
    let listed = evaluate_host_listed m' c.thresholds d fast (udp_enabled c.disabled_checks) in
    (
      Memᴰ.map marked listed,
      λ fine. Memᴰ.not-nil (
          subst (λ l. Memᴰ (udp_text m') l)
            ((Decided-ok_iff (evaluate_host-Decided m' c.thresholds) d).0 fine) listed),
    )
