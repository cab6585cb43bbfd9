-- ===== src/Health/Policy.antt =====
-- How a verdict comes about from the checks, for the stations and for the host.
mod Checks
pub use Checks.{check_rest-Reports, after_udp-Reports}
use cc_rms_mqtt_monitor.Base.{
  ℕ, Option, ◌≤◌, String, ◌≡◌, ◌↔◌, ◌∙◌, refl, sym, ap, Bool, true, false, List, [], ◌∷◌, ◌++◌,
  contains, Text, arith, if◌then◌else◌,
}
use cc_rms_mqtt_monitor.Config.{Thresholds}
use cc_rms_mqtt_monitor.Health.{Status, ok, Verdict, fresh, Check, rank, worse}
use cc_rms_mqtt_monitor.Health.Findings.{
  Finding, Serious, Within, nil, keep, drop, enabled, worst, texts, add,
}
use cc_rms_mqtt_monitor.Health.Reports.{Reports}
use cc_rms_mqtt_monitor.Health.Metrics.{StationMetrics, HostMetrics}
use cc_rms_mqtt_monitor.Health.Evaluate.{evaluate}
use cc_rms_mqtt_monitor.Health.Host.{evaluate_host}
use cc_rms_mqtt_monitor.Health.State.{build_state, build_host_state}
use Checks.{check_station-Reports, check_host-Reports}

-- A verdict for each set of disabled checks, told by one list of findings.
pub record Decided (verdict : List String → Verdict) : Type 0 where
  pub findings : List Finding
  pub serious : Serious findings
  pub status : (d : List String) → (verdict d).status ≡ worst (enabled d findings)
  pub problems : (d : List String) → (verdict d).problems ≡ texts (enabled d findings)

worse-ok_left : (s : Status) → worse ok s ≡ s
unfolding worse
worse-ok_left s = ground arith

Decided-Reports : (c : Check) → Reports c → Decided (λ d. c d fresh)
unfolding add
Decided-Reports c r = record {
  findings = r.found;
  serious = r.serious;
  status = λ d. rw r.same (worse-ok_left _);
  problems = λ d. rw r.same refl;
}

-- For every station and thresholds there is one list of findings, each degraded or error, such
-- that whatever checks are disabled the status is the worst level among the findings whose key is
-- enabled, and the problems are the texts of those findings in order.
pub evaluate-Decided : (m : StationMetrics) (th : Thresholds) → Decided (evaluate m th)
unfolding evaluate
evaluate-Decided m th = Decided-Reports _ (check_station-Reports m th)

-- The same of the host's verdict.
pub evaluate_host-Decided : (m : HostMetrics) (th : Thresholds) → Decided (evaluate_host m th)
unfolding evaluate_host
evaluate_host-Decided m th = Decided-Reports _ (check_host-Reports m th)

worst-eq-ok : (fs : List Finding) → Serious fs → (worst fs ≡ ok) ↔ (texts fs ≡ [])
unfolding worst texts worse
worst-eq-ok [] h = (λ e. refl, λ e. refl)
worst-eq-ok (f ∷ fs) h = ground arith

Serious-enabled : (d : List String) (fs : List Finding) → Serious fs → Serious (enabled d fs)
unfolding enabled
Serious-enabled d [] h = tt
Serious-enabled d (f ∷ fs) h = ground (arith, Serious-enabled d fs h.1)

-- A verdict decided by findings is ok exactly when it lists no problem.
pub Decided-ok_iff :
    {verdict : List String → Verdict}
    → Decided verdict
    → (d : List String) → ((verdict d).status ≡ ok) ↔ ((verdict d).problems ≡ [])
Decided-ok_iff v d =
    rw (v.status d) (rw (v.problems d) (worst-eq-ok _ (Serious-enabled d v.findings v.serious)))

-- the keys disabled in `d` are disabled in `e`
abbrev pub Disables : List String → List String → Type 0
Disables d e = (k : String) → contains k d ≡ true → contains k e ≡ true

worst-enabled_mono :
    (d e : List String) (fs : List Finding)
    → Disables d e
    → rank (worst (enabled e fs)) ≤ rank (worst (enabled d fs))
unfolding enabled worst worse rank
worst-enabled_mono d e [] h = omega arith
worst-enabled_mono d e (f ∷ fs) h = ground (arith, h f.key, worst-enabled_mono d e fs h)

texts_if_mono :
    (bd be : Bool) (f : Finding) (xs ys : List Finding)
    → (bd ≡ true → be ≡ true)
    → Within (texts xs) (texts ys)
    → Within (texts (if be then xs else f ∷ xs)) (texts (if bd then ys else f ∷ ys))
unfolding texts
texts_if_mono true true f xs ys h w = w
texts_if_mono false true f xs ys h w = drop w
texts_if_mono false false f xs ys h w = keep w
texts_if_mono true false f xs ys h w = cc (h refl)

texts-enabled_mono :
    (d e : List String) (fs : List Finding)
    → Disables d e
    → Within (texts (enabled e fs)) (texts (enabled d fs))
unfolding enabled texts
texts-enabled_mono d e [] h = nil
texts-enabled_mono d e (f ∷ fs) h = texts_if_mono _ _ f _ _ (h f.key) (texts-enabled_mono d e fs h)

Decided-mono :
    {verdict : List String → Verdict}
    → Decided verdict
    → (d e : List String) → Disables d e
    → (rank (verdict e).status ≤ rank (verdict d).status)
      × Within (verdict e).problems (verdict d).problems
Decided-mono v d e h =
    rw (v.status d, v.status e, v.problems d, v.problems e)
      (worst-enabled_mono d e v.findings h, texts-enabled_mono d e v.findings h)

-- The published record of a station is ok exactly when it lists no problem, and so is the host's,
-- whatever was measured and whatever is disabled.
build_state-ok_iff :
    (m : StationMetrics) (h : HostMetrics) (th : Thresholds) (d : List String) (name time : String)
    (host : Option HostMetrics) (label : Option String)
    → let s = build_state m th name time d host label in
      let t = build_host_state h th name time d label in
      ((s.status ≡ ok) ↔ (s.problems ≡ [])) × ((t.status ≡ ok) ↔ (t.problems ≡ []))
unfolding build_state build_host_state
build_state-ok_iff m h th d name time host label =
    (Decided-ok_iff (evaluate-Decided _ th) d, Decided-ok_iff (evaluate_host-Decided h th) d)

-- Disabling more checks never raises the status of a station or of the host, and only leaves out
-- problems: those that stay are listed in the same order.
evaluate_disabled_mono :
    (m : StationMetrics) (h : HostMetrics) (th : Thresholds) (d e : List String)
    → Disables d e
    → (rank (evaluate m th e).status ≤ rank (evaluate m th d).status)
      × Within (evaluate m th e).problems (evaluate m th d).problems
      × (rank (evaluate_host h th e).status ≤ rank (evaluate_host h th d).status)
      × Within (evaluate_host h th e).problems (evaluate_host h th d).problems
evaluate_disabled_mono m h th d e more =
    let (a, b) = Decided-mono (evaluate-Decided m th) d e more in
    let (a', b') = Decided-mono (evaluate_host-Decided h th) d e more in (a, b, a', b')
