-- ===== src/Diagnose/Backoff.antt =====
-- How often a station is probed, and for what.
use cc_rms_mqtt_monitor.Base.{
  ℕ, ◌+◌, ◌≤◌, min, max, String, ◌≡◌, ◌⊎◌, refl, Bool, true, false, Option, none, some, List, [],
  ◌∷◌, if◌then◌else◌, inl, inr, Dict, lookup, lookup-insert, lookup-erase, arith, eq_refl,
}
use cc_rms_mqtt_monitor.Config.{Thresholds}
use cc_rms_mqtt_monitor.Health.Metrics.{
  StationMetrics, HostMetrics, camera_bw, uncertain, Attribution,
}
use cc_rms_mqtt_monitor.Health.Drops.{classify_drops}
use cc_rms_mqtt_monitor.Diagnose.{
  Escalation, explained, host_explained, is_due, should_escalate, next_interval, note_escalation,
}

-- A probe is asked for only where the drops have reached their threshold and the cause is the
-- camera or its link, uncertain, or none was given; the request changes nothing.
should_escalate_sound :
    (sid : String) (m : StationMetrics) (h : HostMetrics) (th : Thresholds) (now : ℕ)
    (esc : Dict Escalation)
    → (should_escalate sid m h th now esc).0 ≡ true
    → (th.dropped_frames_warn ≤ m.dropped_frames_10min)
      × ((classify_drops m h th ≡ none)
          ⊎ ((a : Attribution) × (classify_drops m h th ≡ some a)
              × ((a.cause ≡ camera_bw) ⊎ (a.cause ≡ uncertain))))
      × ((should_escalate sid m h th now esc).1 ≡ esc)
unfolding should_escalate explained host_explained
should_escalate_sound sid m h th now esc e = ground arith

-- one cycle of a station: when the need is tested, what was measured, when the probe is noted
pub record Cycle : Type 0 where
  pub metrics : StationMetrics
  pub host : HostMetrics
  pub tested : ℕ
  pub done : ℕ

-- the interval of an entry lies between the minimum and the larger of the two limits
abbrev pub InLimits : Thresholds → Option Escalation → Type 0
InLimits th none = Unit
InLimits th (some st) =
    (min th.probe_min_interval_s th.probe_max_interval_s ≤ st.interval)
    × (st.interval ≤ max th.probe_min_interval_s th.probe_max_interval_s)

next_interval_limits :
    (th : Thresholds) (o : Option Escalation)
    → InLimits th o
    → (min th.probe_min_interval_s th.probe_max_interval_s ≤ next_interval th o)
      × (next_interval th o ≤ max th.probe_min_interval_s th.probe_max_interval_s)
unfolding next_interval
next_interval_limits th none h = omega arith
next_interval_limits th (some st) h = omega arith

-- the entry that a probe leaves
abbrev noted : Thresholds → String → ℕ → Dict Escalation → Escalation
noted th sid now esc =
    let interval = next_interval th (lookup sid esc) in
    record { next_t = now + interval; interval = interval }

-- Testing the need and noting a probe, of any station at any time, keep every station's interval
-- between the two limits of the thresholds.
escalation_limits :
    (th : Thresholds) (sid j : String) (m : StationMetrics) (h : HostMetrics) (now : ℕ)
    (esc : Dict Escalation)
    → InLimits th (lookup j esc)
    → InLimits th (lookup sid esc)
    → InLimits th (lookup j (should_escalate sid m h th now esc).1)
      × InLimits th (lookup j (note_escalation sid th now esc))
unfolding should_escalate note_escalation
escalation_limits th sid j m h now esc lj ls = ground (
  arith,
  lookup-erase j sid esc,
  lookup-insert j sid (noted th sid now esc) esc,
  next_interval_limits th (lookup sid esc) ls,
)

-- the escalations after one cycle, as `gather` runs it with the adaptive probe enabled
unfoldable pub step : Thresholds → String → Cycle → Dict Escalation → Bool × Dict Escalation
step th sid c esc =
    let (due, esc') = should_escalate sid c.metrics c.host th c.tested esc in
    (due, if due then note_escalation sid th c.done esc' else esc')

-- the times at which a run of cycles probes the station
unfoldable pub probes : Thresholds → String → Dict Escalation → List Cycle → List ℕ
probes th sid esc [] = []
probes th sid esc (c ∷ cs) =
    let (due, esc') = step th sid c esc in
    let rest = probes th sid esc' cs in if due then c.tested ∷ rest else rest

abbrev pub NotBefore : ℕ → List ℕ → Type 0
NotBefore t [] = Unit
NotBefore t (u ∷ us) = t ≤ u

abbrev pub Spaced : ℕ → List ℕ → Type 0
Spaced gap [] = Unit
Spaced gap (t ∷ ts) = NotBefore (t + gap) ts × Spaced gap ts

NotBefore-weaken : {t u : ℕ} (l : List ℕ) → t ≤ u → NotBefore u l → NotBefore t l
NotBefore-weaken [] h n = tt
NotBefore-weaken (x ∷ l) h n = omega arith

-- cycles in which the station keeps dropping frames, and a probe is noted after its test
abbrev pub AllDropping : Thresholds → List Cycle → Type 0
AllDropping th [] = Unit
AllDropping th (c ∷ cs) =
    (th.dropped_frames_warn ≤ c.metrics.dropped_frames_10min)
    × (c.tested ≤ c.done)
    × AllDropping th cs

module _ (th : Thresholds) (sid : String) where
  step_due :
      (c : Cycle) (esc : Dict Escalation)
      → th.dropped_frames_warn ≤ c.metrics.dropped_frames_10min
      → ((step th sid c esc).0 ≡ false) × ((step th sid c esc).1 ≡ esc)
        ⊎ ((step th sid c esc).0 ≡ true)
          × (is_due (lookup sid esc) c.tested ≡ true)
          × ((step th sid c esc).1 ≡ note_escalation sid th c.done esc)
  unfolding step should_escalate
  step_due c esc d = ground arith

  lookup-note_escalation :
      (now : ℕ) (esc : Dict Escalation)
      → lookup sid (note_escalation sid th now esc) ≡ some (noted th sid now esc)
  unfolding note_escalation
  lookup-note_escalation now esc = rw lookup-insert (rw eq_refl refl)

  due_from :
      (esc : Dict Escalation) {now : ℕ} (st : Escalation)
      → lookup sid esc ≡ some st
      → is_due (lookup sid esc) now ≡ true
      → st.next_t ≤ now
  unfolding is_due
  due_from esc st h ready = ground arith

  probes-NotBefore :
      (cs : List Cycle) (esc : Dict Escalation) (st : Escalation)
      → AllDropping th cs
      → lookup sid esc ≡ some st
      → NotBefore st.next_t (probes th sid esc cs)
  unfolding probes
  probes-NotBefore [] esc st d h = tt
  probes-NotBefore (c ∷ cs) esc st (drops, later, d) h = elim (step_due c esc drops) [
    | inl (idle, same) ↦ rw (idle, same) (probes-NotBefore cs esc st d h)
    | inr (due, ready, next) ↦ rw due (due_from esc st h ready)
  ]

  -- While a station keeps dropping frames, two probes that follow one another are apart by at
  -- least the smaller of the two limits, from any state whose interval lies in the limits.
  pub probes-Spaced :
      (cs : List Cycle) (esc : Dict Escalation)
      → AllDropping th cs
      → InLimits th (lookup sid esc)
      → Spaced (min th.probe_min_interval_s th.probe_max_interval_s) (probes th sid esc cs)
  unfolding probes
  probes-Spaced [] esc d l = tt
  probes-Spaced (c ∷ cs) esc (drops, later, d) l = elim (step_due c esc drops) [
    | inl (idle, same) ↦ rw (idle, same) (probes-Spaced cs esc d l)
    | inr (due, ready, next) ↦
        rw (due, next)
          (let found = lookup-note_escalation c.done esc in
            let limits = next_interval_limits th (lookup sid esc) l in
            (
              NotBefore-weaken (probes th sid (note_escalation sid th c.done esc) cs) (omega arith)
                  (probes-NotBefore cs (note_escalation sid th c.done esc) _ d found),
              probes-Spaced cs (note_escalation sid th c.done esc) d (rw found limits),
            ))
  ]
