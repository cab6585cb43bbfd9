-- ===== src/Monitor/Sleep.antt =====
-- `_sleep_until_next` of cc_mqtt_monitor/monitor.py. Times are in milliseconds; the state of the maintenance at each
-- time and how much later than asked a sleep ends are inputs.
use cc_rms_mqtt_monitor.Base.{
  ℕ, zero, suc, ◌+◌, ◌-◌, ◌≤◌, ◌<◌, ◌≡◌, refl, sym, ◌∙◌, inl, inr, min, max, Bool, true, false, not,
  ◌||◌, Option, none, some, leb, leb→le, arith, Bool-cases,
}

pub record Waking : Type 0 where
  -- `maintenance.detect(config)[0]`
  pub detect : ℕ → Bool
  pub late : ℕ → ℕ

-- `_MAINT_POLL_S`
abbrev pub maint_poll : ℕ
maint_poll = 10000

unfoldable pub differs : Bool → Bool → Bool
differs true b = not b
differs false b = b

-- the time when `time.sleep(min(_MAINT_POLL_S, remaining))` ends
unfoldable pub awake : Waking → ℕ → ℕ → ℕ
awake w deadline now = now + min maint_poll (deadline - now) + w.late now

-- The `while` loop: the time when it returns and whether the maintenance state had changed, none where the
-- fuel is out.
unfoldable pub sleep_until : Waking → Bool → ℕ → ℕ → ℕ → Option (ℕ × Bool)
sleep_until w baseline deadline zero now = none
sleep_until w baseline deadline (suc fuel) now = elim (leb deadline now) [
  | true ↦ some (now, false)
  | false ↦ elim (differs (w.detect (awake w deadline now)) baseline) [
    | true ↦ some (awake w deadline now, true)
    | false ↦ sleep_until w baseline deadline fuel (awake w deadline now)
  ]
]

-- `_sleep_until_next`, called at a time
unfoldable pub sleep_until_next : Waking → ℕ → ℕ → ℕ → Option (ℕ × Bool)
sleep_until_next w interval cycle_start now =
    sleep_until w (w.detect now) (cycle_start + interval) (suc (cycle_start + interval - now)) now

module _ (w : Waking) (baseline : Bool) (deadline lag : ℕ)
    (punctual : (t : ℕ) → w.late t ≤ lag) where
  awake_bounds :
      (now : ℕ)
      → leb deadline now ≡ false
      → (now < awake w deadline now)
        × (awake w deadline now ≤ deadline + lag)
        × (awake w deadline now ≤ now + maint_poll + lag)
  unfolding awake
  awake_bounds now early = ground (arith, punctual now)

  -- one round of the loop
  until_over :
      (fuel now : ℕ)
      → leb deadline now ≡ true
      → sleep_until w baseline deadline (suc fuel) now ≡ some (now, false)
  unfolding sleep_until
  until_over fuel now over = rw (over, sleep_until) refl

  until_changed :
      (fuel now : ℕ)
      → leb deadline now ≡ false
      → differs (w.detect (awake w deadline now)) baseline ≡ true
      → sleep_until w baseline deadline (suc fuel) now ≡ some (awake w deadline now, true)
  unfolding sleep_until
  until_changed fuel now early changed = rw (early, sleep_until) (rw changed refl)

  until_still :
      (fuel now : ℕ)
      → leb deadline now ≡ false
      → differs (w.detect (awake w deadline now)) baseline ≡ false
      → sleep_until w baseline deadline (suc fuel) now
        ≡ sleep_until w baseline deadline fuel (awake w deadline now)
  unfolding sleep_until
  until_still fuel now early still = rw (early, sleep_until) (rw still refl)

  -- how the loop ends at a time
  abbrev Ended : ℕ → ℕ → ℕ → Type 0
  Ended fuel now t =
      (sleep_until w baseline deadline fuel now ≡ some (t, differs (w.detect t) baseline))
      × (t ≤ max now (deadline + lag))
      × ((leb deadline t || differs (w.detect t) baseline) ≡ true)

  Ended-over :
      (fuel now : ℕ)
      → leb deadline now ≡ true
      → differs (w.detect now) baseline ≡ false
      → Ended (suc fuel) now now
  Ended-over fuel now over same =
      (until_over fuel now over ∙ rw same refl, omega arith, rw over refl)

  Ended-changed :
      (fuel now : ℕ)
      → leb deadline now ≡ false
      → differs (w.detect (awake w deadline now)) baseline ≡ true
      → Ended (suc fuel) now (awake w deadline now)
  Ended-changed fuel now early changed =
      let (later, bound, soon) = awake_bounds now early in
      (until_changed fuel now early changed ∙ rw changed refl, omega arith, ground (arith, changed))

  Ended-later :
      (fuel now t : ℕ)
      → leb deadline now ≡ false
      → differs (w.detect (awake w deadline now)) baseline ≡ false
      → Ended fuel (awake w deadline now) t
      → Ended (suc fuel) now t
  Ended-later fuel now t early same (result, at_most, why) =
      let (later, bound, soon) = awake_bounds now early in
      (until_still fuel now early same ∙ result, omega arith, why)

  -- one round, by the rounds after it
  Ended-by :
      (fuel now : ℕ)
      → differs (w.detect now) baseline ≡ false
      → (leb deadline now ≡ false
          → differs (w.detect (awake w deadline now)) baseline ≡ false
          → (t : ℕ) × Ended fuel (awake w deadline now) t)
      → (t : ℕ) × Ended (suc fuel) now t
  Ended-by fuel now same later = elim (Bool-cases (leb deadline now)) [
    | inl over ↦ (now, Ended-over fuel now over same)
    | inr early ↦ elim (Bool-cases (differs (w.detect (awake w deadline now)) baseline)) [
      | inl changed ↦ (awake w deadline now, Ended-changed fuel now early changed)
      | inr still ↦
          let (t, ended) = later early still in (t, Ended-later fuel now t early still ended)
    ]
  ]

  sleep_until-Ended :
      (fuel now : ℕ)
      → deadline ≤ now + fuel
      → differs (w.detect now) baseline ≡ false
      → (t : ℕ) × Ended (suc fuel) now t
  sleep_until-Ended zero now enough same = Ended-by zero now same (λ early _. ground (arith, early))
  sleep_until-Ended (suc fuel) now enough same = Ended-by (suc fuel) now same (λ early still.
      sleep_until-Ended fuel (awake w deadline now)
        (let (later, bound, soon) = awake_bounds now early in omega arith) still)

  before_change :
      (u : ℕ)
      → ((t : ℕ) → u ≤ t → differs (w.detect t) baseline ≡ true)
      → (now : ℕ) → differs (w.detect now) baseline ≡ false
      → now < u
  before_change u other now same = elim (Bool-cases (leb u now)) [
    | inl reached ↦ cc (sym (other now (leb→le u now reached)) ∙ same)
    | inr before ↦ ground (arith, before)
  ]

  -- The time of the return, where the state is another from a time on.
  sleep_until_soon :
      (u : ℕ)
      → ((t : ℕ) → u ≤ t → differs (w.detect t) baseline ≡ true)
      → (fuel now t : ℕ) (woken : Bool) → differs (w.detect now) baseline ≡ false
      → sleep_until w baseline deadline fuel now ≡ some (t, woken)
      → t ≤ u + maint_poll + lag
  unfolding sleep_until
  sleep_until_soon u other zero now t woken same e = cc e
  sleep_until_soon u other (suc fuel) now t woken same e =
      let before = before_change u other now same in
      elim (Bool-cases (leb deadline now)) [
        | inl over ↦ let at : now ≡ t = cc (sym (until_over fuel now over) ∙ e) in omega arith
        | inr early ↦
            let (later, bound, soon) = awake_bounds now early in
            elim (Bool-cases (differs (w.detect (awake w deadline now)) baseline)) [
              | inl changed ↦
                  let at : awake w deadline now ≡ t =
                    cc (sym (until_changed fuel now early changed) ∙ e) in
                  omega arith
              | inr still ↦
                  sleep_until_soon u other fuel (awake w deadline now) t woken still
                    (sym (until_still fuel now early still) ∙ e)
            ]
      ]

differs_self : (b : Bool) → differs b b ≡ false
unfolding differs
differs_self true = refl
differs_self false = refl

-- Where no sleep ends later than `lag` after the time asked for, the loop returns: at most `lag` after
-- the deadline, or at once where that has passed. It has been woken exactly if the maintenance state
-- then differs from that at the start, and if not, the deadline has come.
pub sleep_until_next_returns :
    (w : Waking) (interval cycle_start now lag : ℕ)
    → ((t : ℕ) → w.late t ≤ lag)
    → (t : ℕ) × (sleep_until_next w interval cycle_start now
        ≡ some (t, differs (w.detect t) (w.detect now)))
      × (t ≤ max now (cycle_start + interval + lag))
      × ((leb (cycle_start + interval) t || differs (w.detect t) (w.detect now)) ≡ true)
unfolding sleep_until_next
sleep_until_next_returns w interval cycle_start now lag punctual =
    let (t, ended) =
      sleep_until-Ended w (w.detect now) (cycle_start + interval) lag punctual
        (cycle_start + interval - now) now (omega arith) (differs_self (w.detect now)) in
    let (result, bound, why) = ended in (t, result, bound, why)

-- Where no sleep ends later than `lag` after the time asked for, and the maintenance state differs from that at
-- the start from a time u on, the loop returns, at most one poll and `lag` after u.
pub sleep_until_next_soon :
    (w : Waking) (interval cycle_start now lag u : ℕ)
    → ((v : ℕ) → w.late v ≤ lag)
    → ((v : ℕ) → u ≤ v → differs (w.detect v) (w.detect now) ≡ true)
    → (t : ℕ) × (sleep_until_next w interval cycle_start now
        ≡ some (t, differs (w.detect t) (w.detect now)))
      × (t ≤ u + maint_poll + lag)
unfolding sleep_until_next
sleep_until_next_soon w interval cycle_start now lag u punctual other =
    let (t, result, bound, why) =
      sleep_until_next_returns w interval cycle_start now lag punctual in
    (
      t,
      result,
      sleep_until_soon w (w.detect now) (cycle_start + interval) lag punctual u other _ now t _
          (differs_self (w.detect now)) result,
    )
