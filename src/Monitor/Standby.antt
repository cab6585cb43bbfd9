-- ===== src/Monitor/Standby.antt =====
-- When a station is in standby: only after a sustained time without an answer.
use mathlib.Core.Path.{subst}
use cc_rms_mqtt_monitor.Base.{
  ℕ, ◌+◌, ◌-◌, ◌≤◌, String, ◌≡◌, ◌≢◌, ◌⊎◌, ◌∙◌, sym, true, false, none, some, List, [], ◌∷◌,
  if◌then◌else◌, inl, inr, arith, lookup, member, or_else, str_eq, eq_iff, eq_refl, String-discrete,
}
use cc_rms_mqtt_monitor.Monitor.Gather.{Tracker, no_tracker, Observation, Context, gather_station}
use cc_rms_mqtt_monitor.Monitor.Effect.{Unanswered, Effect, gather_Effect, grace}

-- the cycle of one station, in the order in which the loop runs them
pub record Visit : Type 0 where
  pub station : String
  pub context : Context
  pub seen : Observation

-- the tracker after visits, the last visit first
abbrev pub after : List Visit → Tracker
after [] = no_tracker
after (v ∷ vs) = (gather_station v.context v.station v.seen (after vs)).0

-- the visits of a station since the time `since` all went without an answer, and the first of
-- them was at that time
pub data Sustained (sid : String) (since : ℕ) : List Visit → Type 0 where
  began :
      {v : Visit} {vs : List Visit}
      → v.station ≡ sid
      → Unanswered v.seen
      → v.seen.mono ≡ since
      → Sustained sid since (v ∷ vs)
  longer :
      {v : Visit} {vs : List Visit}
      → v.station ≡ sid
      → Unanswered v.seen
      → Sustained sid since vs
      → Sustained sid since (v ∷ vs)
  other :
      {v : Visit} {vs : List Visit}
      → v.station ≢ sid
      → Sustained sid since vs
      → Sustained sid since (v ∷ vs)

abbrev pub latest : List Visit → ℕ
latest [] = 0
latest (v ∷ vs) = v.seen.mono

-- the clock never runs backwards, and the grace is the same at every visit
abbrev pub Timely : ℕ → List Visit → Type 0
Timely g [] = Unit
Timely g (v ∷ vs) =
    (latest vs ≤ v.seen.mono) × (v.context.thresholds.camera_unreachable_grace_s ≡ g) × Timely g vs

-- what is known of a station's clock and standby after visits
record Known (sid : String) (g : ℕ) (vs : List Visit) : Type 0 where
  clock :
      (since : ℕ)
      → lookup sid (after vs).unreachable ≡ some since
      → Sustained sid since vs × (since ≤ latest vs)
  stood :
      member sid (after vs).standby ≡ true
      → (since : ℕ) × (lookup sid (after vs).unreachable ≡ some since) × (since + g ≤ latest vs)

-- the clock after a silent cycle of the station
began_or_longer :
    (sid : String) (o : Observation) (g : ℕ) (tr tr' : Tracker) (e : Effect sid o g tr tr')
    (since : ℕ)
    → lookup sid tr'.unreachable ≡ some since
    → (e.silent ≡ true) × ((since ≡ o.mono) ⊎ (lookup sid tr.unreachable ≡ some since))
began_or_longer sid o g tr tr' e since h = ground (arith, e.clock sid, eq_refl sid, e.was)

-- the standby after a cycle of the station
stood_or_reached :
    (sid : String) (o : Observation) (g : ℕ) (tr tr' : Tracker) (e : Effect sid o g tr tr')
    → member sid tr'.standby ≡ true
    → (lookup sid tr'.unreachable ≡ some (or_else e.before o.mono))
      × ((g ≤ o.mono - or_else e.before o.mono)
          ⊎ ((member sid tr.standby ≡ true) × (e.before ≡ lookup sid tr.unreachable)))
stood_or_reached sid o g tr tr' e h = ground (arith, e.clock sid, e.stood sid, eq_refl sid, e.stays)

module _ (sid : String) (g : ℕ) (v : Visit) (vs : List Visit) (known : Known sid g vs)
    (le : latest vs ≤ v.seen.mono) (same_grace : grace v.context v.station v.seen ≡ g) where
  abbrev effect :
      Effect v.station v.seen (grace v.context v.station v.seen) (after vs) (after (v ∷ vs))
  effect = gather_Effect v.context v.station v.seen (after vs)

  clock_same :
      (p : v.station ≡ sid) (since : ℕ)
      → lookup sid (after (v ∷ vs)).unreachable ≡ some since
      → Sustained sid since (v ∷ vs) × (since ≤ v.seen.mono)
  clock_same p since h =
      let (silent, source) =
        began_or_longer v.station v.seen _ _ _ effect since
          (subst (λ s. lookup s (after (v ∷ vs)).unreachable ≡ some since) (sym p) h) in
      go (effect.unanswered silent) source
    where
      go :
          Unanswered v.seen
          → (since ≡ v.seen.mono) ⊎ (lookup v.station (after vs).unreachable ≡ some since)
          → Sustained sid since (v ∷ vs) × (since ≤ v.seen.mono)
      go u (inl now) = (began p u (sym now), omega arith)
      go u (inr old) =
          let (s, early) =
            known.clock since (subst (λ s. lookup s (after vs).unreachable ≡ some since) p old) in
          (longer p u s, omega arith)

  stood_same :
      (p : v.station ≡ sid)
      → member sid (after (v ∷ vs)).standby ≡ true
      → (since : ℕ) × (lookup sid (after (v ∷ vs)).unreachable ≡ some since)
        × (since + g ≤ v.seen.mono)
  stood_same p h =
      let (at, how) =
        stood_or_reached v.station v.seen _ _ _ effect
          (subst (λ s. member s (after (v ∷ vs)).standby ≡ true) (sym p) h) in
      let at' =
        subst
          (λ s. lookup s (after (v ∷ vs)).unreachable ≡ some (or_else effect.before v.seen.mono)) p
          at in
      (or_else effect.before v.seen.mono, at', go at' how)
    where
      go :
          lookup sid (after (v ∷ vs)).unreachable ≡ some (or_else effect.before v.seen.mono)
          → (grace v.context v.station v.seen ≤ v.seen.mono - or_else effect.before v.seen.mono)
            ⊎ ((member v.station (after vs).standby ≡ true)
                × (effect.before ≡ lookup v.station (after vs).unreachable))
          → or_else effect.before v.seen.mono + g ≤ v.seen.mono
      go at (inl reached) = omega (arith, (clock_same p _ at).1)
      go at (inr (was, same)) =
          let (old, found, early) =
            known.stood (subst (λ s. member s (after vs).standby ≡ true) p was) in
          let begun =
            same ∙ subst (λ s. lookup s (after vs).unreachable ≡ some old) (sym p) found in
          rw begun (omega arith)

  clock_other :
      v.station ≢ sid → lookup sid (after (v ∷ vs)).unreachable ≡ lookup sid (after vs).unreachable
  clock_other ne = ground (arith, effect.clock sid, eq_iff v.station sid)

  stood_other :
      v.station ≢ sid → member sid (after (v ∷ vs)).standby ≡ member sid (after vs).standby
  stood_other ne = ground (arith, effect.stood sid, eq_iff v.station sid)

  Known-other : v.station ≢ sid → Known sid g (v ∷ vs)
  Known-other ne = record {
    clock = λ since h.
        let (s, early) = known.clock since (sym (clock_other ne) ∙ h) in
        (other ne s, omega (arith, early));
    stood = λ h.
        let (since, found, early) = known.stood (sym (stood_other ne) ∙ h) in
        (since, clock_other ne ∙ found, omega (arith, early));
  }

  Known-next : Known sid g (v ∷ vs)
  Known-next = elim (String-discrete v.station sid) [
    | yes p ↦ record { clock = clock_same p; stood = stood_same p }
    | no ne ↦ Known-other ne
  ]

Known-after : (sid : String) (g : ℕ) (vs : List Visit) → Timely g vs → Known sid g vs
unfolding lookup member
Known-after sid g [] t = record { clock = λ since h. cc; stood = λ h. cc }
Known-after sid g (v ∷ vs) (le, same, t) = Known-next sid g v vs (Known-after sid g vs t) le same

-- A station is in standby after any visits of any stations only if its visits went without an
-- answer from some time on, and that time lies at least the grace before the latest visit.
pub standby-Sustained :
    (sid : String) (g : ℕ) (vs : List Visit)
    → Timely g vs
    → member sid (after vs).standby ≡ true
    → (since : ℕ) × Sustained sid since vs × (since + g ≤ latest vs)
standby-Sustained sid g vs t h =
    let k = Known-after sid g vs t in
    let (since, found, early) = k.stood h in (since, (k.clock since found).0, early)

-- A cycle in which neither ping went without an answer, because it was answered, could not be told
-- or was not made, ends the station's standby and clears its clock, and changes no other station's.
pub answer_ends_standby :
    (c : Context) (sid j : String) (o : Observation) (tr : Tracker)
    → o.standby_ping ≢ some false
    → o.stall_ping ≢ some false
    → let tr' = (gather_station c sid o tr).0 in
      (member j tr'.standby ≡ (if str_eq sid j then false else member j tr.standby))
      × (lookup j tr'.unreachable ≡ (if str_eq sid j then none else lookup j tr.unreachable))
answer_ends_standby c sid j o tr a b =
    let e = gather_Effect c sid o tr in
    let loud : e.silent ≡ false = ground (arith, e.unanswered) in
    (ground (arith, e.stood j, e.stays), ground (arith, e.clock j))
