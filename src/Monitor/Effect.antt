-- ===== src/Monitor/Effect.antt =====
-- What a cycle of one station does with the clocks and the standby set.
use cc_rms_mqtt_monitor.Base.{
  ℕ, ◌-◌, String, ◌≡◌, ◌⊎◌, ◌∙◌, refl, Bool, true, false, ◌&&◌, ◌||◌, Option, none, some, leb,
  if◌then◌else◌, Bool-cases, inl, inr, arith, Dict, Keys, lookup, member, add_key, or_else, str_eq,
  eq_iff, eq_refl, lookup-insert, lookup-erase, member-add_key, member-discard,
}
use cc_rms_mqtt_monitor.Health.Reading.{is_false}
use cc_rms_mqtt_monitor.Health.Stall.{output_stalled}
use cc_rms_mqtt_monitor.Monitor.Gather.{
  Tracker, track_unreachable, Observation, Context, stay_in_standby, probe_station, gated_ping,
  collect_fully, recover, gather_station,
}

-- a ping of the cycle ran and got no answer
abbrev pub Unanswered : Observation → Type 0
Unanswered o = (o.standby_ping ≡ some false) ⊎ (o.stall_ping ≡ some false)

lookup-track :
    (j sid : String) (stalled : Bool) (reachable : Option Bool) (now g : ℕ) (d : Dict ℕ)
    → lookup j (track_unreachable sid stalled reachable now g d).since ≡ (
        if str_eq sid j
        then (if stalled && is_false reachable then some (or_else (lookup sid d) now) else none)
        else lookup j d)
unfolding track_unreachable
lookup-track j sid stalled reachable now g d =
    ground (
      arith,
      lookup-insert j sid (or_else (lookup sid d) now) d,
      lookup-erase j sid d,
      eq_iff sid j,
    )

standby-track :
    (sid : String) (stalled : Bool) (reachable : Option Bool) (now g : ℕ) (d : Dict ℕ)
    → (track_unreachable sid stalled reachable now g d).standby
      ≡ (stalled && is_false reachable && leb g (now - or_else (lookup sid d) now))
unfolding track_unreachable
standby-track sid stalled reachable now g d = ground arith

member_if_add :
    (j sid : String) (b : Bool) (s : Keys)
    → member j (if b then add_key sid s else s)
      ≡ (if str_eq sid j then b || member sid s else member j s)
member_if_add j sid b s = ground (arith, member-add_key j sid s, eq_iff sid j)

if_or_false : (b x y : Bool) → (if b then x || false else y) ≡ (if b then x else y)
if_or_false b x y = ground arith

if_else {ℓ} :
    {A : Type ℓ} (b : Bool) (x : A) {y z : A}
    → (b ≡ false → y ≡ z)
    → (if b then x else y) ≡ (if b then x else z)
if_else true x h = refl
if_else false x h = h refl

-- what a station's cycle does with its clock and its standby, told by one flag and one number
pub record Effect (sid : String) (o : Observation) (g : ℕ) (tr tr' : Tracker) : Type 0 where
  pub silent : Bool
  pub before : Option ℕ
  pub kept : Bool
  pub unanswered : silent ≡ true → Unanswered o
  pub was : (before ≡ none) ⊎ (before ≡ lookup sid tr.unreachable)
  pub stays :
      kept ≡ true
      → (silent ≡ true) × (member sid tr.standby ≡ true) × (before ≡ lookup sid tr.unreachable)
  pub clock :
      (j : String)
      → lookup j tr'.unreachable ≡ (
          if str_eq sid j
          then (if silent then some (or_else before o.mono) else none)
          else lookup j tr.unreachable)
  pub stood :
      (j : String)
      → member j tr'.standby ≡ (
          if str_eq sid j
          then kept || (silent && leb g (o.mono - or_else before o.mono))
          else member j tr.standby)

module _ (c : Context) (sid : String) (o : Observation) where
  abbrev pub grace : ℕ
  grace = c.thresholds.camera_unreachable_grace_s

  abbrev stalled_now : Tracker → Bool
  stalled_now tr = output_stalled (probe_station c sid o tr.escalate).0 c.thresholds

  silent_now : (tr : Tracker) → Bool
  silent_now tr = stalled_now tr && is_false (gated_ping (stalled_now tr) o.stall_ping)

  silent_now-Unanswered : (tr : Tracker) → silent_now tr ≡ true → Unanswered o
  unfolding silent_now gated_ping is_false
  silent_now-Unanswered tr = ground arith

  full_clock :
      (tr : Tracker) (j : String)
      → lookup j (collect_fully c sid o tr).0.unreachable ≡ (
          if str_eq sid j
          then (if silent_now tr then some (or_else (lookup sid tr.unreachable) o.mono) else none)
          else lookup j tr.unreachable)
  unfolding collect_fully silent_now
  full_clock tr j = lookup-track j sid _ _ _ _ _

  full_stood :
      (tr : Tracker) (j : String)
      → member sid tr.standby ≡ false
      → member j (collect_fully c sid o tr).0.standby ≡ (
          if str_eq sid j
          then silent_now tr && leb grace (o.mono - or_else (lookup sid tr.unreachable) o.mono)
          else member j tr.standby)
  unfolding collect_fully silent_now
  full_stood tr j fresh =
      member_if_add j sid _ tr.standby ∙ rw (standby-track, fresh) (if_or_false (str_eq sid j) _ _)

  full_Effect :
      (tr : Tracker)
      → member sid tr.standby ≡ false
      → Effect sid o grace tr (collect_fully c sid o tr).0
  full_Effect tr fresh = record {
    silent = silent_now tr;
    before = lookup sid tr.unreachable;
    kept = false;
    unanswered = silent_now-Unanswered tr;
    was = inr refl;
    stays = λ e. cc;
    clock = full_clock tr;
    stood = λ j. full_stood tr j fresh;
  }

  -- a silent cycle in standby
  stay_Effect :
      (tr : Tracker)
      → member sid tr.standby ≡ true
      → o.standby_ping ≡ some false
      → Effect sid o grace tr (stay_in_standby c sid o tr).0
  unfolding stay_in_standby is_false
  stay_Effect tr down no_answer = record {
    silent = true;
    before = lookup sid tr.unreachable;
    kept = true;
    unanswered = λ e. inl no_answer;
    was = inr refl;
    stays = λ e. (refl, down, refl);
    clock = λ j. lookup-track j sid _ _ _ _ _;
    stood = λ j. ground (arith, eq_iff sid j);
  }

  pub recovered :
      (tr : Tracker)
      → (member sid (recover sid o c tr).standby ≡ false)
        × (lookup sid (recover sid o c tr).unreachable ≡ none)
  unfolding recover
  recovered tr = (
    ground (arith, member-discard sid sid tr.standby, eq_refl sid),
    rw lookup-track (rw eq_refl refl),
  )

  recover-others :
      (tr : Tracker) (j : String)
      → str_eq sid j ≡ false
      → (member j (recover sid o c tr).standby ≡ member j tr.standby)
        × (lookup j (recover sid o c tr).unreachable ≡ lookup j tr.unreachable)
  unfolding recover
  recover-others tr j ne =
      (ground (arith, member-discard j sid tr.standby), rw lookup-track (rw ne refl))

  -- after an answer, or one that could not be told, the full cycle starts a new clock
  recover_Effect :
      (tr : Tracker) → Effect sid o grace tr (collect_fully c sid o (recover sid o c tr)).0
  recover_Effect tr = record {
    silent = silent_now (recover sid o c tr);
    before = none;
    kept = false;
    unanswered = silent_now-Unanswered (recover sid o c tr);
    was = inl refl;
    stays = λ e. cc;
    clock = λ j.
        full_clock (recover sid o c tr) j
        ∙ rw (recovered tr).1 (if_else (str_eq sid j) _ (λ ne. (recover-others tr j ne).1));
    stood = λ j.
        full_stood (recover sid o c tr) j (recovered tr).0
        ∙ rw (recovered tr).1 (if_else (str_eq sid j) _ (λ ne. (recover-others tr j ne).0));
  }

  pub gather_Effect : (tr : Tracker) → Effect sid o grace tr (gather_station c sid o tr).0
  unfolding gather_station is_false
  gather_Effect tr = elim (Bool-cases (member sid tr.standby)) [
    | inr up ↦ rw up (full_Effect tr up)
    | inl down ↦ elim (Bool-cases (is_false o.standby_ping)) [
      | inl no_answer ↦ rw (down, no_answer) (stay_Effect tr down (ground arith))
      | inr answer ↦ rw (down, answer) (recover_Effect tr)
    ]
  ]
