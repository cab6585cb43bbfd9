-- ===== src/Monitor/Consent.antt =====
-- Who is published, and what a cycle does with the stations that have opted out: `_publishable`
-- and the loop of `run_loop` in cc_mqtt_monitor/monitor.py.
use mathlib.Core.Path.{subst}
use cc_rms_mqtt_monitor.Base.{
  ◌≡◌, ◌⊎◌, refl, ◌∙◌, sym, ap, inl, inr, String, Bool, true, false, not, ◌&&◌, List, [], ◌∷◌,
  if◌then◌else◌, str_eq, eq_iff, contains, arith, Bool-cases, Keys, member, add_key, member-add_key,
}
use cc_rms_mqtt_monitor.Discovery.{Station}
use cc_rms_mqtt_monitor.Publisher.{Publisher, Message, clear_station, publish, flush, send}
use cc_rms_mqtt_monitor.Publisher.Offline.{emptied}

-- the ids that are the placeholder in capitals
abbrev placeholders : List String
placeholders = "XX0001" ∷ "Xx0001" ∷ "xX0001" ∷ "xx0001" ∷ []

unfoldable pub is_publishable : Station → Bool
is_publishable s = s.weblog_enable && not (contains s.station_id placeholders)

unfoldable pub opted_out : List Station → List String
opted_out [] = []
opted_out (s ∷ ss) =
    let rest = opted_out ss in if is_publishable s then rest else s.station_id ∷ rest

-- the loop over the stations that have opted out
unfoldable pub wipe_opted_out : List String → Keys → Publisher → Keys × Publisher
wipe_opted_out [] cleared p = (cleared, p)
wipe_opted_out (sid ∷ sids) cleared p =
    let (p', sent) = clear_station sid p in
    let skipped = wipe_opted_out sids cleared p in
    let wiped = wipe_opted_out sids (if sent then add_key sid cleared else cleared) p' in
    if member sid cleared then skipped else wiped

-- `m` is among the messages
abbrev pub Sent : Message → List Message → Type 0
Sent m [] = ⊥
Sent m (n ∷ ns) = (n ≡ m) ⊎ Sent m ns

-- what `clear_station` does, by the link
clear_station-up :
    (sid : String) (p : Publisher)
    → p.connected ≡ true
    → ((clear_station sid p).1 ≡ true)
      × ((clear_station sid p).0.connected ≡ true)
      × ((clear_station sid p).0.sent ≡ emptied p.topic_prefix sid "health" ∷ p.sent)
unfolding clear_station publish flush send
clear_station-up sid p up = ground arith

clear_station-down :
    (sid : String) (p : Publisher)
    → p.connected ≡ false
    → ((clear_station sid p).1 ≡ false) × ((clear_station sid p).0.sent ≡ p.sent)
unfolding clear_station publish flush send
clear_station-down sid p down = ground arith

clear_station-prefix :
    (sid : String) (p : Publisher) → (clear_station sid p).0.topic_prefix ≡ p.topic_prefix
unfolding clear_station publish flush send
clear_station-prefix sid p = ground arith

Sent-clear_station :
    (m : Message) (sid : String) (p : Publisher)
    → Sent m p.sent
    → Sent m (clear_station sid p).0.sent
Sent-clear_station m sid p h = elim (Bool-cases p.connected) [
  | inl up ↦ subst (Sent m) (sym (clear_station-up sid p up).2) (inr h)
  | inr down ↦ subst (Sent m) (sym (clear_station-down sid p down).1) h
]

Sent-wipe_opted_out :
    (m : Message) (sids : List String) (cleared : Keys) (p : Publisher)
    → Sent m p.sent
    → Sent m (wipe_opted_out sids cleared p).1.sent
unfolding wipe_opted_out
Sent-wipe_opted_out m [] cleared p h = h
Sent-wipe_opted_out m (sid ∷ sids) cleared p h = elim (Bool-cases (member sid cleared)) [
  | inl old ↦ rw old (Sent-wipe_opted_out m sids cleared p h)
  | inr new ↦ rw new (Sent-wipe_opted_out m sids _ _ (Sent-clear_station m sid p h))
]

member-recorded :
    (j sid : String) (sent : Bool) (cleared : Keys)
    → member j cleared ≡ false
    → member j (if sent then add_key sid cleared else cleared) ≡ (sent && str_eq sid j)
member-recorded j sid sent cleared h = ground (arith, member-add_key j sid cleared)

-- A station that the loop records as wiped, and that was not before, had its tombstone handed to
-- the client, whether or not the link is up.
pub wipe_opted_out_recorded :
    (sids : List String) (cleared : Keys) (p : Publisher) (j : String)
    → member j cleared ≡ false
    → member j (wipe_opted_out sids cleared p).0 ≡ true
    → Sent (emptied p.topic_prefix j "health") (wipe_opted_out sids cleared p).1.sent
unfolding wipe_opted_out
wipe_opted_out_recorded [] cleared p j fresh h = cc (fresh, h)
wipe_opted_out_recorded (sid ∷ sids) cleared p j fresh h = elim (Bool-cases (member sid cleared)) [
  | inl old ↦ rw old (wipe_opted_out_recorded sids cleared p j fresh (rw old at h))
  | inr new ↦ rw new (wiped (wipe_opted_out_recorded sids noted q j) (rw new at h))
]
  where
    q : Publisher
    q = (clear_station sid p).0

    noted : Keys
    noted = if (clear_station sid p).1 then add_key sid cleared else cleared

    here :
        str_eq sid j ≡ true → p.connected ≡ true → Sent (emptied p.topic_prefix j "health") q.sent
    here same up =
        subst (Sent (emptied p.topic_prefix j "health")) (sym (clear_station-up sid p up).2)
          (inl (ap (λ n. emptied p.topic_prefix n "health") ((eq_iff sid j).0 same)))

    later :
        (member j noted ≡ false
          → member j (wipe_opted_out sids noted q).0 ≡ true
          → Sent (emptied q.topic_prefix j "health") (wipe_opted_out sids noted q).1.sent)
        → member j noted ≡ false
        → member j (wipe_opted_out sids noted q).0 ≡ true
        → Sent (emptied p.topic_prefix j "health") (wipe_opted_out sids noted q).1.sent
    later ih unknown k =
        subst (λ pre. Sent (emptied pre j "health") (wipe_opted_out sids noted q).1.sent)
          (clear_station-prefix sid p) (ih unknown k)

    wiped :
        (member j noted ≡ false
          → member j (wipe_opted_out sids noted q).0 ≡ true
          → Sent (emptied q.topic_prefix j "health") (wipe_opted_out sids noted q).1.sent)
        → member j (wipe_opted_out sids noted q).0 ≡ true
        → Sent (emptied p.topic_prefix j "health") (wipe_opted_out sids noted q).1.sent
    wiped ih k = elim (Bool-cases p.connected) [
      | inr down ↦
          later ih
            (member-recorded j sid (clear_station sid p).1 cleared fresh
              ∙ rw (clear_station-down sid p down).0 refl)
            k
      | inl up ↦ elim (Bool-cases (str_eq sid j)) [
        | inl same ↦
            Sent-wipe_opted_out (emptied p.topic_prefix j "health") sids noted q (here same up)
        | inr apart ↦
            later ih
              (member-recorded j sid (clear_station sid p).1 cleared fresh
                ∙ rw (clear_station-up sid p up).0 apart)
              k
      ]
    ]

-- With the link up, the loop records every station that has opted out as wiped, and keeps those
-- that it recorded before.
pub wipe_opted_out-up :
    (sids : List String) (cleared : Keys) (p : Publisher) (j : String)
    → p.connected ≡ true
    → (member j cleared ≡ true) ⊎ (contains j sids ≡ true)
    → member j (wipe_opted_out sids cleared p).0 ≡ true
unfolding wipe_opted_out contains
wipe_opted_out-up [] cleared p j up (inl h) = h
wipe_opted_out-up [] cleared p j up (inr h) = cc h
wipe_opted_out-up (sid ∷ sids) cleared p j up h = elim (Bool-cases (member sid cleared)) [
  | inl old ↦ rw old (wipe_opted_out-up sids cleared p j up (ground (arith, eq_iff sid j, old, h)))
  | inr new ↦ rw new (
      wipe_opted_out-up sids _ _ j (clear_station-up sid p up).1
        (ground (arith, member-add_key j sid cleared, (clear_station-up sid p up).0, h)))
]
