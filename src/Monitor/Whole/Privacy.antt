-- ===== src/Monitor/Whole/Privacy.antt =====
-- Rounds of `run_loop` of cc_mqtt_monitor/monitor.py, for a station that does not consent.
use cc_rms_mqtt_monitor.Base.{
  ℕ, zero, suc, ◌+◌, ◌≡◌, refl, ◌∙◌, ap, String, Bool, false, Option, none, some, List, [], ◌∷◌,
  ◌++◌, push_all, if◌then◌else◌, Bool-cases, inl, inr, ◌||◌, contains, str_eq, arith,
}
use cc_rms_mqtt_monitor.Config.{Config}
use cc_rms_mqtt_monitor.Config.Reload.{System, File}
use cc_rms_mqtt_monitor.Health.Metrics.{StationMetrics, HostMetrics}
use cc_rms_mqtt_monitor.Health.State.{State}
use cc_rms_mqtt_monitor.Publisher.{Publisher, on_connect, on_disconnect, on_publish}
use cc_rms_mqtt_monitor.Publisher.Recorded.{
  record_ids, ids, ids-publish_host_state, ids-go_silent, ids-on_connect,
}
use cc_rms_mqtt_monitor.Monitor.Records.{consenting}
use cc_rms_mqtt_monitor.Monitor.Cycles.{Loop, ids_of, publish_states, silencing, has_consent}
use cc_rms_mqtt_monitor.Monitor.Gather.{Tracker}
use cc_rms_mqtt_monitor.Monitor.Daemon.{
  Daemon, first_states, run_raised, try_publishing, cycle_once, round, reload, configure,
}
use cc_rms_mqtt_monitor.Monitor.Whole.{
  Callback, Turn, Whole, call_back, called_back, current_config, inputs_of, whole_round, run_turns,
}
use cc_rms_mqtt_monitor.Monitor.Whole.Handed.{
  record_names, topped, opened, records_of-record_names, ids-publish_states, ids-opened,
  publishing-handed,
}

-- how often a name is there
unfoldable pub times : String → List String → ℕ
times x [] = 0
times x (y ∷ ys) = let rest = times x ys in if str_eq y x then suc rest else rest

-- the stations that consent in some round, as `gather` finds them
unfoldable pub shown : List Turn → List String
shown [] = []
shown (t ∷ ts) = ids_of (consenting t.gathered) ++ shown ts

contains-append :
    (x : String) (ys zs : List String) → contains x (ys ++ zs) ≡ (contains x ys || contains x zs)
unfolding contains
contains-append x [] zs = refl
contains-append x (y ∷ ys) zs = ground (arith, contains-append x ys zs)

module _ (x : String) where
  times-push_all :
      (news old : List String) → times x (push_all news old) ≡ times x news + times x old
  unfolding push_all times
  times-push_all [] old = omega arith
  times-push_all (y ∷ ys) old = ground (arith, times-push_all ys (y ∷ old))

  times-absent : (ys : List String) → contains x ys ≡ false → times x ys ≡ 0
  unfolding times contains
  times-absent [] h = refl
  times-absent (y ∷ ys) h = ground (arith, times-absent ys)

  times-topped :
      (up : Bool) (news old : List String)
      → times x news ≡ 0
      → times x (topped up news old) ≡ times x old
  times-topped up news old h = ground (arith, times-push_all news old)

  times-first_states :
      (n : ℕ) (ss : List (State StationMetrics))
      → times x (record_names ss) ≡ 0
      → times x (record_names (first_states n ss)) ≡ 0
  unfolding first_states times
  times-first_states zero ss h = refl
  times-first_states (suc n) [] h = refl
  times-first_states (suc n) (s ∷ ss) h = ground (arith, times-first_states n ss)

  -- how many records of the station were handed to the client
  abbrev handed : Publisher → ℕ
  handed p = times x (ids p)

  handed-publish_states :
      (ss : List (State StationMetrics)) (p : Publisher)
      → times x (record_names ss) ≡ 0
      → handed (publish_states ss p) ≡ handed p
  handed-publish_states ss p h =
      ap (times x) (ids-publish_states ss p) ∙ times-topped p.connected (record_names ss) (ids p) h

  handed-run_raised :
      (n : ℕ) (host : Option (State HostMetrics)) (ss : List (State StationMetrics)) (p : Publisher)
      → times x (record_names ss) ≡ 0
      → handed (run_raised n host ss p) ≡ handed p
  unfolding run_raised
  handed-run_raised zero host ss p h = refl
  handed-run_raised (suc n) none ss p h =
      handed-publish_states (first_states (suc n) ss) p (times-first_states (suc n) ss h)
  handed-run_raised (suc n) (some host) ss p h =
      handed-publish_states (first_states n ss) _ (times-first_states n ss h)
      ∙ ap (times x) (ids-publish_host_state host p)

  handed-call_back : (ks : List Callback) (p : Publisher) → handed (call_back ks p) ≡ handed p
  unfolding call_back on_disconnect on_publish
  handed-call_back [] p = refl
  handed-call_back (Callback.connack rc now ∷ ks) p =
      handed-call_back ks (on_connect rc now p) ∙ ap (times x) (ids-on_connect rc now p)
  handed-call_back (Callback.lost ∷ ks) p = handed-call_back ks (on_disconnect p)
  handed-call_back (Callback.puback now ∷ ks) p = handed-call_back ks (on_publish now p)

  module _ (config : Config) (t : Turn) (tr : Tracker)
      (absent : contains x (ids_of (consenting t.gathered)) ≡ false) where
    none_gathered : times x (ids_of (consenting t.gathered)) ≡ 0
    none_gathered = times-absent (ids_of (consenting t.gathered)) absent

    handed-try_publishing :
        (raised : Option ℕ) (l : Loop)
        → handed (try_publishing raised (inputs_of config t tr) l).publisher ≡ handed l.publisher
    unfolding try_publishing inputs_of
    handed-try_publishing none l =
        ap (times x) (publishing-handed config t tr l)
        ∙ times-topped (opened t l).connected (ids_of (consenting t.gathered)) (ids l.publisher)
            none_gathered
    handed-try_publishing (some n) l =
        handed-run_raised n _ (inputs_of config t tr).states (opened t l)
          (ap (times x) (records_of-record_names config t tr) ∙ none_gathered)
        ∙ ap (times x) (ids-opened t l)

    handed-cycle_once :
        (raised : Option ℕ) (now stale_after : ℕ) (l : Loop)
        → handed (cycle_once raised now stale_after (inputs_of config t tr) l).0.publisher
          ≡ handed l.publisher
    unfolding cycle_once silencing
    handed-cycle_once raised now stale_after l =
        elim (Bool-cases (has_consent (inputs_of config t tr).stations)) [
          | inl some_consent ↦ rw some_consent (handed-try_publishing raised l)
          | inr no_consent ↦ rw no_consent (elim (Bool-cases l.connected) [
            | inl up ↦ rw up (ap (times x) (ids-go_silent _ l.publisher))
            | inr down ↦ rw down refl
          ])
        ]

  reload-sent :
      (sys : System) (mtime : Option ℕ) (file : Option File) (d : Daemon)
      → (reload sys mtime file d).0.loop.publisher.sent ≡ d.loop.publisher.sent
  unfolding reload configure
  reload-sent sys mtime file d = ground arith

  handed-whole_round :
      (t : Turn) (w : Whole)
      → contains x (ids_of (consenting t.gathered)) ≡ false
      → handed (whole_round t w).0.daemon.loop.publisher ≡ handed w.daemon.loop.publisher
  unfolding whole_round round called_back
  handed-whole_round t w absent =
      let d = called_back t.callbacks w.daemon in
      let d' = (reload t.system t.mtime t.file d).0 in
      handed-cycle_once (current_config t d) t w.tracker absent t.raised t.now t.stale_after d'.loop
      ∙ ap (λ ms. times x (record_ids ms)) (reload-sent t.system t.mtime t.file d)
      ∙ handed-call_back t.callbacks w.daemon.loop.publisher

-- In rounds in which no station of a name consents, however they raise, reload, connect and lose the
-- link, no record of a station of that name is handed to the client.
pub never_handed :
    (x : String) (ts : List Turn) (w : Whole)
    → contains x (shown ts) ≡ false
    → times x (ids (run_turns ts w).daemon.loop.publisher) ≡ times x (ids w.daemon.loop.publisher)
unfolding run_turns shown
never_handed x [] w absent = refl
never_handed x (t ∷ ts) w absent =
    let (w', exits) = whole_round t w in
    let both = contains-append x (ids_of (consenting t.gathered)) (shown ts) in
    let here = handed-whole_round x t w (ground (arith, both)) in
    elim (Bool-cases exits) [
      | inl out ↦ rw out here
      | inr stays ↦ rw stays (never_handed x ts w' (ground (arith, both)) ∙ here)
    ]
