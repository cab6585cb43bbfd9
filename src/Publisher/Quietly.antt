-- ===== src/Publisher/Quietly.antt =====
-- A publisher of cc_mqtt_monitor/publisher.py that does not announce itself: what it hands to the client until it
-- publishes something.
use cc_rms_mqtt_monitor.Base.{
  ℕ, zero, suc, ◌≡◌, refl, String, Bool, true, false, not, Option, none, some, any, str_eq, eq_refl,
  arith, Bool-cases, inl, inr,
}
use cc_rms_mqtt_monitor.Publisher.{
  Message, Publisher, word, station_record, host_record, on_connect, send, clear_name, record_name,
  renamed, previous_name, clear_renamed_host,
}

-- a message that is no tombstone
unfoldable pub says : Message → Bool
says m = elim m.payload [
  | word text ↦ not (str_eq text "")
  | station_record s ↦ true
  | host_record h ↦ true
]

-- It does not announce itself, has handed over tombstones alone, and has these names.
pub record Mute (prefix uid status_uid : String) (p : Publisher) : Type 0 where
  pub unannounced : p.announce ≡ false
  pub tombstones : any says p.sent ≡ false
  pub same_prefix : p.topic_prefix ≡ prefix
  pub same_uid : p.host_uid ≡ uid
  pub same_status : p.status_uid ≡ status_uid

module _ {prefix uid status_uid : String} where
  pub on_connect-Mute :
      (rc now : ℕ) (p : Publisher)
      → Mute prefix uid status_uid p
      → Mute prefix uid status_uid (on_connect rc now p)
  unfolding on_connect
  on_connect-Mute zero now p h = rw h.unannounced (record {
    unannounced = refl;
    tombstones = h.tombstones;
    same_prefix = h.same_prefix;
    same_uid = h.same_uid;
    same_status = h.same_status;
  })
  on_connect-Mute (suc rc) now p h = h

  clear_name-Mute :
      (prev : String) (p : Publisher)
      → Mute prefix uid status_uid p
      → Mute prefix uid status_uid (record_name (clear_name prev p))
  unfolding clear_name record_name send says any
  clear_name-Mute prev p h = record {
    unannounced = h.unannounced;
    tombstones = ground (arith, eq_refl "", h.tombstones);
    same_prefix = h.same_prefix;
    same_uid = h.same_uid;
    same_status = h.same_status;
  }

  renamed-Mute :
      (o : Option String) (p : Publisher)
      → Mute prefix uid status_uid p
      → Mute prefix uid status_uid (renamed o p)
  unfolding renamed record_name
  renamed-Mute none p h = record {
    unannounced = h.unannounced;
    tombstones = h.tombstones;
    same_prefix = h.same_prefix;
    same_uid = h.same_uid;
    same_status = h.same_status;
  }
  renamed-Mute (some prev) p h = elim (Bool-cases (str_eq prev p.host_uid)) [
    | inl same ↦ rw same h
    | inr other ↦ rw other (clear_name-Mute prev p h)
  ]

  pub clear_renamed_host-Mute :
      (p : Publisher)
      → Mute prefix uid status_uid p
      → Mute prefix uid status_uid (clear_renamed_host p)
  unfolding clear_renamed_host
  clear_renamed_host-Mute p h = renamed-Mute (previous_name p) p h
