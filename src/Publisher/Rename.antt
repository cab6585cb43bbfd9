-- ===== src/Publisher/Rename.antt =====
-- `clear_renamed_host` of cc_mqtt_monitor/publisher.py: a host that changed its name.
use text.Mathlib.TextEquality.{eq_iff}
use cc_rms_mqtt_monitor.Base.{
  ◌≡◌, ◌≢◌, refl, ap, String, Bool, false, not, some, ◌∷◌, eq_refl, str_eq, Bool-cases, inl, inr,
}
use cc_rms_mqtt_monitor.StateFiles.{Clear, read-write}
use cc_rms_mqtt_monitor.Publisher.{
  Publisher, previous_name, clear_name, record_name, renamed, clear_renamed_host, send,
}
use cc_rms_mqtt_monitor.Publisher.Offline.{emptied}

abbrev pub is_name : String → Bool
is_name n = not (str_eq n "")

differ : (m n : String) → m ≢ n → str_eq m n ≡ false
differ m n ne = elim (Bool-cases (str_eq m n)) [
  | inl same ↦ absurd (ne ((eq_iff m n).0 same))
  | inr e ↦ e
]

-- A host that finds another name recorded sends an empty retained message for the record and the
-- status of the old name; where the files are clear and its own name is not empty, its own name is
-- recorded, and a later call sends nothing and records nothing.
pub rename_once :
    (p : Publisher) (prev : String)
    → previous_name p ≡ some prev
    → prev ≢ p.host_uid
    → Clear is_name p.host_name_files
    → p.host_uid ≢ ""
    → let p' = clear_renamed_host p in
      (p'.sent
        ≡ emptied p.topic_prefix prev "status" ∷ emptied p.topic_prefix prev "health" ∷ p.sent)
      × (previous_name p' ≡ some p.host_uid)
      × (clear_renamed_host p' ≡ p')
unfolding clear_renamed_host renamed record_name clear_name previous_name send
rename_once p prev was moved clear named =
    let kept = read-write is_name p.host_uid p.host_name_files clear (ap not (differ _ _ named)) in
    let d = differ prev p.host_uid moved in simp (was, d, kept, eq_refl) (refl, refl, refl)
