-- ===== src/Discovery/Places.antt =====
-- The directory of a station's data, in cc_mqtt_monitor/discovery.py.
use cc_rms_mqtt_monitor.Base.{
  ◌≡◌, refl, String, false, not, ◌||◌, List, [], ◌∷◌, if◌then◌else◌, eq_iff, any, arith,
}
use cc_rms_mqtt_monitor.Discovery.{World, readable_dir, fall_back, alternatives, choose_data_dir}

-- whether the directory chosen can be read, by those that are tried
readable_dir-fall_back :
    (w : World) (dir : String) (alts : List String)
    → readable_dir w dir ≡ false
    → readable_dir w (fall_back w dir alts) ≡ any (readable_dir w) alts
unfolding fall_back any
readable_dir-fall_back w dir [] closed = closed
readable_dir-fall_back w dir (alt ∷ alts) closed =
    grind (arith, eq_iff alt dir, readable_dir-fall_back w dir alts closed)

fall_back_closed :
    (w : World) (dir : String) (alts : List String)
    → any (readable_dir w) alts ≡ false
    → fall_back w dir alts ≡ dir
unfolding fall_back any
fall_back_closed w dir [] closed = refl
fall_back_closed w dir (alt ∷ alts) closed = ground (arith, fall_back_closed w dir alts)

-- The directory that is chosen for a station's data can be read exactly where the configured one can
-- be or one of the two alternatives in the monitor's home. It is the configured one wherever that
-- can be read, and where neither it nor an alternative can.
pub choose_data_dir_readable :
    (w : World) (station_id dir : String)
    → (readable_dir w (choose_data_dir w station_id dir)
        ≡ (readable_dir w dir || any (readable_dir w) (alternatives w station_id)))
      × (choose_data_dir w station_id dir ≡ (
          if readable_dir w dir || not (any (readable_dir w) (alternatives w station_id))
          then dir
          else choose_data_dir w station_id dir))
unfolding choose_data_dir
choose_data_dir_readable w station_id dir =
    let alts = alternatives w station_id in
    ground (arith, readable_dir-fall_back w dir alts, fall_back_closed w dir alts)
