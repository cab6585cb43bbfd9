-- ===== src/BootMarker/Shadow.antt =====
-- A marker that can be read and not written hides the one that can be written.
use cc_rms_mqtt_monitor.Base.{
  ℕ, String, ◌≡◌, ◌≢◌, Bool, true, false, none, some, List, ◌∷◌, eq_iff, arith,
}
use cc_rms_mqtt_monitor.StateFiles.{Cell, read_first, write_first}
use cc_rms_mqtt_monitor.BootMarker.{
  Marker, World, has_boot_id, read, write, started, start, own, heartbeat, stop, metrics,
}

-- The first file holds a record of boot `a` and cannot be written.
abbrev pub Shadowed : String → World → Type 0
Shadowed a w =
    (old : Marker) × (c : Cell Marker) × (rest : List (Cell Marker)) × (w.files ≡ c ∷ rest)
    × (c.content ≡ some old)
    × (c.writable ≡ false)
    × (has_boot_id old ≡ true)
    × (old.boot_id ≡ a)

read-Shadowed : (a : String) (w : World) (s : Shadowed a w) → read w ≡ some s.0
unfolding read read_first
read-Shadowed a w (old, c, rest, f, h, u, ok, same) = rw f (simp (h, ok))

own-Shadowed : (a b : String) (w : World) → a ≢ b → Shadowed a w → own (some b) w ≡ none
unfolding own
own-Shadowed a b w ne s = ground (arith, read-Shadowed a w s, eq_iff (s.0).boot_id b)

write-Shadowed : (a : String) (r : Marker) (w : World) → Shadowed a w → Shadowed a (write r w).0
unfolding write write_first
write-Shadowed a r w (old, c, rest, f, h, u, ok, same) =
    (old, c, (write_first r rest).0, rw f (simp u), h, u, ok, same)

start-Shadowed :
    (a b : String) (now : ℕ) (w : World) → Shadowed a w → Shadowed a (start (some b) now w)
unfolding start
start-Shadowed a b now w s = write-Shadowed a (started b now (read w)) w s

heartbeat_idle :
    (force : Bool) (b : String) (t : ℕ) (w : World)
    → own (some b) w ≡ none
    → heartbeat force (some b) t w ≡ w
unfolding heartbeat
heartbeat_idle force b t w h = ground arith

stop_idle :
    (stopping : Bool) (b : String) (t : ℕ) (w : World)
    → own (some b) w ≡ none
    → stop (some b) stopping t w ≡ w
unfolding stop
stop_idle stopping b t w h = ground arith

silent :
    (b : String) (t : ℕ) (w : World)
    → own (some b) w ≡ none
    → (metrics (some b) t w).last_shutdown ≡ none
unfolding metrics
silent b t w h = ground arith

-- Where the first marker file holds the record of another boot and cannot be written, a start in
-- this boot leaves that file as it is: no heartbeat and no stop then changes anything, and no
-- verdict is published, although the start may have written another file.
pub Shadowed-marker :
    (a b : String) (w : World) (now t u v : ℕ) (force stopping : Bool)
    → a ≢ b
    → Shadowed a w
    → let w' = start (some b) now w in
      Shadowed a w'
      × (heartbeat force (some b) t w' ≡ w')
      × (stop (some b) stopping u w' ≡ w')
      × ((metrics (some b) v w').last_shutdown ≡ none)
Shadowed-marker a b w now t u v force stopping ne s =
    let s' = start-Shadowed a b now w s in
    let mine = own-Shadowed a b (start (some b) now w) ne s' in
    (s', heartbeat_idle force b t _ mine, stop_idle stopping b u _ mine, silent b v _ mine)
