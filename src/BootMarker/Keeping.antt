-- ===== src/BootMarker/Keeping.antt =====
-- Every operation of the boot marker keeps the record of the boot that it runs in.
use mathlib.Core.Path.{subst}
use cc_rms_mqtt_monitor.Base.{
  ℕ, ◌&&◌, ltb, ◌+◌, String, ◌≡◌, refl, Bool, true, false, not, Option, some, List, [], ◌∷◌, str_eq,
  eq_iff, Bool-cases, inl, inr, arith,
}
use cc_rms_mqtt_monitor.StateFiles.{Clear, read-write, write-Clear}
use cc_rms_mqtt_monitor.BootMarker.{
  MarkerState, live, shutdown, stopped, other, Shutdown, clean, unclean, unknown, Marker, World,
  heartbeat_s, has_boot_id, read, write, started, start, own, beat, heartbeat, stop,
}

-- what the monitor does during a boot, each at its time; a restart is another `begin`
pub data Event : Type 0 where
  begin : ℕ → Event
  tick : Bool → ℕ → Event
  end : Bool → ℕ → Event

abbrev pub happen : String → Event → World → World
happen b (begin now) w = start (some b) now w
happen b (tick force now) w = heartbeat force (some b) now w
happen b (end stopping now) w = stop (some b) stopping now w

-- the world after the events of a boot, the last event first
abbrev pub after : String → List Event → World → World
after b [] w = w
after b (e ∷ es) w = happen b e (after b es w)

-- How a boot left the monitor: running, stopped with the system, or stopped alone. Nothing is
-- said of a boot in which it did not run.
pub data Ending : Type 0 where
  running with_system alone never : Ending

abbrev pub next_ending : Event → Ending → Ending
next_ending (begin now) e = running
next_ending (tick force now) e = e
next_ending (end true now) e = with_system
next_ending (end false now) e = alone

abbrev pub ending : List Event → Ending
ending [] = never
ending (e ∷ es) = next_ending e (ending es)

-- the state of the marker that an ending leaves, and the verdict that it deserves
abbrev pub left_state : Ending → MarkerState
left_state running = live
left_state with_system = shutdown
left_state alone = stopped
left_state never = other

abbrev pub deserved : Ending → Shutdown
deserved running = unclean
deserved with_system = clean
deserved alone = unknown
deserved never = unknown

-- the marker holds this boot's record, in the state that its events left
pub record Kept (b : String) (v : Option Shutdown) (e : Ending) (w : World) : Type 0 where
  pub clear : Clear has_boot_id w.files
  pub marker : Marker
  pub held : read w ≡ some marker
  pub boot : marker.boot_id ≡ b
  pub state : marker.state ≡ left_state e
  pub verdict : marker.last_shutdown ≡ v

-- a nonempty boot id
abbrev pub IsId : String → Type 0
IsId b = str_eq b "" ≡ false

module _ (b : String) (id : IsId b) where
  -- a write of this boot's record
  write-Kept :
      (r : Marker) (w : World) (e : Ending)
      → Clear has_boot_id w.files
      → r.boot_id ≡ b
      → r.state ≡ left_state e
      → Kept b r.last_shutdown e (write r w).0
  unfolding write read
  write-Kept r w e clear same left = record {
    clear = write-Clear has_boot_id r w.files clear;
    marker = r;
    held = read-write has_boot_id r w.files clear (unfold has_boot_id in simp (same, id));
    boot = same;
    state = left;
    verdict = refl;
  }

  pub own_of_read :
      (w : World) (r : Marker) → read w ≡ some r → r.boot_id ≡ b → own (some b) w ≡ some r
  unfolding own
  own_of_read w r h same = ground (arith, eq_iff r.boot_id b)

  rewritten :
      {v : Option Shutdown} {e : Ending} {w : World} (k : Kept b v e w) (f : Ending)
      (s : MarkerState) (now : ℕ)
      → s ≡ left_state f
      → Kept b v f (write (record (k.marker) { state = s; ts = now }) w).0
  rewritten {w} k f s now left =
      let r : Marker = record (k.marker) { state = s; ts = now } in
      subst (λ u. Kept b u f (write r w).0) k.verdict (write-Kept r w f k.clear k.boot left)

  pub end_Kept :
      {v : Option Shutdown} (stopping : Bool) (now : ℕ) {w : World}
      → Kept b v running w
      → Kept b v (next_ending (end stopping now) running) (stop (some b) stopping now w)
  unfolding stop
  end_Kept true now {w} k =
      rw (own_of_read w k.marker k.held k.boot) (rewritten k with_system shutdown now refl)
  end_Kept false now {w} k =
      rw (own_of_read w k.marker k.held k.boot) (rewritten k alone stopped now refl)

  -- the files decide, not the time of the last beat
  beaten :
      {v : Option Shutdown} {e : Ending} {w : World} (t : ℕ)
      → Kept b v e w
      → Kept b v e (record w { last_beat = t })
  unfolding read
  beaten t k = record {
    clear = k.clear;
    marker = k.marker;
    held = k.held;
    boot = k.boot;
    state = k.state;
    verdict = k.verdict;
  }

  beat-Kept :
      {v : Option Shutdown} (now : ℕ) (w : World) (k : Kept b v running w)
      → Kept b v running (beat (some k.marker) now w)
  unfolding beat
  beat-Kept now w k =
      let next = rewritten k running live now refl in
      elim (Bool-cases ((write (record (k.marker) { state = live; ts = now }) w).1)) [
        | inl done ↦ rw done (beaten now next)
        | inr failed ↦ rw failed next
      ]

  pub tick_Kept :
      {v : Option Shutdown} (force : Bool) (now : ℕ) (w : World)
      → Kept b v running w
      → Kept b v running (heartbeat force (some b) now w)
  unfolding heartbeat
  tick_Kept force now w k = elim (Bool-cases (not force && ltb now (w.last_beat + heartbeat_s))) [
    | inl early ↦ rw early k
    | inr due ↦ rw (due, own_of_read w k.marker k.held k.boot) (beat-Kept now w k)
  ]

  started_boot : (now : ℕ) (o : Option Marker) → (started b now o).boot_id ≡ b
  unfolding started
  started_boot now o = ground arith

  started_live : (now : ℕ) (o : Option Marker) → (started b now o).state ≡ live
  unfolding started
  started_live now o = ground arith

  pub begin_Kept :
      (now : ℕ) (w : World)
      → Clear has_boot_id w.files
      → Kept b (started b now (read w)).last_shutdown running (start (some b) now w)
  unfolding start
  begin_Kept now w clear = beaten now (
      write-Kept (started b now (read w)) w running clear (started_boot now (read w))
        (started_live now (read w)))
