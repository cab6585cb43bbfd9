-- ===== src/BootMarker/Lives.antt =====
-- The verdict on a boot from what happened during the one before it.
use mathlib.Core.Path.{subst}
use cc_rms_mqtt_monitor.Base.{
  ℕ, String, ◌≡◌, ◌≢◌, ◌∙◌, refl, true, false, Option, some, List, [], ◌∷◌, eq_iff, arith,
}
use cc_rms_mqtt_monitor.BootMarker.Keeping.{
  Event, begin, tick, end, after, Ending, running, with_system, alone, never, ending, left_state,
  deserved, Kept, IsId, own_of_read, end_Kept, tick_Kept, begin_Kept,
}
use cc_rms_mqtt_monitor.StateFiles.{Clear}
use cc_rms_mqtt_monitor.BootMarker.{
  Shutdown, Marker, World, verdict_for_state, has_boot_id, read, started, start, metrics,
}

-- a heartbeat or a stop comes only from a monitor that runs
abbrev pub Orderly : List Event → Type 0
Orderly [] = Unit
Orderly (begin now ∷ es) = Orderly es
Orderly (tick force now ∷ es) = (ending es ≡ running) × Orderly es
Orderly (end stopping now ∷ es) = (ending es ≡ running) × Orderly es

-- the verdict that the first start of boot `b` reaches in a world
abbrev pub reached : String → World → Option Shutdown
reached b w = (started b 0 (read w)).last_shutdown

abbrev Life : String → World → List Event → Ending → Type 0
Life b w es never = after b es w ≡ w
Life b w es e = Kept b (reached b w) e (after b es w)

started_verdict :
    (b : String) (s t : ℕ) (o : Option Marker)
    → (started b s o).last_shutdown ≡ (started b t o).last_shutdown
unfolding started
started_verdict b s t o = ground arith

started_own :
    (b : String) (now : ℕ) (w : World) (v : Option Shutdown) (e : Ending)
    → Kept b v e w
    → (started b now (read w)).last_shutdown ≡ v
unfolding started
started_own b now w v e k = rw k.held (ground (arith, eq_iff k.marker.boot_id b))

module _ (b : String) (id : IsId b) (w : World) (clear : Clear has_boot_id w.files) where
  restart_Kept :
      (v : Option Shutdown) (e : Ending) (now : ℕ) (u : World)
      → Kept b v e u
      → Kept b v running (start (some b) now u)
  restart_Kept v e now u k =
      subst (λ x. Kept b x running (start (some b) now u)) (started_own b now u v e k)
        (begin_Kept b id now u k.clear)

  begin_Life :
      (now : ℕ) (es : List Event) (e : Ending)
      → Life b w es e
      → Kept b (reached b w) running (start (some b) now (after b es w))
  begin_Life now es never l = rw l (
      subst (λ x. Kept b x running (start (some b) now w)) (started_verdict b now 0 (read w))
        (begin_Kept b id now w clear))
  begin_Life now es e l = restart_Kept (reached b w) e now (after b es w) l

  lived : (es : List Event) → Orderly es → Life b w es (ending es)
  lived [] o = refl
  lived (begin now ∷ es) o = begin_Life now es (ending es) (lived es o)
  lived (tick force now ∷ es) (up, o) = rw up (tick_Kept b id force now _ (rw up at (lived es o)))
  lived (end true now ∷ es) (up, o) = end_Kept b id true now (rw up at (lived es o))
  lived (end false now ∷ es) (up, o) = end_Kept b id false now (rw up at (lived es o))

published_verdict :
    (b : String) (id : IsId b) (v : Option Shutdown) (e : Ending) (now : ℕ) (u : World)
    → Kept b v e u
    → (metrics (some b) now u).last_shutdown ≡ v
unfolding metrics
published_verdict b id v e now u k = rw (own_of_read b id u k.marker k.held k.boot) k.verdict

started_new :
    (b c : String) (now : ℕ) (w : World) (v : Option Shutdown) (e : Ending)
    → b ≢ c
    → Kept b v e w
    → verdict_for_state (left_state e) ≡ deserved e
    → (started c now (read w)).last_shutdown ≡ some (deserved e)
unfolding started
started_new b c now w v e ne k d = rw k.held (ground (arith, eq_iff k.marker.boot_id c))

new_boot :
    (b c : String) (id : IsId c) (ne : b ≢ c) (now later : ℕ) {v : Option Shutdown} (w : World)
    (e : Ending)
    → Kept b v e w
    → verdict_for_state (left_state e) ≡ deserved e
    → (metrics (some c) later (start (some c) now w)).last_shutdown ≡ some (deserved e)
new_boot b c id ne now later {v} w e k d =
    published_verdict c id _ running later (start (some c) now w) (begin_Kept c id now w k.clear)
    ∙ started_new b c now w v e ne k d

-- A restart of the monitor within a boot, a heartbeat and a stop never change the verdict: after
-- any orderly events of a boot in which the monitor has run, what is published is the verdict that
-- its first start reached.
verdict_kept :
    (b : String) (w : World) (es : List Event) (now : ℕ)
    → IsId b
    → Clear has_boot_id w.files
    → Orderly es
    → ending es ≢ never
    → (metrics (some b) now (after b es w)).last_shutdown ≡ reached b w
verdict_kept b w es now id clear o ran = go (ending es) ran (lived b id w clear es o)
  where
    go :
        (e : Ending)
        → e ≢ never
        → Life b w es e
        → (metrics (some b) now (after b es w)).last_shutdown ≡ reached b w
    go never r l = absurd (r refl)
    go running r k = published_verdict b id _ running now (after b es w) k
    go with_system r k = published_verdict b id _ with_system now (after b es w) k
    go alone r k = published_verdict b id _ alone now (after b es w) k

-- At the next boot the monitor reaches and publishes the verdict that the boot before it deserves:
-- unclean if the monitor was still running when the boot ended, clean if it was stopped with the
-- system, unknown if it was stopped alone; however many restarts and heartbeats there were, and
-- whatever the marker said before.
pub next_boot_verdict :
    (b c : String) (w : World) (es : List Event) (now later : ℕ)
    → IsId b
    → IsId c
    → b ≢ c
    → Clear has_boot_id w.files
    → Orderly es
    → ending es ≢ never
    → (metrics (some c) later (start (some c) now (after b es w))).last_shutdown
      ≡ some (deserved (ending es))
unfolding verdict_for_state
next_boot_verdict b c w es now later id id' ne clear o ran =
    go (ending es) refl ran (lived b id w clear es o)
  where
    go :
        (e : Ending)
        → ending es ≡ e
        → e ≢ never
        → Life b w es e
        → (metrics (some c) later (start (some c) now (after b es w))).last_shutdown
          ≡ some (deserved e)
    go never h r l = absurd (r refl)
    go running h r k = new_boot b c id' ne now later (after b es w) running k refl
    go with_system h r k = new_boot b c id' ne now later (after b es w) with_system k refl
    go alone h r k = new_boot b c id' ne now later (after b es w) alone k refl
