-- ===== src/Maintenance.antt =====
-- cc_mqtt_monitor/maintenance.py: when disruption is expected, and the flag file that is removed.
-- The uptime, the processes with their ages and the age of the flag file are inputs, in
-- milliseconds.
use mathlib.Core.Option.{some-injective}
use cc_rms_mqtt_monitor.Base.{
  eq_iff, ◌≢◌, ℕ, ◌<◌, ◌≡◌, ◌⊎◌, ◌↔◌, inl, inr, refl, String, Bool, true, false, not, ◌&&◌, ◌||◌,
  Option, none, some, List, [], ◌∷◌, ltb, if◌then◌else◌, some_and, contains, ℤ, pos, leb_ℤ, ltb_ℤ,
  ◌≤ℤ◌, ltb_ℤ_iff, arith, Bool-cases,
}
use cc_rms_mqtt_monitor.Config.{Config}

-- the base names of a process's arguments, the empty ones left out, and its age
pub record Process : Type 0 where
  pub args : List String
  pub age : Option ℤ

-- the maintenance file where there is one
pub record Flag : Type 0 where
  pub age : ℤ
  pub removable : Bool

pub record Host : Type 0 where
  pub uptime : Option ℕ
  pub processes : List Process
  pub flag_file : Option Flag

-- `os.path.basename(...) in _UPDATER_SCRIPTS` for one of the arguments
unfoldable pub is_updater : List String → Bool
is_updater [] = false
is_updater (a ∷ rest) = contains a ("GRMSUpdater.sh" ∷ "RMS_Update.sh" ∷ []) || is_updater rest

-- `age is None or age <= max_age_s`
unfoldable pub is_young : Option ℤ → ℕ → Bool
is_young none window = true
is_young (some age) window = leb_ℤ age (pos window)

unfoldable pub updater_running : ℕ → List Process → Bool
updater_running window [] = false
updater_running window (p ∷ ps) =
    let rest = updater_running window ps in
    if is_updater p.args && is_young p.age window then true else rest

unfoldable pub is_booting : Config → Host → Bool
is_booting c h = some_and h.uptime (λ up. ltb up c.boot_grace_s)

-- what is left of the flag file
unfoldable pub heal : Bool → Bool → ℕ → Option Flag → Option Flag
heal booting updating window none = none
heal booting updating window (some f) =
    if (booting || not updating || ltb_ℤ (pos window) f.age) && f.removable then none else some f

-- whether a maintenance file is configured
unfoldable pub has_file : Config → Bool
has_file c = some_and c.maintenance_file (λ name. not (contains name ("" ∷ [])))

unfoldable pub detect : Config → Host → (Bool × Option String) × Option Flag
detect c h =
    let window = c.maintenance_file_max_age_s in
    let booting = is_booting c h in
    let updating = updater_running window h.processes in
    let left = if has_file c then heal booting updating window h.flag_file else h.flag_file in
    if booting
    then ((true, some "booting"), left)
    else if updating
    then ((true, some "rms-updating"), left)
    else ((false, none), left)

-- an updater script that runs and is not too old, or whose age cannot be told
pub data LiveUpdater (window : ℕ) : List Process → Type 0 where
  here :
      {p : Process} {ps : List Process}
      → is_updater p.args ≡ true
      → is_young p.age window ≡ true
      → LiveUpdater window (p ∷ ps)
  there : {p : Process} {ps : List Process} → LiveUpdater window ps → LiveUpdater window (p ∷ ps)

running-LiveUpdater :
    (window : ℕ) (ps : List Process) → updater_running window ps ≡ true → LiveUpdater window ps
unfolding updater_running
running-LiveUpdater window [] h = cc h
running-LiveUpdater window (p ∷ ps) h =
    elim (Bool-cases (is_updater p.args && is_young p.age window)) [
      | inl both ↦ here (ground (arith, both)) (ground (arith, both))
      | inr old ↦ there (running-LiveUpdater window ps (ground arith))
    ]

LiveUpdater-running :
    (window : ℕ) (ps : List Process) → LiveUpdater window ps → updater_running window ps ≡ true
unfolding updater_running
LiveUpdater-running window [] l = elim l [ ]
LiveUpdater-running window (p ∷ ps) (here a b) = simp (a, b)
LiveUpdater-running window (p ∷ ps) (there l) = ground (arith, LiveUpdater-running window ps l)

-- the host came up less than the grace ago
abbrev pub Booting : Config → Host → Type 0
Booting c h = (up : ℕ) × (h.uptime ≡ some up) × (up < c.boot_grace_s)

Booting-iff : (c : Config) (h : Host) → (is_booting c h ≡ true) ↔ Booting c h
unfolding is_booting
Booting-iff c h = ground arith

-- Disruption is expected exactly while the host boots or an updater script runs that is not older
-- than the window, whatever flag file is there; the boot is the reason given first.
pub detect_iff :
    (c : Config) (h : Host)
    → let (found, reason) = (detect c h).0 in
      ((found ≡ true) ↔ (Booting c h ⊎ LiveUpdater c.maintenance_file_max_age_s h.processes))
      × ((reason ≡ none) ↔ (found ≡ false))
      × ((reason ≡ some "booting") ↔ Booting c h)
unfolding detect
detect_iff c h =
    let live = running-LiveUpdater c.maintenance_file_max_age_s h.processes in
    let runs = LiveUpdater-running c.maintenance_file_max_age_s h.processes in
    elim (Bool-cases (is_booting c h)) [
      | inl up ↦ rw up (
        (λ e. inl ((Booting-iff c h).0 up), λ e. refl),
        (λ e. cc e, λ e. cc e),
        (λ e. (Booting-iff c h).0 up, λ e. refl),
      )
      | inr down ↦ elim (Bool-cases (updater_running c.maintenance_file_max_age_s h.processes)) [
        | inl on ↦
            rw (down, on)
              (
                (λ e. inr (live on), λ e. refl),
                (λ e. cc e, λ e. cc e),
                (λ e. absurd (not_boot e), λ b. cc (down, (Booting-iff c h).1 b)),
              )
        | inr off ↦
            rw (down, off)
              (
                (λ e. cc e, either down off),
                (λ e. refl, λ e. refl),
                (λ e. cc e, λ b. cc (down, (Booting-iff c h).1 b)),
              )
      ]
    ]
  where
    not_boot : ◌≢◌ {A = Option String} (some "rms-updating") (some "booting")
    not_boot e = ground (arith, eq_iff "rms-updating" "booting", some-injective _ _ e)

    either :
        is_booting c h ≡ false
        → updater_running c.maintenance_file_max_age_s h.processes ≡ false
        → Booting c h ⊎ LiveUpdater c.maintenance_file_max_age_s h.processes
        → false ≡ true
    either down off (inl b) = cc (down, (Booting-iff c h).1 b)
    either down off (inr l) = cc (off, LiveUpdater-running _ _ l)

-- A flag file that can be removed survives only while a live updater runs, the host does not boot,
-- and the file is not older than the window.
detect_keeps_flag :
    (c : Config) (h : Host) (f : Flag)
    → has_file c ≡ true
    → f.removable ≡ true
    → (detect c h).1 ≡ some f
    → LiveUpdater c.maintenance_file_max_age_s h.processes
      × (is_booting c h ≡ false)
      × (f.age ≤ℤ pos c.maintenance_file_max_age_s)
unfolding detect heal
detect_keeps_flag c h f on r e =
    let (runs, settled, young) = kept in (running-LiveUpdater _ _ runs, settled, young)
  where
    kept :
        (updater_running c.maintenance_file_max_age_s h.processes ≡ true)
        × (is_booting c h ≡ false)
        × (f.age ≤ℤ pos c.maintenance_file_max_age_s)
    kept = ground (arith, ltb_ℤ_iff (pos c.maintenance_file_max_age_s) f.age)
