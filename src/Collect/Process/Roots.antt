-- ===== src/Collect/Process/Roots.antt =====
-- The roots of `collect_process` in cc_mqtt_monitor/collect.py: the instances of a station's
-- capture, and what is published about them.
use cc_rms_mqtt_monitor.Base.{
  ℕ, ◌≤◌, ◌≡◌, ◌⊎◌, inl, inr, refl, Bool, true, not, ◌&&◌, none, List, [], ◌∷◌, arith, Bool-cases,
  length, filter, mem, String, some_and, is_abs,
}
use cc_rms_mqtt_monitor.Collect.Cmdline.{config_arg}
use cc_rms_mqtt_monitor.Collect.Process.{
  Entry, Kernel, pids_of, in_cwd, process_config_path, is_ours, cmd_pids, marker_pids, roots,
}

module _ (f g : Entry → Bool) (weaker : (e : Entry) → f e ≡ true → g e ≡ true) where
  mem-filter_mono :
      (p : ℕ) (procs : List Entry)
      → mem p (pids_of (filter f procs)) ≡ true
      → mem p (pids_of (filter g procs)) ≡ true
  unfolding pids_of filter mem
  mem-filter_mono p [] h = h
  mem-filter_mono p (e ∷ es) h = ground (arith, weaker e, mem-filter_mono p es)

  length-filter_mono :
      (procs : List Entry) → length (pids_of (filter f procs)) ≤ length (pids_of (filter g procs))
  unfolding pids_of filter
  length-filter_mono [] = omega arith
  length-filter_mono (e ∷ es) = ground (arith, weaker e, length-filter_mono es)

-- Less can be read of the processes: a working directory is as it was or cannot be read.
pub record Blinder (k k' : Kernel) : Type 0 where
  pub same_realpath : k'.realpath ≡ k.realpath
  pub reads : (pid : ℕ) → (k'.cwd pid ≡ none) ⊎ (k'.cwd pid ≡ k.cwd pid)

config_path-Blinder :
    (k k' : Kernel) (pid : ℕ) (args : List String)
    → Blinder k k'
    → (process_config_path k' pid args ≡ none)
      ⊎ (process_config_path k' pid args ≡ process_config_path k pid args)
unfolding process_config_path in_cwd
config_path-Blinder k k' pid args b = elim (Bool-cases (some_and (config_arg args) is_abs)) [
  | inl abs ↦ inr (rw (abs, b.same_realpath) refl)
  | inr rel ↦ elim (b.reads pid) [
    | inl fails ↦ inl (rw (rel, fails) refl)
    | inr reads ↦ inr (rw (rel, reads, b.same_realpath) refl)
  ]
]

is_ours-Blinder :
    (k k' : Kernel) (target : String) (e : Entry)
    → Blinder k k'
    → is_ours k' target e ≡ true
    → is_ours k target e ≡ true
unfolding is_ours
is_ours-Blinder k k' target e b h = elim (config_path-Blinder k k' e.pid e.args b) [
  | inl fails ↦ absurd (ground (arith, fails, h))
  | inr reads ↦ rw reads at h
]

is_root_Blinder :
    (k k' : Kernel) (target : String) (procs : List Entry) (e : Entry)
    → Blinder k k'
    → mem e.pid (cmd_pids k' target procs) && not (mem e.ppid (marker_pids procs)) ≡ true
    → mem e.pid (cmd_pids k target procs) && not (mem e.ppid (marker_pids procs)) ≡ true
unfolding cmd_pids
is_root_Blinder k k' target procs e b h = ground (
  arith,
  h,
  mem-filter_mono (is_ours k' target) (is_ours k target) (λ x. is_ours-Blinder k k' target x b)
      e.pid procs,
)

-- A working directory that cannot be read never adds an instance of the capture: every root that
-- is found is one that would be found with the directory read, and there are no more of them.
pub roots_blind :
    (k k' : Kernel) (target : String) (procs : List Entry)
    → Blinder k k'
    → ((pid : ℕ) → mem pid (roots k' target procs) ≡ true → mem pid (roots k target procs) ≡ true)
      × (length (roots k' target procs) ≤ length (roots k target procs))
unfolding roots
roots_blind k k' target procs b = (
  λ pid. mem-filter_mono _ _ (λ e. is_root_Blinder k k' target procs e b) pid procs,
  length-filter_mono _ _ (λ e. is_root_Blinder k k' target procs e b) procs,
)
