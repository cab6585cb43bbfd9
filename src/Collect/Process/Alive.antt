-- ===== src/Collect/Process/Alive.antt =====
-- What `collect_process` of cc_mqtt_monitor/collect.py returns, and the processor sample it keeps.
use mathlib.Core.List.Memᴰ
use cc_rms_mqtt_monitor.Base.{
  ℕ, ◌<◌, ◌≡◌, ◌≢◌, ◌↔◌, inl, inr, refl, sym, insert, erase, Bool, true, false, some, List, [], ◌∷◌,
  Memᴰ, arith, Bool-cases, length, mem, mem_iff, String, is_some, Dict, lookup, str_eq, eq_iff,
  lookup-insert, lookup-erase, eq_refl, if◌then◌else◌,
}
use cc_rms_mqtt_monitor.Collect.Process.{
  Entry, Kernel, CpuSample, ProcessMetrics, roots, is_alive, measure, collect_process, oldest_root,
}
use cc_rms_mqtt_monitor.Collect.Process.Tree.{Descends, root, child, capture_tree_exact}

rootless : (procs : List Entry) {pid : ℕ} → Descends procs [] pid → ⊥
rootless procs (root m) = Memᴰ.not-nil m
rootless procs (child d m) = rootless procs d

is_alive_iff :
    (procs : List Entry) (starts tree : List ℕ)
    → ((pid : ℕ) → (mem pid tree ≡ true) ↔ Descends procs starts pid)
    → (is_alive tree ≡ true) ↔ (0 < length starts)
unfolding is_alive mem
is_alive_iff procs [] [] exact = ground arith
is_alive_iff procs (s ∷ ss) [] exact = absurd (cc ((exact s).1 (root (Memᴰ.head refl))))
is_alive_iff procs [] (p ∷ tree) exact =
    absurd (rootless procs ((exact p).0 ((mem_iff p (p ∷ tree)).1 (Memᴰ.head refl))))
is_alive_iff procs (s ∷ ss) (p ∷ tree) exact = ground arith

differ : (j k : String) → j ≢ k → str_eq k j ≡ false
differ j k ne = elim (Bool-cases (str_eq k j)) [
  | inl same ↦ absurd (ne (sym ((eq_iff k j).0 same)))
  | inr e ↦ e
]

sampled :
    (alive : Bool) (station : String) (sample : CpuSample) (last : Dict CpuSample)
    → let d = (if alive then insert station sample last else erase station last) in
      (is_some (lookup station d) ≡ alive)
      × ((other : String) → other ≢ station → lookup other d ≡ lookup other last)
sampled true station sample last =
    (rw (lookup-insert, eq_refl) refl, λ other ne. rw (lookup-insert, differ other station ne) refl)
sampled false station sample last =
    (rw (lookup-erase, eq_refl) refl, λ other ne. rw (lookup-erase, differ other station ne) refl)

is_some-oldest_root :
    (k : Kernel) (alive : Bool) (starts : List ℕ)
    → (alive ≡ true) ↔ (0 < length starts)
    → alive ≡ is_some (oldest_root k starts)
unfolding oldest_root
is_some-oldest_root k alive [] h = ground (arith, h)
is_some-oldest_root k alive (s ∷ ss) h = ground (arith, h)

-- Reading the processes of a station always returns. The capture is alive exactly where it has an
-- instance, which is exactly where it has a main process; a processor sample of the station is
-- kept exactly then, and the samples of the other stations stay.
pub collect_process_alive :
    (k : Kernel) (station config_path : String) (now : ℕ) (procs : List Entry)
    (last : Dict CpuSample)
    → (m : ProcessMetrics) × (d : Dict CpuSample) × (collect_process k station config_path now procs
          last
        ≡ some (m, d))
      × ((m.capture_alive ≡ true) ↔ (0 < m.capture_instances))
      × (m.capture_alive ≡ is_some m.main_pid)
      × (is_some (lookup station d) ≡ m.capture_alive)
      × ((other : String) → other ≢ station → lookup other d ≡ lookup other last)
unfolding collect_process measure
collect_process_alive k station config_path now procs last =
    let starts = roots k (k.realpath config_path) procs in
    let (tree, ends, _, exact) = capture_tree_exact procs starts in
    let alive = is_alive_iff procs starts tree exact in
    let r = measure k station now procs starts last tree in
    let (own, others) = sampled (is_alive tree) station _ last in
    (r.0, r.1, rw ends refl, alive, is_some-oldest_root k (is_alive tree) starts alive, own, others)
