-- ===== src/Tests/Collected.antt =====
-- The collectors of a station, on concrete inputs.
use cc_rms_mqtt_monitor.Base.{
  ℕ, ◌+◌, ◌≡◌, ◌↔◌, inl, refl, true, none, some, List, [], ◌∷◌, mem, Distinct, length, All, any,
  map, filter, push_all,
}
use cc_rms_mqtt_monitor.Collect.Process.{Entry, Kernel, walk, children, pids_of, capture_tree}
use cc_rms_mqtt_monitor.Collect.Process.Tree.{Descends, capture_tree_exact}
use cc_rms_mqtt_monitor.Collect.Process.Roots.{Blinder}
use cc_rms_mqtt_monitor.Collect.Disconnects.{
  Drop, match_history, spread, decide, is_near, distance, is_repeat, verdicts, count_scheduled,
  classify_disconnects,
}
use cc_rms_mqtt_monitor.Collect.Disconnects.Bursts.{
  Linked, NearRepeat, Closed, classify_disconnects-Linked,
}

-- a launcher, a capture with a worker that does not carry the marker, and a cycle of parents
abbrev table : List Entry
table =
    record { pid = 10; args = "bash" ∷ "RMS_StartCapture.sh" ∷ []; ppid = 1; rss = 900 }
    ∷ record {
      pid = 11;
      args = "python" ∷ "-m" ∷ "RMS.StartCapture" ∷ "-c" ∷ "/home/rms/.config" ∷ [];
      ppid = 10;
      rss = 700000;
    }
    ∷ record { pid = 12; args = "forkserver" ∷ []; ppid = 11; rss = 50000 }
    ∷ record { pid = 20; args = "a" ∷ []; ppid = 21; rss = 10 }
    ∷ record { pid = 21; args = "b" ∷ []; ppid = 20; rss = 10 }
    ∷ []

abbrev kernel : Kernel
kernel = record {
  cwd = λ _. some "/home/rms";
  realpath = λ path. path;
  proc_age_s = λ _. none;
  pss_kb = λ _. none;
  jiffies = λ _. 0;
  clk_tck = 100;
}

-- the same where no working directory can be read
abbrev blind : Kernel
blind = record kernel { cwd = λ _. none }

abbrev blinder : Blinder kernel blind
blinder = record { same_realpath = refl; reads = λ pid. inl refl }

capture_tree_exact_example :
    (tree : List ℕ) × (capture_tree table (11 ∷ 20 ∷ []) ≡ some tree)
    × Distinct tree
    × ((pid : ℕ) → (mem pid tree ≡ true) ↔ Descends table (11 ∷ 20 ∷ []) pid)
capture_tree_exact_example = capture_tree_exact table (11 ∷ 20 ∷ [])

-- a drop at the time of one of the day before, one two minutes later, and one by itself
abbrev session : List ℕ
session = 186400000 ∷ 186520000 ∷ 200000000 ∷ []

abbrev history : List ℕ
history = 100000000 ∷ []

classify_disconnects-Linked_example :
    let ds = verdicts session history in
    (map (λ (d : Drop). d.time) ds ≡ push_all session [])
    × All (λ (d : Drop). d.scheduled ≡ true → Linked session history d.time) ds
    × All (NearRepeat session history) ds
    × Closed ds
    × (count_scheduled ds ≡ (classify_disconnects session history).0)
    × ((classify_disconnects session history).0 + (classify_disconnects session history).1
        ≡ length session)
classify_disconnects-Linked_example = classify_disconnects-Linked session history

capture_tree_runs : capture_tree table (11 ∷ 20 ∷ []) ≡ some (12 ∷ 11 ∷ 21 ∷ 20 ∷ [])
unfolding capture_tree walk children pids_of filter push_all mem
capture_tree_runs = refl

-- a chain of drops that follows a scheduled one is scheduled to its end, one that leads to it is not
chain_forward : classify_disconnects (187480000 ∷ 187960000 ∷ 188440000 ∷ []) history ≡ (3, 0)
unfolding classify_disconnects verdicts match_history spread decide is_near count_scheduled distance
    is_repeat any
chain_forward = refl

chain_backward : classify_disconnects (184360000 ∷ 184840000 ∷ 185320000 ∷ []) history ≡ (2, 1)
unfolding classify_disconnects verdicts match_history spread decide is_near count_scheduled distance
    is_repeat any
chain_backward = refl
