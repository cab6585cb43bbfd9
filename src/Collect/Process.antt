-- ===== src/Collect/Process.antt =====
-- `collect_process` of cc_mqtt_monitor/collect.py: the processes of a station's capture.
-- /proc, as `_iter_proc` lists it, is a list of entries; the links of /proc, `realpath` and the
-- counters of a single process are inputs. Clocks are in milliseconds.
pub mod Tree
pub mod Roots
pub mod Alive
use mathlib.Core.Option
use cc_rms_mqtt_monitor.Base.{
  ℕ, zero, suc, ◌+◌, ◌-◌, ◌*◌, ◌/◌, String, Bool, true, false, not, ◌&&◌, ◌||◌, Option, none, some,
  List, [], ◌∷◌, map, ltb, leb, ◌==◌, if◌then◌else◌, or_else, str_eq, is_some, some_and, ℤ, pos,
  ltb_ℤ, Dict, lookup, insert, erase, codes, has_prefix, after_equals, is_abs, join_path, infix_of,
  length, filter, any, push_all, mem, sum, tenths,
}
use cc_rms_mqtt_monitor.Collect.Cmdline.{config_arg, or_default}

-- what `_iter_proc` yields of a process; `rss` is in kilobytes
pub record Entry : Type 0 where
  pub pid : ℕ
  pub args : List String
  pub ppid : ℕ
  pub rss : ℕ

-- `os.readlink` of a process's working directory, `os.path.realpath`, and the age, the proportional
-- set size and the processor time of a process
pub record Kernel : Type 0 where
  pub cwd : ℕ → Option String
  pub realpath : String → String
  pub proc_age_s : ℕ → Option ℤ
  pub pss_kb : ℕ → Option ℕ
  pub jiffies : ℕ → ℕ
  pub clk_tck : ℕ

unfoldable pub in_cwd : Kernel → Option String → String → Option String
in_cwd k none c = none
in_cwd k (some d) c = some (k.realpath (join_path d c))

unfoldable pub process_config_path : Kernel → ℕ → List String → Option String
process_config_path k pid args =
    let cfg = config_arg args in
    if some_and cfg is_abs
    then some (k.realpath (or_default cfg))
    else in_cwd k (k.cwd pid) (or_default cfg)

abbrev pub startcapture_marker : String
startcapture_marker = "RMS.StartCapture"

-- `any(_STARTCAPTURE_MARKER in a for a in args)`
unfoldable pub is_marked : Entry → Bool
is_marked e = any (λ a. infix_of (codes startcapture_marker) (codes a)) e.args

-- whether the process carries the station's own configuration
unfoldable pub is_ours : Kernel → String → Entry → Bool
is_ours k target e =
    is_marked e && some_and (process_config_path k e.pid e.args) (λ path. str_eq path target)

unfoldable pub pids_of : List Entry → List ℕ
pids_of = map (λ (e : Entry). e.pid)

unfoldable pub cmd_pids : Kernel → String → List Entry → List ℕ
cmd_pids k target procs = pids_of (filter (is_ours k target) procs)

unfoldable pub marker_pids : List Entry → List ℕ
marker_pids procs = pids_of (filter is_marked procs)

unfoldable pub roots : Kernel → String → List Entry → List ℕ
roots k target procs = pids_of (
    filter
      (λ (e : Entry). mem e.pid (cmd_pids k target procs) && not (mem e.ppid (marker_pids procs)))
      procs)

-- `(age is not None, age or 0) < (best is not None, best or 0)`
unfoldable pub is_younger : Option ℤ → Option ℤ → Bool
is_younger none none = false
is_younger none (some b) = true
is_younger (some a) none = false
is_younger (some a) (some b) = ltb_ℤ a b

-- the first of the pids with the greatest age
unfoldable pub oldest : Kernel → ℕ → List ℕ → ℕ
oldest k best [] = best
oldest k best (p ∷ ps) =
    oldest k (if is_younger (k.proc_age_s best) (k.proc_age_s p) then p else best) ps

unfoldable pub oldest_root : Kernel → List ℕ → Option ℕ
oldest_root k [] = none
oldest_root k (p ∷ ps) = some (oldest k p ps)

-- `children.get(pid, [])`
unfoldable pub children : List Entry → ℕ → List ℕ
children procs pid = pids_of (filter (λ (e : Entry). e.ppid == pid) procs)

-- The `while` loop: the top of the stack is the head of the list.
unfoldable pub walk : List Entry → ℕ → List ℕ → List ℕ → Option (List ℕ)
walk procs fuel tree [] = some tree
walk procs zero tree (p ∷ stack) = none
walk procs (suc fuel) tree (p ∷ stack) = elim (mem p tree) [
  | true ↦ walk procs fuel tree stack
  | false ↦ walk procs fuel (p ∷ tree) (push_all (children procs p) stack)
]

-- The union of the trees under the roots. Every process is pushed once at most as a child.
unfoldable pub capture_tree : List Entry → List ℕ → Option (List ℕ)
capture_tree procs starts = walk procs (length starts + length procs) [] (push_all starts [])

-- those that are not None
unfoldable pub present : List (Option ℕ) → List ℕ
present [] = []
present (none ∷ os) = present os
present (some n ∷ os) = n ∷ present os

-- `rss.get(p, 0)`: the last entry of a pid counts
unfoldable pub rss_of : List Entry → ℕ → ℕ → ℕ
rss_of [] found p = found
rss_of (e ∷ es) found p = rss_of es (if e.pid == p then e.rss else found) p

-- an entry of `_PROC_CPU_LAST`
pub record CpuSample : Type 0 where
  pub jiffies : ℕ
  pub mono : ℕ

-- the part of `cpu_pct` behind its guards
unfoldable pub cpu_pct : Kernel → ℕ → ℕ → Option CpuSample → Option ℕ
cpu_pct k now total none = none
cpu_pct k now total (some last) =
    if ltb last.mono now && leb last.jiffies total
    then some (tenths ((total - last.jiffies) * 100000) (k.clk_tck * (now - last.mono)))
    else none

-- The floats are in thousandths.
pub record ProcessMetrics : Type 0 where
  pub capture_alive : Bool
  pub process_count : ℕ
  pub capture_instances : ℕ
  pub main_pid : Option ℕ
  pub capture_age_s : Option ℤ
  pub total_rss_mb : ℕ
  pub total_pss_mb : Option ℕ
  pub capture_cpu_pct : Option ℕ

unfoldable pub age_of : Kernel → Option ℕ → Option ℤ
age_of k none = none
age_of k (some p) = k.proc_age_s p

unfoldable pub pss_mb : List ℕ → Option ℕ
pss_mb [] = none
pss_mb (n ∷ ns) = some (tenths (sum (n ∷ ns)) 1024)

unfoldable pub is_alive : List ℕ → Bool
is_alive [] = false
is_alive (p ∷ tree) = true

-- what is made of the tree, and `_PROC_CPU_LAST` afterwards
unfoldable pub measure :
    Kernel
    → String
    → ℕ
    → List Entry
    → List ℕ
    → Dict CpuSample
    → List ℕ
    → ProcessMetrics × Dict CpuSample
measure k station now procs starts last tree =
    let total = sum (map k.jiffies tree) in
    let main = oldest_root k starts in
    (
      record {
        capture_alive = is_alive tree;
        process_count = length tree;
        capture_instances = length starts;
        main_pid = main;
        capture_age_s = age_of k main;
        total_rss_mb = tenths (sum (map (rss_of procs 0) tree)) 1024;
        total_pss_mb = pss_mb (present (map k.pss_kb tree));
        capture_cpu_pct = if is_alive tree then cpu_pct k now total (lookup station last) else none;
      },
      if is_alive tree
          then insert station (record { jiffies = total; mono = now }) last
          else erase station last,
    )

-- `collect_process` for the station and its `.config` path
unfoldable pub collect_process :
    Kernel
    → String
    → String
    → ℕ
    → List Entry
    → Dict CpuSample
    → Option (ProcessMetrics × Dict CpuSample)
collect_process k station config_path now procs last =
    let starts = roots k (k.realpath config_path) procs in
    Option.map (measure k station now procs starts last) (capture_tree procs starts)
