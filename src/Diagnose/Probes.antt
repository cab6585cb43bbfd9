-- ===== src/Diagnose/Probes.antt =====
-- The heavy probes of cc_mqtt_monitor/diagnose.py. Which tools are installed, the newest segment, what ffprobe and ping
-- print, and what `int` and `float` read of a word are inputs; sizes are not negative.
pub mod Notes
use cc_rms_mqtt_monitor.Base.{
  ℕ, suc, ◌*◌, max, String, Bool, true, false, ◌&&◌, ◌||◌, not, Option, none, some, List, [], ◌∷◌,
  ◌==◌, if◌then◌else◌, codes, infix_of, has_char, has_suffix, strip, is_space, before, length, sum,
  tenths, ℤ, pos,
}
use Prim.Native.Char.{Char, code}
use Prim.Native.String
use mathlib.Core.Option
use cc_rms_mqtt_monitor.Health.Metrics.{StationMetrics}
use cc_rms_mqtt_monitor.Collect.Segments.{mbps}

-- `probe_keyframe`; sizes in thousandths of a kilobyte, the rate in thousandths of a megabit
pub record KeyframeProbe : Type 0 where
  pub peak_kb : Option ℕ
  pub mean_kb : Option ℕ
  pub stream_mbps : Option ℕ
  pub note : Option String

abbrev pub no_keyframe : String → KeyframeProbe
no_keyframe note = record { peak_kb = none; mean_kb = none; stream_mbps = none; note = some note }

-- the words that are integers
unfoldable pub sizes_of : (String → Option ℕ) → List String → List ℕ
sizes_of int [] = []
sizes_of int (t ∷ ts) = elim (int t) [ none ↦ sizes_of int ts | some n ↦ n ∷ sizes_of int ts ]

unfoldable pub greatest_size : ℕ → List ℕ → ℕ
greatest_size best [] = best
greatest_size best (n ∷ ns) = greatest_size (max best n) ns

-- the duration is in milliseconds
unfoldable pub measure_sizes : ℕ → List ℕ → KeyframeProbe
measure_sizes dur [] = no_keyframe "no frame sizes returned"
measure_sizes dur (n ∷ ns) = record {
  peak_kb = some (tenths (greatest_size n ns) 1000);
  mean_kb = some (tenths (sum (n ∷ ns)) (length (n ∷ ns) * 1000));
  stream_mbps = some (mbps (sum (n ∷ ns)) dur);
  note = none;
}

-- what ffprobe prints, none where it fails or takes too long
unfoldable pub probe_keyframe :
    (String → Option ℕ) → Bool → Option String → ℕ → Option (List String) → KeyframeProbe
probe_keyframe int false seg dur out = no_keyframe "ffprobe not installed"
probe_keyframe int true none dur out = no_keyframe "no video segment (raw_video_save off?)"
probe_keyframe int true (some seg) dur none = no_keyframe "ffprobe failed/timed out"
probe_keyframe int true (some seg) dur (some words) = measure_sizes dur (sizes_of int words)

-- `needle in line`
unfoldable pub is_in : String → String → Bool
is_in needle line = infix_of (codes needle) (codes line)

-- a character before the first word, or as a word of its own
unfoldable pub glue_char : Char → Bool → List String → List String
glue_char c true (w ∷ ws) = String.◌∷◌ c w ∷ ws
glue_char c true [] = String.◌∷◌ c "" ∷ []
glue_char c false ws = String.◌∷◌ c "" ∷ ws

unfoldable pub begins : (ℕ → Bool) → String → Bool
begins test String.[] = false
begins test (String.◌∷◌ c s) = test (code c)

-- the pieces between the characters of a kind, the empty ones left out
unfoldable pub split_at : (ℕ → Bool) → String → List String
split_at cut String.[] = []
split_at cut (String.◌∷◌ c s) =
    let rest = split_at cut s in
    if cut (code c) then rest else glue_char c (begins (λ d. not (cut d)) s) rest

-- `s.split(c)` for a character, the empty pieces kept
unfoldable pub pieces : ℕ → String → List String
pieces d String.[] = "" ∷ []
pieces d (String.◌∷◌ c s) =
    let rest = pieces d s in if code c == d then "" ∷ rest else glue_char c true rest

-- `tok[:-1]`
unfoldable pub drop_last : String → String
drop_last String.[] = String.[]
drop_last (String.◌∷◌ c String.[]) = String.[]
drop_last (String.◌∷◌ c s) = String.◌∷◌ c (drop_last s)

-- what follows the first "=", none where there is none
unfoldable pub after_equals_sign : String → Option String
after_equals_sign String.[] = none
after_equals_sign (String.◌∷◌ c s) =
    let rest = after_equals_sign s in if code c == b'=' then some s else rest

pub record PingProbe : Type 0 where
  pub loss_pct : Option ℤ
  pub rtt_avg_ms : Option ℤ
  pub rtt_max_ms : Option ℤ
  pub note : Option String

abbrev pub no_answer : Option String → PingProbe
no_answer note = record { loss_pct = none; rtt_avg_ms = none; rtt_max_ms = none; note = note }

-- `float(...)` where it is read, and what was there before where it raises
unfoldable pub read_or : Option ℤ → Option ℤ → Option ℤ
read_or old none = old
read_or old (some x) = some x

-- the first word that ends with "%"
unfoldable pub read_loss : (String → Option ℤ) → List String → Option ℤ → Option ℤ
read_loss float [] old = old
read_loss float (t ∷ ts) old =
    let later = read_loss float ts old in
    if has_suffix "%" t then read_or old (float (drop_last t)) else later

-- the second and the third of the numbers, as far as they are read
unfoldable pub read_stats : (String → Option ℤ) → List String → PingProbe → PingProbe
read_stats float (a ∷ b ∷ []) r = record r { rtt_avg_ms = read_or r.rtt_avg_ms (float b) }
read_stats float (a ∷ b ∷ c ∷ rest) r = elim (float b) [
  | none ↦ r
  | some avg ↦ record r { rtt_avg_ms = some avg; rtt_max_ms = read_or r.rtt_max_ms (float c) }
]
read_stats float stats r = r

-- `line.split("=", 1)[1].strip().split()[0].split("/")`
unfoldable pub stats_of : String → List String
stats_of line = elim (after_equals_sign line) [
  | none ↦ []
  | some rest ↦ elim (split_at is_space rest) [ [] ↦ [] | w ∷ ws ↦ pieces b'/' w ]
]

unfoldable pub is_gap : ℕ → Bool
is_gap c = c == b',' || is_space c

unfoldable pub read_line : (String → Option ℤ) → String → PingProbe → PingProbe
read_line float line r =
    let r' =
      if is_in "packet loss" line
      then record r { loss_pct = read_loss float (split_at is_gap line) r.loss_pct }
      else r in
    if is_in "/" line && (is_in "rtt" line || is_in "round-trip" line)
    then read_stats float (stats_of line) r'
    else r'

unfoldable pub read_lines : (String → Option ℤ) → List String → PingProbe → PingProbe
read_lines float [] r = r
read_lines float (l ∷ ls) r = read_lines float ls (read_line float l r)

-- the test after the loop
unfoldable pub note_unread : PingProbe → PingProbe
note_unread r = elim r.loss_pct [
  | some x ↦ r
  | none ↦ elim r.note [
    | some n ↦ r
    | none ↦ record r { note = some "could not parse ping output" }
  ]
]

-- what ping prints, none where it fails or takes too long
unfoldable pub probe_network :
    (String → Option ℤ) → Option String → Bool → Option (List String) → PingProbe
probe_network float none have out = no_answer (some "no camera host in device URL")
probe_network float (some host) false out = no_answer (some "ping not installed")
probe_network float (some host) true none = no_answer (some "ping failed/timed out")
probe_network float (some host) true (some lines) =
    note_unread (read_lines float lines (no_answer none))

-- `metrics.update(run_probe(…))`, of what is read later
unfoldable pub with_probe : KeyframeProbe → PingProbe → StationMetrics → StationMetrics
with_probe k p m = record m {
  probe_ping_loss_pct = p.loss_pct;
  probe_keyframe_peak_kb = Option.map pos k.peak_kb;
  probe_stream_mbps = Option.map pos k.stream_mbps;
  probe_ping_note = some p.note;
}
