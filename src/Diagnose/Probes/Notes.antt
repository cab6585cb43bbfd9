-- ===== src/Diagnose/Probes/Notes.antt =====
-- What the probes of cc_mqtt_monitor/diagnose.py tell: numbers, or a note of why there are none.
use native.Mathlib.Nat.{mul-div-le, lt_of_mul-lt-mul_left}
use cc_rms_mqtt_monitor.Base.{
  ℕ, suc, ◌+◌, ◌*◌, ◌/◌, ◌≤◌, ◌≡◌, ◌⊎◌, inl, inr, refl, ◌∙◌, max, String, Bool, true, false, not,
  Option, none, some, List, [], ◌∷◌, is_some, arith, length, sum, tenths, ℤ,
}
use cc_rms_mqtt_monitor.Diagnose.Probes.{
  KeyframeProbe, greatest_size, measure_sizes, sizes_of, probe_keyframe, PingProbe, no_answer,
  read_stats, read_line, read_lines, stats_of, note_unread, probe_network,
}

-- The probe tells a peak, a mean that is no greater, and a rate; or a note alone.
abbrev pub IsTold : KeyframeProbe → Type 0
IsTold k =
    ((peak : ℕ) × (mean : ℕ) × (rate : ℕ) × (k.peak_kb ≡ some peak)
      × (k.mean_kb ≡ some mean)
      × (k.stream_mbps ≡ some rate)
      × (k.note ≡ none)
      × (mean ≤ peak))
    ⊎ ((why : String) × (k.note ≡ some why)
        × (k.peak_kb ≡ none)
        × (k.mean_kb ≡ none)
        × (k.stream_mbps ≡ none))

sum-le-greatest :
    (best : ℕ) (ns : List ℕ)
    → (sum ns ≤ length ns * greatest_size best ns) × (best ≤ greatest_size best ns)
unfolding sum greatest_size
sum-le-greatest best [] = (omega arith, omega arith)
sum-le-greatest best (n ∷ ns) =
    let (all, top) = sum-le-greatest (max best n) ns in
    (omega (arith, all, top), omega (arith, top))

tenths_mean :
    (n total best : ℕ) → total ≤ suc n * best → tenths total (suc n * 1000) ≤ tenths best 1000
unfolding tenths
tenths_mean n total best le =
    let q = (20 * total + suc n * 1000) / (2 * (suc n * 1000)) in
    let small = mul-div-le (20 * total + suc n * 1000) (2 * (suc n * 1000)) in
    let below =
      lt_of_mul-lt-mul_left (suc n) {m = 2000 * q} {n = 20 * best + 1001}
        (omega (arith, small, le)) in
    omega (arith, below)

measure_sizes-IsTold : (dur : ℕ) (ns : List ℕ) → IsTold (measure_sizes dur ns)
unfolding measure_sizes sum
measure_sizes-IsTold dur [] = inr (_, refl, refl, refl, refl)
measure_sizes-IsTold dur (n ∷ ns) =
    let (all, top) = sum-le-greatest n ns in
    inl (
      _,
      _,
      _,
      refl,
      refl,
      refl,
      refl,
      tenths_mean (length ns) (sum (n ∷ ns)) (greatest_size n ns) (omega (arith, all, top)),
    )

probe_keyframe-IsTold :
    (int : String → Option ℕ) (have : Bool) (seg : Option String) (dur : ℕ)
    (out : Option (List String))
    → IsTold (probe_keyframe int have seg dur out)
unfolding probe_keyframe
probe_keyframe-IsTold int false seg dur out = inr (_, refl, refl, refl, refl)
probe_keyframe-IsTold int true none dur out = inr (_, refl, refl, refl, refl)
probe_keyframe-IsTold int true (some seg) dur none = inr (_, refl, refl, refl, refl)
probe_keyframe-IsTold int true (some seg) dur (some words) =
    measure_sizes-IsTold dur (sizes_of int words)

read_stats-note :
    (float : String → Option ℤ) (stats : List String) (r : PingProbe)
    → (read_stats float stats r).note ≡ r.note
unfolding read_stats
read_stats-note float [] r = refl
read_stats-note float (a ∷ []) r = refl
read_stats-note float (a ∷ b ∷ []) r = refl
read_stats-note float (a ∷ b ∷ c ∷ rest) r = ground arith

read_line-note :
    (float : String → Option ℤ) (line : String) (r : PingProbe)
    → (read_line float line r).note ≡ r.note
unfolding read_line
read_line-note float line r = grind (arith, read_stats-note float (stats_of line))

read_lines-note :
    (float : String → Option ℤ) (lines : List String) (r : PingProbe)
    → (read_lines float lines r).note ≡ r.note
unfolding read_lines
read_lines-note float [] r = refl
read_lines-note float (l ∷ ls) r =
    read_lines-note float ls (read_line float l r) ∙ read_line-note float l r

note_unread-note :
    (r : PingProbe)
    → r.note ≡ none
    → is_some (note_unread r).note ≡ not (is_some (note_unread r).loss_pct)
unfolding note_unread
note_unread-note r h = ground (arith, h)

probe_network_noted :
    (float : String → Option ℤ) (host : Option String) (have : Bool) (out : Option (List String))
    → is_some (probe_network float host have out).note
      ≡ not (is_some (probe_network float host have out).loss_pct)
unfolding probe_network
probe_network_noted float none have out = refl
probe_network_noted float (some host) false out = refl
probe_network_noted float (some host) true none = refl
probe_network_noted float (some host) true (some lines) =
    let r = read_lines float lines (no_answer none) in
    note_unread-note r (read_lines-note float lines (no_answer none))

-- Whatever ffprobe and ping do, the probe of the key frames gives a peak, a mean that is no greater and
-- a rate, or else a note alone; and that of the network gives a note exactly where it gives no loss.
pub probes-IsTold :
    (int : String → Option ℕ) (float : String → Option ℤ) (have_ffprobe have_ping : Bool)
    (seg host : Option String) (dur : ℕ) (frames lines : Option (List String))
    → IsTold (probe_keyframe int have_ffprobe seg dur frames)
      × (is_some (probe_network float host have_ping lines).note
          ≡ not (is_some (probe_network float host have_ping lines).loss_pct))
probes-IsTold int float have_ffprobe have_ping seg host dur frames lines = (
  probe_keyframe-IsTold int have_ffprobe seg dur frames,
  probe_network_noted float host have_ping lines,
)
