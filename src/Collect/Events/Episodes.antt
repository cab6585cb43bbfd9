-- ===== src/Collect/Events/Episodes.antt =====
-- The processing episodes of `collect_capture_events` in cc_mqtt_monitor/collect.py.
use cc_rms_mqtt_monitor.Base.{
  ℕ, ◌≡◌, ◌⊎◌, ◌↔◌, inl, inr, ⊎_elim, refl, String, Bool, true, false, not, ◌&&◌, ◌||◌, List, [],
  ◌∷◌, arith, if◌then◌else◌, is_some, any,
}
use cc_rms_mqtt_monitor.Collect.Events.{
  Patterns, Scan, no_scan, scan_numbers, scan_capture, scan_line, scan_log, events_of,
}

-- a line that closes an episode, and one that opens it
abbrev pub ends_episode : Patterns → String → Bool
ends_episode p line = not (p.transition line) && p.proc_end line

abbrev pub starts_episode : Patterns → String → Bool
starts_episode p line =
    not (p.transition line)
    && not (p.proc_end line)
    && (is_some (p.proc_reprocess_start line) || p.proc_dawn_start line)

-- Some line opens an episode and none after it closes one.
pub data Unclosed (p : Patterns) : List String → Type 0 where
  here :
      {line : String} {lines : List String}
      → starts_episode p line ≡ true
      → any (ends_episode p) lines ≡ false
      → Unclosed p (line ∷ lines)
  there : {line : String} {lines : List String} → Unclosed p lines → Unclosed p (line ∷ lines)

line_episode :
    (p : Patterns) (line : String) (s : Scan)
    → is_some (scan_line p line s).proc ≡ (
        if starts_episode p line
        then true
        else if ends_episode p line
        then false
        else is_some s.proc)
unfolding scan_line scan_capture scan_numbers
line_episode p line s = ground arith

Unclosed-cons :
    (p : Patterns) (line : String) (lines : List String)
    → Unclosed p (line ∷ lines)
      ↔ ((starts_episode p line ≡ true) × (any (ends_episode p) lines ≡ false) ⊎ Unclosed p lines)
Unclosed-cons p line lines = (split, λ u. elim u [ inl (s, e) ↦ here s e | inr u ↦ there u ])
  where
    split :
        Unclosed p (line ∷ lines)
        → (starts_episode p line ≡ true) × (any (ends_episode p) lines ≡ false) ⊎ Unclosed p lines
    split (here s e) = inl (s, e)
    split (there u) = inr u

scan_episode :
    (p : Patterns) (lines : List String) (s : Scan)
    → (is_some (scan_log p lines s).proc ≡ true)
      ↔ (Unclosed p lines ⊎ (is_some s.proc ≡ true) × (any (ends_episode p) lines ≡ false))
unfolding scan_log any
scan_episode p [] s = (λ h. inr (h, refl), ⊎_elim (λ u. elim u [ ]) (λ r. r.0))
scan_episode p (line ∷ lines) s = ground (
  arith,
  scan_episode p lines (scan_line p line s),
  line_episode p line s,
  Unclosed-cons p line lines,
)

-- A processing run is taken to be underway exactly where some line of the log opens an episode and
-- no line after it closes one.
pub processing_iff :
    (p : Patterns) (now : ℕ) (history : List ℕ) (lines : List String)
    → ((events_of now history (scan_log p lines no_scan)).processing_active ≡ true)
      ↔ Unclosed p lines
unfolding events_of
processing_iff p now history lines = ground (arith, scan_episode p lines no_scan)
