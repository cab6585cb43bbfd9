-- ===== src/Sanitize/Matching.antt =====
-- The regular expressions that cc_mqtt_monitor/sanitize.py uses of Python's `re`: where a match can
-- end, in the order in which `re` tries.
use cc_rms_mqtt_monitor.Base.{
  ℕ, zero, suc, Bool, false, not, Option, none, some, List, [], ◌∷◌, ◌++◌, ◌==◌, if◌then◌else◌,
  length,
}

-- a place in a text: the character before it and what follows
pub record Place : Type 0 where
  pub before : Option ℕ
  pub rest : List ℕ

-- `many` is greedy; a boundary is given the characters of words
pub data Regex : Type 0 where
  one : (ℕ → Bool) → Regex
  empty : Regex
  seq : Regex → Regex → Regex
  alt : Regex → Regex → Regex
  many : Regex → Regex
  boundary : (ℕ → Bool) → Regex

unfoldable pub take_one : (ℕ → Bool) → List ℕ → List Place
take_one test [] = []
take_one test (c ∷ s) = if test c then record { before = some c; rest = s } ∷ [] else []

unfoldable pub each : (Place → List Place) → List Place → List Place
each f [] = []
each f (p ∷ ps) = f p ++ each f ps

-- as often as possible first; every round takes a character
unfoldable pub repeat : (Place → List Place) → ℕ → Place → List Place
repeat f zero p = p ∷ []
repeat f (suc n) p = each (repeat f n) (f p) ++ (p ∷ [])

unfoldable pub is_word_before : (ℕ → Bool) → Option ℕ → Bool
is_word_before word none = false
is_word_before word (some c) = word c

unfoldable pub is_word_next : (ℕ → Bool) → List ℕ → Bool
is_word_next word [] = false
is_word_next word (c ∷ s) = word c

-- `\b`
unfoldable pub is_boundary : (ℕ → Bool) → Place → Bool
is_boundary word p =
    if is_word_before word p.before
    then not (is_word_next word p.rest)
    else is_word_next word p.rest

unfoldable pub ends : Regex → Place → List Place
ends (one test) p = take_one test p.rest
ends empty p = p ∷ []
ends (seq r s) p = each (ends s) (ends r p)
ends (alt r s) p = ends r p ++ ends s p
ends (many r) p = repeat (ends r) (length p.rest) p
ends (boundary word) p = if is_boundary word p then p ∷ [] else []

unfoldable pub literal : List ℕ → Regex
literal [] = empty
literal (c ∷ cs) = seq (one (λ d. d == c)) (literal cs)

-- `r+`, `r?`, `r{1,3}`
unfoldable pub at_least_one : Regex → Regex
at_least_one r = seq r (many r)

unfoldable pub optional : Regex → Regex
optional r = alt r empty

unfoldable pub up_to_3 : Regex → Regex
up_to_3 r = seq r (optional (seq r (optional r)))
