-- ===== src/Monitor/Slug.antt =====
-- `_slug` of cc_mqtt_monitor/monitor.py: the handle of a group, over the code points of its name.
pub mod Words
use cc_rms_mqtt_monitor.Base.{
  ℕ, ◌≡◌, ◌⊎◌, inl, inr, Bool-cases, refl, ap, sym, ◌∙◌, Bool, true, false, not, ◌&&◌, ◌||◌, Option,
  none, some, List, [], ◌∷◌, ◌++◌, leb, ◌==◌, if◌then◌else◌, arith,
}

-- `[A-Za-z0-9]`
unfoldable pub is_alnum : ℕ → Bool
is_alnum c =
    (leb b'a' c && leb c b'z') || ((leb b'A' c && leb c b'Z') || (leb b'0' c && leb c b'9'))

-- `re.sub(r"[^A-Za-z0-9]+", "-", name)`, in a run of other characters or not
unfoldable pub collapse : Bool → List ℕ → List ℕ
collapse run [] = []
collapse run (c ∷ s) =
    let word = collapse false s in
    let gap = collapse true s in if is_alnum c then c ∷ word else if run then gap else b'-' ∷ gap

unfoldable pub lstrip_dash : List ℕ → List ℕ
lstrip_dash [] = []
lstrip_dash (c ∷ s) = let rest = lstrip_dash s in if c == b'-' then rest else c ∷ s

unfoldable pub is_nil : List ℕ → Bool
is_nil [] = true
is_nil (c ∷ s) = false

unfoldable pub rstrip_dash : List ℕ → List ℕ
rstrip_dash [] = []
rstrip_dash (c ∷ s) = let rest = rstrip_dash s in if c == b'-' && is_nil rest then [] else c ∷ rest

-- `s or None`
unfoldable pub or_none : List ℕ → Option (List ℕ)
or_none [] = none
or_none (c ∷ s) = some (c ∷ s)

unfoldable pub slug : Option (List ℕ) → Option (List ℕ)
slug none = none
slug (some []) = none
slug (some (c ∷ s)) = or_none (lstrip_dash (rstrip_dash (collapse false (c ∷ s))))

-- whether a text starts with a letter or a digit
unfoldable pub starts_word : List ℕ → Bool
starts_word [] = false
starts_word (c ∷ s) = is_alnum c

-- one more character, before the first word or as a word of its own
unfoldable pub glue : ℕ → Bool → List (List ℕ) → List (List ℕ)
glue c true (w ∷ ws) = (c ∷ w) ∷ ws
glue c true [] = (c ∷ []) ∷ []
glue c false ws = (c ∷ []) ∷ ws

-- the words of a text: its longest runs of letters and digits
unfoldable pub words : List ℕ → List (List ℕ)
words [] = []
words (c ∷ s) = let rest = words s in if is_alnum c then glue c (starts_word s) rest else rest

-- the words with a dash between each two
unfoldable pub joined : List (List ℕ) → List ℕ
joined [] = []
joined (w ∷ []) = w
joined (w ∷ v ∷ ws) = w ++ b'-' ∷ joined (v ∷ ws)

unfoldable pub words_of : Option (List ℕ) → List (List ℕ)
words_of none = []
words_of (some s) = words s
