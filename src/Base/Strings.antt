-- ===== src/Base/Strings.antt =====
-- `needle in text.lower()`, over the code points of a text.
use Prim.Native.Nat.{ℕ, ◌+◌}
use Prim.Native.Char.{code}
use Prim.Native.String.{String}
use mathlib.Core.Bool.{Bool, true, false, ◌&&◌, ◌||◌}
use mathlib.Core.List.{List, [], ◌∷◌, map}
use cc_rms_mqtt_monitor.Base.Tests.{leb, ◌==◌, if◌then◌else◌}

unfoldable pub codes : String → List ℕ
codes String.[] = []
codes (String.◌∷◌ c s) = code c ∷ codes s

-- the letters A to Z
unfoldable pub lower : ℕ → ℕ
lower c = if leb b'A' c && leb c b'Z' then c + 32 else c

unfoldable pub starts_with : List ℕ → List ℕ → Bool
starts_with [] s = true
starts_with (c ∷ p) [] = false
starts_with (c ∷ p) (d ∷ s) = c == d && starts_with p s

unfoldable pub infix_of : List ℕ → List ℕ → Bool
unfolding starts_with
infix_of p [] = starts_with p []
infix_of p (c ∷ s) = starts_with p (c ∷ s) || infix_of p s

-- `needle in text.lower()`
unfoldable pub contains_text : String → String → Bool
unfolding codes lower infix_of
contains_text needle text = infix_of (codes needle) (map lower (codes text))
