-- ===== src/Base/Words.antt =====
-- The operations of Python's `str` that cut and clean a text.
use Prim.Native.Nat.{ℕ}
use Prim.Native.Char.{Char, code}
use Prim.Native.String.{String}
use mathlib.Core.Bool.{Bool, ◌&&◌, ◌||◌}
use mathlib.Core.Option.{Option, none, some}
use cc_rms_mqtt_monitor.Base.Tests.{leb, ◌==◌, if◌then◌else◌, str_eq}
use cc_rms_mqtt_monitor.Base.Paths.{has_char}

-- white space up to U+00FF
unfoldable pub is_space : ℕ → Bool
is_space c = (leb 9 c && leb c 13) || ((leb 28 c && leb c 32) || (c == 133 || c == 160))

unfoldable pub lstrip : String → String
lstrip String.[] = String.[]
lstrip (String.◌∷◌ c s) = let rest = lstrip s in if is_space (code c) then rest else String.◌∷◌ c s

unfoldable pub rstrip : String → String
rstrip String.[] = String.[]
rstrip (String.◌∷◌ c s) =
    let rest = rstrip s in if is_space (code c) && str_eq rest "" then "" else String.◌∷◌ c rest

-- `s.strip()`
unfoldable pub strip : String → String
unfolding lstrip rstrip
strip s = rstrip (lstrip s)

-- `s.split(c, 1)[0]`
unfoldable pub before : ℕ → String → String
before d String.[] = String.[]
before d (String.◌∷◌ c s) = let rest = before d s in if code c == d then "" else String.◌∷◌ c rest

-- `s.rsplit(c, 1)[1]` where there is a c, and s itself where there is none
unfoldable pub after_last : ℕ → String → String
after_last d String.[] = String.[]
after_last d (String.◌∷◌ c s) =
    let later = after_last d s in
    if has_char d s then later else if code c == d then s else String.◌∷◌ c s

-- `s.split("://", 1)[1]` where there is a "://"
unfoldable pub after_scheme : String → Option String
after_scheme String.[] = none
after_scheme (String.◌∷◌ c String.[]) = none
after_scheme (String.◌∷◌ c (String.◌∷◌ d String.[])) = none
after_scheme (String.◌∷◌ c (String.◌∷◌ d (String.◌∷◌ e s))) =
    let later = after_scheme (String.◌∷◌ d (String.◌∷◌ e s)) in
    if code c == b':' && (code d == b'/' && code e == b'/') then some s else later

-- the letter of the second text at the place of c in the first
unfoldable pub exchange : String → String → Char → Char
exchange String.[] ts c = c
exchange (String.◌∷◌ f fs) String.[] c = c
exchange (String.◌∷◌ f fs) (String.◌∷◌ t ts) c =
    let rest = exchange fs ts c in if code c == code f then t else rest

-- `s.lower()` on ASCII
unfoldable pub lower_text : String → String
unfolding exchange
lower_text String.[] = String.[]
lower_text (String.◌∷◌ c s) =
    String.◌∷◌ (exchange "ABCDEFGHIJKLMNOPQRSTUVWXYZ" "abcdefghijklmnopqrstuvwxyz" c) (lower_text s)
