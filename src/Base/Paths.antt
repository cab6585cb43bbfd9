-- ===== src/Base/Paths.antt =====
-- Texts and paths, as Python's `str` and `os.path` (on POSIX) treat them.
use Prim.Native.Nat.{ℕ}
use Prim.Native.Char.{code}
use Prim.Native.String.{String}
use mathlib.Core.Bool.{Bool, false, ◌&&◌, ◌||◌}
use cc_rms_mqtt_monitor.Base.Tests.{◌==◌, if◌then◌else◌, str_eq}
use cc_rms_mqtt_monitor.Base.Strings.{codes, starts_with}

-- `a.startswith(p)`
unfoldable pub has_prefix : String → String → Bool
has_prefix p a = starts_with (codes p) (codes a)

-- `a.split("=", 1)[1]` where there is a "="
unfoldable pub after_equals : String → String
after_equals String.[] = ""
after_equals (String.◌∷◌ c s) = if code c == b'=' then s else after_equals s

-- `a + b` on texts
unfoldable pub append : String → String → String
append String.[] b = b
append (String.◌∷◌ c a) b = String.◌∷◌ c (append a b)

unfoldable pub ends_with_slash : String → Bool
ends_with_slash String.[] = false
ends_with_slash (String.◌∷◌ c String.[]) = code c == b'/'
ends_with_slash (String.◌∷◌ c s) = ends_with_slash s

-- `os.path.isabs`
unfoldable pub is_abs : String → Bool
unfolding has_prefix
is_abs = has_prefix "/"

-- `os.path.join`
unfoldable pub join_path : String → String → String
join_path a b =
    if is_abs b
    then b
    else if str_eq a "" || ends_with_slash a
    then append a b
    else append a (append "/" b)

-- `s.rstrip("/")`
unfoldable pub rstrip_slash : String → String
rstrip_slash String.[] = String.[]
rstrip_slash (String.◌∷◌ c s) =
    let rest = rstrip_slash s in if code c == b'/' && str_eq rest "" then "" else String.◌∷◌ c rest

unfoldable pub has_char : ℕ → String → Bool
has_char d String.[] = false
has_char d (String.◌∷◌ c s) = code c == d || has_char d s

-- `os.path.basename`: what follows the last "/"
unfoldable pub basename : String → String
basename String.[] = ""
basename (String.◌∷◌ c s) =
    let later = basename s in
    if has_char b'/' s then later else if code c == b'/' then s else String.◌∷◌ c s

-- `s.endswith(e)` for a text of code points
unfoldable pub has_suffix : String → String → Bool
has_suffix e String.[] = str_eq e ""
has_suffix e (String.◌∷◌ c s) = str_eq e (String.◌∷◌ c s) || has_suffix e s
