-- ===== src/Health/Reading.antt =====
-- Reading and printing values, as the checks of cc_mqtt_monitor/health.py do.
use cc_rms_mqtt_monitor.Base.{
  ℕ, zero, ◌/◌, ◌%◌, pos, negsuc, String, Bool, true, false, Option, none, some, ℤ, if◌then◌else◌,
  str_eq, some_and, ltb, Text, str, int, num, fmt, one, two,
}
use cc_rms_mqtt_monitor.Config.{Value}

-- a value in a message
pub opt : Option ℤ → Text
opt none = str "None"
opt (some z) = num z

-- `x or "see log"`
pub text_or : Option String → String → Text
text_or none d = str d
text_or (some s) d = if str_eq s "" then str d else str s

unfoldable pub is_false : Option Bool → Bool
is_false (some false) = true
is_false _ = false

-- `metrics.get(k) == s`
unfoldable pub equals : Option String → String → Bool
equals o s = some_and o (λ t. str_eq t s)

-- `a or b`, where 0 counts as absent
unfoldable pub num_or : Option ℤ → Option ℤ → Option ℤ
num_or none b = b
num_or (some (pos zero)) b = b
num_or (some a) b = some a

fmt_secs : ℕ → Text
fmt_secs secs =
    if ltb secs 60
    then fmt "%ds" (one (int secs))
    else if ltb secs 3600
    then fmt "%dm" (one (int (secs / 60)))
    else fmt "%dh %dm" (two (int (secs / 3600)) (int (secs % 3600 / 60)))

-- `_fmt_dur` of a float; a time before the clock's start prints as its seconds
unfoldable pub fmt_dur : Option ℤ → Text
unfolding fmt_secs
fmt_dur none = str "a while"
fmt_dur (some (pos n)) = fmt_secs (n / 1000)
fmt_dur (some (negsuc n)) = fmt "%ds" (one (num (negsuc n)))

-- `str(value).lower() == "false"`
unfoldable pub says_false : Value → Bool
says_false (Value.boolean false) = true
says_false (Value.word s) = str_eq s "false"
says_false _ = false
