-- ===== src/Base/Messages.antt =====
-- Message texts: a format string with the values that it is given, not yet rendered.
use Prim.Native.Nat.{ℕ}
use Prim.Native.String.{String}
use cc_rms_mqtt_monitor.Base.Int.{ℤ}

mutual
  pub data Text : Type 0 where
    str : String → Text
    int : ℕ → Text
    num : ℤ → Text
    -- `fmt % args`
    fmt : String → Args → Text
    -- `sep.join(args)`
    join : String → Args → Text
    -- `a + b`
    cat : Text → Text → Text

  pub data Args : Type 0 where
    nil : Args
    arg : Text → Args → Args

abbrev pub one : Text → Args
one a = arg a nil

abbrev pub two : Text → Text → Args
two a b = arg a (arg b nil)

-- appends to the list that is to be joined
unfoldable pub push : Args → Text → Args
push nil b = arg b nil
push (arg a as') b = arg a (push as' b)
