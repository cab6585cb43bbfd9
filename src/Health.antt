-- ===== src/Health.antt =====
-- The verdict of cc_mqtt_monitor/health.py: status levels, `_worse`, and the `flag` of `_flagger`.
-- A check reads the disabled keys and changes the verdict; `c >> d` runs one check after another.
pub mod Metrics
pub mod Findings
pub mod Reports
pub mod Reading
pub mod Stall
pub mod Drops
pub mod Station
pub mod Quality
pub mod Evaluate
pub mod Links
pub mod Host
pub mod State
pub mod Policy
pub mod RootCause
pub mod HostTiers
use cc_rms_mqtt_monitor.Base.{
  ℕ, String, Bool, true, false, List, [], ◌∷◌, ◌++◌, leb, if◌then◌else◌, contains, Text, Option,
  none, some,
}

pub data Status : Type 0 where
  ok degraded error : Status

unfoldable pub rank : Status → ℕ
rank ok = 0
rank degraded = 1
rank error = 2

unfoldable pub worse : Status → Status → Status
unfolding rank
worse a b = if leb (rank b) (rank a) then a else b

pub record Verdict : Type 0 where
  pub status : Status
  pub problems : List Text

-- the local state that `_flagger` makes
abbrev pub fresh : Verdict
fresh = record { status = ok; problems = [] }

abbrev pub Check : Type 0
Check = List String → Verdict → Verdict

unfoldable pub flag : Status → String → Text → Check
unfolding contains
flag level key message disabled v =
    if contains key disabled
    then v
    else record { status = worse v.status level; problems = v.problems ++ message ∷ [] }

unfoldable pub skip : Check
skip disabled v = v

infixr 5 ◌>>◌
unfoldable pub ◌>>◌ : Check → Check → Check
◌>>◌ c d disabled v = d disabled (c disabled v)

-- `if test: c`
unfoldable pub when : Bool → Check → Check
when test c disabled v = if test then c disabled v else v

-- `if value is not None: …`
unfoldable pub given {ℓ} : {A : Type ℓ} → Option A → (A → Check) → Check
given none c = skip
given (some a) c = c a
