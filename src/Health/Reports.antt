-- ===== src/Health/Reports.antt =====
-- Checks that only report findings: the findings do not depend on the disabled keys, which only
-- decide those that count. One rule for each way to build a check.
use cc_rms_mqtt_monitor.Base.{
  String, ◌≡◌, ◌≢◌, ◌∙◌, sym, ap, Bool, true, false, Option, none, some, List, [], ◌∷◌, ◌++◌,
  if◌then◌else◌, Text,
}
use cc_rms_mqtt_monitor.Health.{
  Status, ok, degraded, error, Verdict, Check, flag, skip, when, given, ◌>>◌,
}
use cc_rms_mqtt_monitor.Health.Findings.{
  Finding, add, Serious, Serious-append, add-append, add-nil, add-flag,
}

pub record Reports (c : Check) : Type 0 where
  pub found : List Finding
  pub serious : Serious found
  pub same : (d : List String) (v : Verdict) → c d v ≡ add d found v

pub Reports-skip : Reports skip
unfolding skip
Reports-skip = record { found = []; serious = tt; same = λ d v. sym (add-nil d v) }

pub Reports-flag : (l : Status) (k : String) (t : Text) → l ≢ ok → Reports (flag l k t)
Reports-flag l k t h = record {
  found = record { level = l; key = k; text = t } ∷ [];
  serious = (h, tt);
  same = add-flag l k t;
}

pub Reports->> : (b c : Check) → Reports b → Reports c → Reports (b >> c)
unfolding ◌>>◌
Reports->> b c rb rc = record {
  found = rb.found ++ rc.found;
  serious = Serious-append rb.found rc.found rb.serious rc.serious;
  same = λ d v.
      ap (c d) (rb.same d v)
      ∙ rc.same d (add d rb.found v)
      ∙ sym (add-append d rb.found rc.found v);
}

pub Reports-if : (b : Bool) (c e : Check) → Reports c → Reports e → Reports (if b then c else e)
Reports-if true c e rc re = rc
Reports-if false c e rc re = re

pub Reports-when : (b : Bool) (c : Check) → Reports c → Reports (when b c)
unfolding when skip
Reports-when true c r = record { found = r.found; serious = r.serious; same = r.same }
Reports-when false c r = Reports-skip

pub Reports-given {ℓ} :
    {A : Type ℓ} (o : Option A) (c : A → Check) → ((a : A) → Reports (c a)) → Reports (given o c)
unfolding given
Reports-given none c r = Reports-skip
Reports-given (some a) c r = r a

degraded-ne-ok : degraded ≢ ok
degraded-ne-ok h = cc

error-ne-ok : error ≢ ok
error-ne-ok h = cc

pub Reports-degraded : (k : String) (t : Text) → Reports (flag degraded k t)
Reports-degraded k t = Reports-flag degraded k t degraded-ne-ok

pub Reports-error : (k : String) (t : Text) → Reports (flag error k t)
Reports-error k t = Reports-flag error k t error-ne-ok

pub ruleset reports_rules = (
  Reports-skip, Reports-degraded, Reports-error, Reports->>, Reports-if, Reports-when,
  Reports-given,
)
