-- ===== src/Health/Findings.antt =====
-- What a verdict promises, told from a list of findings: which of them are enabled, the worst of
-- their levels, their texts in order.
use cc_rms_mqtt_monitor.Base.{
  String, ◌≡◌, ◌≢◌, refl, ap, List, [], ◌∷◌, ◌++◌, contains, if◌then◌else◌, Bool-cases, inl, inr,
  arith, Text,
}
use mathlib.Core.List.{append_assoc, append-nil}
use cc_rms_mqtt_monitor.Health.{Status, ok, Verdict, worse, flag}

pub record Finding : Type 0 where
  pub level : Status
  pub key : String
  pub text : Text

unfoldable pub enabled : List String → List Finding → List Finding
enabled disabled [] = []
enabled disabled (f ∷ fs) =
    let rest = enabled disabled fs in if contains f.key disabled then rest else f ∷ rest

unfoldable pub worst : List Finding → Status
worst [] = ok
worst (f ∷ fs) = worse f.level (worst fs)

unfoldable pub texts : List Finding → List Text
texts [] = []
texts (f ∷ fs) = f.text ∷ texts fs

abbrev pub Serious : List Finding → Type 0
Serious [] = Unit
Serious (f ∷ fs) = (f.level ≢ ok) × Serious fs

-- one list is another with some of its elements left out
pub data Within {ℓ} {A : Type ℓ} : List A → List A → Type ℓ where
  nil : Within [] []
  keep : {x : A} {xs ys : List A} → Within xs ys → Within (x ∷ xs) (x ∷ ys)
  drop : {y : A} {xs ys : List A} → Within xs ys → Within xs (y ∷ ys)

worse_assoc : (a b c : Status) → worse (worse a b) c ≡ worse a (worse b c)
unfolding worse
worse_assoc a b c = ground arith

worse-ok : (a : Status) → worse a ok ≡ a
unfolding worse
worse-ok a = ground arith

-- adds the enabled findings to a verdict
unfoldable pub add : List String → List Finding → Verdict → Verdict
add disabled fs v = record {
  status = worse v.status (worst (enabled disabled fs));
  problems = v.problems ++ texts (enabled disabled fs);
}

enabled-append :
    (d : List String) (fs gs : List Finding) → enabled d (fs ++ gs) ≡ enabled d fs ++ enabled d gs
unfolding enabled
enabled-append d [] gs = refl
enabled-append d (f ∷ fs) gs = ground (arith, enabled-append d fs gs)

worst-append : (fs gs : List Finding) → worst (fs ++ gs) ≡ worse (worst fs) (worst gs)
unfolding worst worse
worst-append [] gs = ground arith
worst-append (f ∷ fs) gs = ground (arith, worst-append fs gs)

texts-append : (fs gs : List Finding) → texts (fs ++ gs) ≡ texts fs ++ texts gs
unfolding texts
texts-append [] gs = refl
texts-append (f ∷ fs) gs = ap (λ r. f.text ∷ r) (texts-append fs gs)

pub add-append :
    (d : List String) (fs gs : List Finding) (v : Verdict)
    → add d (fs ++ gs) v ≡ add d gs (add d fs v)
unfolding add
add-append d fs gs v = simp (enabled-append, worst-append, texts-append, worse_assoc, append_assoc)

pub add-nil : (d : List String) (v : Verdict) → add d [] v ≡ v
unfolding add enabled worst texts
add-nil d v = simp (append-nil, worse-ok)

pub add-flag :
    (l : Status) (k : String) (t : Text) (d : List String) (v : Verdict)
    → flag l k t d v ≡ add d (record { level = l; key = k; text = t } ∷ []) v
unfolding flag add enabled worst texts
add-flag l k t d v = elim (Bool-cases (contains k d)) [
  | inl off ↦ rw off (simp (append-nil, worse-ok))
  | inr on ↦ rw on (simp worse-ok)
]

pub Serious-append : (fs gs : List Finding) → Serious fs → Serious gs → Serious (fs ++ gs)
Serious-append [] gs h k = k
Serious-append (f ∷ fs) gs h k = (h.0, Serious-append fs gs h.1 k)
