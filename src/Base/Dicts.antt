-- ===== src/Base/Dicts.antt =====
-- Python's `dict` with text keys, as an association list.
use Prim.Native.String.{String}
use mathlib.Core.Path.{◌≡◌, refl}
use mathlib.Core.Bool.{Bool, true, false}
use mathlib.Core.Option.{Option, none, some}
use mathlib.Core.List.{List, [], ◌∷◌}
use native.Mathlib.Omega.{arith}
use text.Mathlib.TextEquality.{eq_iff}
use cc_rms_mqtt_monitor.Base.Tests.{str_eq, if◌then◌else◌}

abbrev pub Dict {ℓ} : Type ℓ → Type ℓ
Dict V = List (String × V)

module _ {ℓ} {V : Type ℓ} where
  -- d.get(k)
  unfoldable pub lookup : String → Dict V → Option V
  lookup k [] = none
  lookup k ((j, v) ∷ m) = if str_eq j k then some v else lookup k m

  -- d[k] = v
  unfoldable pub insert : String → V → Dict V → Dict V
  insert k v [] = (k, v) ∷ []
  insert k v ((j, w) ∷ m) = if str_eq j k then (k, v) ∷ m else (j, w) ∷ insert k v m

  -- d.pop(k, None)
  unfoldable pub erase : String → Dict V → Dict V
  erase k [] = []
  erase k ((j, w) ∷ m) = let rest = erase k m in if str_eq j k then rest else (j, w) ∷ rest

  pub lookup-insert :
      (j k : String) (v : V) (m : Dict V)
      → lookup j (insert k v m) ≡ (if str_eq k j then some v else lookup j m)
  unfolding lookup insert
  lookup-insert j k v [] = refl
  lookup-insert j k v ((i, w) ∷ m) =
      ground (arith, eq_iff k j, eq_iff i k, eq_iff i j, lookup-insert j k v m)

  pub lookup-erase :
      (j k : String) (m : Dict V) → lookup j (erase k m) ≡ (if str_eq k j then none else lookup j m)
  unfolding lookup erase
  lookup-erase j k [] = ground arith
  lookup-erase j k ((i, w) ∷ m) =
      ground (arith, eq_iff k j, eq_iff i k, eq_iff i j, lookup-erase j k m)

-- a set of texts: the keys of a dictionary
abbrev pub Keys : Type 0
Keys = Dict (Unit {0})

unfoldable pub member : String → Keys → Bool
member k s = elim (lookup k s) [ none ↦ false | some u ↦ true ]

-- `s.add(k)`
unfoldable pub add_key : String → Keys → Keys
add_key k s = insert k tt s

-- `s.discard(k)`
unfoldable pub discard : String → Keys → Keys
discard k s = erase k s

pub member-add_key :
    (j k : String) (s : Keys) → member j (add_key k s) ≡ (if str_eq k j then true else member j s)
unfolding member add_key
member-add_key j k s = ground (arith, lookup-insert j k tt s)

pub member-discard :
    (j k : String) (s : Keys) → member j (discard k s) ≡ (if str_eq k j then false else member j s)
unfolding member discard
member-discard j k s = ground (arith, lookup-erase j k s)
