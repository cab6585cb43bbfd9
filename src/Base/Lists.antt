-- ===== src/Base/Lists.antt =====
-- Lists under native numbers: lengths, membership of numbers, and Python's `reversed`.
use Prim.Native.Nat.{ℕ, suc, ◌+◌, ◌≤◌}
use mathlib.Core.Path.{◌≡◌, refl, ap, sym, ◌∙◌, subst}
use mathlib.Core.Logic.{◌⊎◌, inl, inr, ◌↔◌, ⊎_elim}
use mathlib.Core.Bool.{Bool, true, false, ◌||◌}
use mathlib.Core.List.{List, [], ◌∷◌, ◌++◌, Memᴰ, map}
use mathlib.Core.List.Memᴰ
use native.Mathlib.Omega.{arith}
use cc_rms_mqtt_monitor.Base.Tests.{◌==◌, if◌then◌else◌, Bool-cases}

module _ {ℓ} {A : Type ℓ} where
  abbrev pub length : List A → ℕ
  length [] = 0
  length (_ ∷ xs) = suc (length xs)

  pub length-append : (xs ys : List A) → length (xs ++ ys) ≡ length xs + length ys
  length-append [] ys = omega arith
  length-append (x ∷ xs) ys = omega (arith, length-append xs ys)

  -- those that pass the test, in order
  unfoldable pub filter : (A → Bool) → List A → List A
  filter test [] = []
  filter test (x ∷ xs) = let rest = filter test xs in if test x then x ∷ rest else rest

  -- `any(test(x) for x in xs)`
  unfoldable pub any : (A → Bool) → List A → Bool
  any test [] = false
  any test (x ∷ xs) = test x || any test xs

  -- the last of the first list comes out on top of the second
  unfoldable pub push_all : List A → List A → List A
  push_all [] below = below
  push_all (x ∷ xs) below = push_all xs (x ∷ below)

  pub Memᴰ-cons : (a x : A) (xs : List A) → Memᴰ a (x ∷ xs) ↔ ((a ≡ x) ⊎ Memᴰ a xs)
  Memᴰ-cons a x xs = (Memᴰ.cases_cons, ⊎_elim Memᴰ.head Memᴰ.tail)

  pub any-Memᴰ :
      (test : A → Bool) (xs : List A) → any test xs ≡ true → (x : A) × Memᴰ x xs × (test x ≡ true)
  unfolding any
  any-Memᴰ test [] h = cc h
  any-Memᴰ test (x ∷ xs) h = elim (Bool-cases (test x)) [
    | inl here ↦ (x, Memᴰ.head refl, here)
    | inr later ↦ let (y, m, passes) = any-Memᴰ test xs (rw later at h) in (y, Memᴰ.tail m, passes)
  ]

  pub Memᴰ-any :
      (test : A → Bool) {x : A} {xs : List A} → Memᴰ x xs → test x ≡ true → any test xs ≡ true
  unfolding any
  Memᴰ-any test (Memᴰ.head {x} {xs} e) h = rw (ap test (sym e) ∙ h) refl
  Memᴰ-any test (Memᴰ.tail {x} m) h = ground (arith, Memᴰ-any test m h)

  -- the predicate holds of every element
  abbrev pub All {κ} : (A → Type κ) → List A → Type κ
  All P [] = Unit
  All P (x ∷ xs) = P x × All P xs

  pub All-Memᴰ {κ} : (P : A → Type κ) {x : A} (xs : List A) → All P xs → Memᴰ x xs → P x
  All-Memᴰ P [] h m = absurd (Memᴰ.not-nil m)
  All-Memᴰ P (y ∷ ys) h m = elim (Memᴰ.cases_cons m) [
    | inl same ↦ subst P (sym same) h.0
    | inr later ↦ All-Memᴰ P ys h.1 later
  ]

  pub length-push_all : (xs below : List A) → length (push_all xs below) ≡ length xs + length below
  unfolding push_all
  length-push_all [] below = omega arith
  length-push_all (x ∷ xs) below = omega (arith, length-push_all xs (x ∷ below))

  pub Memᴰ-push_all :
      (a : A) (xs below : List A) → Memᴰ a (push_all xs below) ↔ (Memᴰ a xs ⊎ Memᴰ a below)
  unfolding push_all
  Memᴰ-push_all a [] below = (inr, ⊎_elim (λ m. absurd (Memᴰ.not-nil m)) (λ m. m))
  Memᴰ-push_all a (x ∷ xs) below =
      ground (arith, Memᴰ-push_all a xs (x ∷ below), Memᴰ-cons a x xs, Memᴰ-cons a x below)

  pub length-filter : (test : A → Bool) (xs : List A) → length (filter test xs) ≤ length xs
  unfolding filter
  length-filter test [] = omega arith
  length-filter test (x ∷ xs) = ground (arith, length-filter test xs)

  pub All-map {κ μ} :
      {P : A → Type κ} {Q : A → Type μ}
      → ((x : A) → P x → Q x)
      → (xs : List A) → All P xs
      → All Q xs
  All-map f [] h = tt
  All-map f (x ∷ xs) (p, ps) = (f x p, All-map f xs ps)

  pub All-both {κ μ} :
      (P : A → Type κ) (Q : A → Type μ) (xs : List A)
      → All P xs
      → All Q xs
      → All (λ x. P x × Q x) xs
  All-both P Q [] h k = tt
  All-both P Q (x ∷ xs) (p, ps) (q, qs) = ((p, q), All-both P Q xs ps qs)

pub length-map {ℓ κ} :
    {A : Type ℓ} {B : Type κ} (f : A → B) (xs : List A) → length (map f xs) ≡ length xs
length-map f [] = refl
length-map f (x ∷ xs) = ap suc (length-map f xs)

-- `sum(ns)`
unfoldable pub sum : List ℕ → ℕ
sum [] = 0
sum (n ∷ ns) = n + sum ns

-- `n in xs`
unfoldable pub mem : ℕ → List ℕ → Bool
mem n [] = false
mem n (x ∷ xs) = x == n || mem n xs

pub mem_iff : (n : ℕ) (xs : List ℕ) → (mem n xs ≡ true) ↔ Memᴰ n xs
unfolding mem
mem_iff n [] = (λ h. cc h, λ m. absurd (Memᴰ.not-nil m))
mem_iff n (x ∷ xs) = ground (arith, mem_iff n xs, Memᴰ-cons n x xs)

pub mem-cons : (n x : ℕ) (xs : List ℕ) → (mem n (x ∷ xs) ≡ true) ↔ ((n ≡ x) ⊎ (mem n xs ≡ true))
unfolding mem
mem-cons n x xs = ground arith

-- no number twice
abbrev pub Distinct : List ℕ → Type 0
Distinct [] = Unit {0}
Distinct (x ∷ xs) = (mem x xs ≡ false) × Distinct xs
