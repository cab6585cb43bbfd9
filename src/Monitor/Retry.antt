-- ===== src/Monitor/Retry.antt =====
-- `_connect_with_retry` of cc_mqtt_monitor/monitor.py, and what it waits. Each attempt is an input:
-- whether `connect` returns, and the publisher after it. Times are in milliseconds.
use mathlib.Core.Path.{subst}
use native.Mathlib.Numerals.{unary_clauses}
use Prim.Native.Nat.{◌^◌}
use cc_rms_mqtt_monitor.Base.{
  ℕ, zero, suc, ◌+◌, ◌*◌, ◌<◌, ◌≡◌, refl, sym, ap, ◌∙◌, min, Bool, true, false, Option, none, some,
  List, [], ◌∷◌, arith,
}
use cc_rms_mqtt_monitor.Publisher.{Publisher}

-- the attempts by their numbers
pub record Attempts : Type 0 where
  pub connects : ℕ → Bool
  pub after : ℕ → Publisher → Publisher

abbrev pub first_backoff : ℕ
first_backoff = 5000

abbrev pub max_backoff : ℕ
max_backoff = 60000

-- The `while` loop from the n-th attempt on: the publisher and the waits, none where the fuel is out.
unfoldable pub retry : Attempts → ℕ → ℕ → ℕ → Publisher → Option (Publisher × List ℕ)
retry a zero n backoff p = none
retry a (suc fuel) n backoff p =
    let p' = a.after n p in
    elim (a.connects n) [
      | true ↦ some (p', [])
      | false ↦ elim (retry a fuel (suc n) (min (backoff * 2) max_backoff) p') [
        | none ↦ none
        | some (q, waits) ↦ some (q, backoff ∷ waits)
      ]
    ]

-- `_connect_with_retry`
unfoldable pub connect_with_retry : Attempts → ℕ → Publisher → Option (Publisher × List ℕ)
connect_with_retry a fuel p = retry a fuel 0 first_backoff p

-- the publisher after k attempts from the n-th on
unfoldable pub attempted : Attempts → ℕ → ℕ → Publisher → Publisher
attempted a zero n p = p
attempted a (suc k) n p = attempted a k (suc n) (a.after n p)

-- k waits from the i-th on: five seconds, doubled each time up to a minute
unfoldable pub doubled_waits : ℕ → ℕ → List ℕ
doubled_waits i zero = []
doubled_waits i (suc k) = min (5000 * 2 ^ i) 60000 ∷ doubled_waits (suc i) k

retry-connects :
    (a : Attempts) (fuel n backoff : ℕ) (p : Publisher)
    → a.connects n ≡ true
    → retry a (suc fuel) n backoff p ≡ some (a.after n p, [])
unfolding retry
retry-connects a fuel n backoff p up = rw (up, retry) refl

retry-fails :
    (a : Attempts) (fuel n backoff : ℕ) (p q : Publisher) (waits : List ℕ)
    → a.connects n ≡ false
    → retry a fuel (suc n) (min (backoff * 2) max_backoff) (a.after n p) ≡ some (q, waits)
    → retry a (suc fuel) n backoff p ≡ some (q, backoff ∷ waits)
unfolding retry
retry-fails a fuel n backoff p q waits down later = rw (down, retry) (rw later refl)

next_backoff : (i : ℕ) → min (min (5000 * 2 ^ i) 60000 * 2) 60000 ≡ min (5000 * 2 ^ suc i) 60000
next_backoff i = simp unary_clauses (omega arith)

retry_lem :
    (a : Attempts) (k n i : ℕ) (p : Publisher)
    → ((j : ℕ) → j < k → a.connects (n + j) ≡ false)
    → a.connects (n + k) ≡ true
    → retry a (suc k) n (min (5000 * 2 ^ i) 60000) p
      ≡ some (attempted a (suc k) n p, doubled_waits i k)
unfolding attempted doubled_waits
retry_lem a zero n i p fails last = retry-connects a zero n _ p (ap a.connects (omega arith) ∙ last)
retry_lem a (suc k) n i p fails last =
    retry-fails a (suc k) n _ p _ _ (ap a.connects (omega arith) ∙ fails 0 (omega arith)) (
      subst
        (λ b.
          retry a (suc k) (suc n) b (a.after n p)
          ≡ some (attempted a (suc k) (suc n) (a.after n p), doubled_waits (suc i) k))
        (sym (next_backoff i))
        (retry_lem a k (suc n) (suc i) (a.after n p)
          (λ j lt. ap a.connects (omega arith) ∙ fails (suc j) (omega arith))
          (ap a.connects (omega arith) ∙ last)))

-- Where the first k attempts fail and the next one connects, the loop returns after exactly these
-- attempts, and between them waits five seconds, then twice as long each time up to a minute.
pub connect_with_retry_returns :
    (a : Attempts) (k : ℕ) (p : Publisher)
    → ((j : ℕ) → j < k → a.connects j ≡ false)
    → a.connects k ≡ true
    → connect_with_retry a (suc k) p ≡ some (attempted a (suc k) 0 p, doubled_waits 0 k)
unfolding connect_with_retry
connect_with_retry_returns a k p fails last =
    retry_lem a k 0 0 p (λ j lt. ap a.connects (omega arith) ∙ fails j lt)
      (ap a.connects (omega arith) ∙ last)
