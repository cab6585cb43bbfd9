-- ===== src/Collect/Repo/Cache.antt =====
-- The cached answer of `rms_repo_status` in cc_mqtt_monitor/collect.py.
use mathlib.Core.Path.{subst}
use cc_rms_mqtt_monitor.Base.{
  ◌-◌, ◌<◌, ◌≡◌, ◌⊎◌, inl, inr, refl, ap, String, true, Option, none, some, List, [], ◌∷◌, Memᴰ,
  arith, Bool-cases,
}
use cc_rms_mqtt_monitor.Collect.Repo.{
  Look, Repo, Cached, check_up_to_date, uptodate_ttl, same_signal, is_fresh, ask, answer, look_at,
  rms_repo_status,
}
use cc_rms_mqtt_monitor.Collect.Repo.Clock.{repo_after, taken}

-- a cache entry is the answer to one of the calls
Asked : List Look → Option Cached → Type 0
Asked ls none = Unit
Asked ls (some c) = (m : Look) × Memᴰ m ls × (c ≡ ask m)

Asked-cons : (l : Look) (ls : List Look) (o : Option Cached) → Asked ls o → Asked (l ∷ ls) o
unfolding Asked
Asked-cons l ls none h = tt
Asked-cons l ls (some c) (m, place, e) = (m, Memᴰ.tail place, e)

Asked-answer :
    (l : Look) (ls : List Look) (o : Option Cached)
    → Asked ls o
    → Asked (l ∷ ls) (some (answer l o))
unfolding Asked answer
Asked-answer l ls none h = (l, Memᴰ.head refl, refl)
Asked-answer l ls (some c) (m, place, e) = elim (Bool-cases (is_fresh l.mono l.signal c)) [
  | inl fresh ↦ (m, Memᴰ.tail place, rw fresh e)
  | inr stale ↦ (l, Memᴰ.head refl, rw stale refl)
]

look_Asked :
    (l : Look) (ls : List Look) (o : Option String) (r : Repo)
    → Asked ls r.cached
    → Asked (l ∷ ls) (look_at l o r).1.cached
unfolding look_at
look_Asked l ls none r h = Asked-cons l ls r.cached h
look_Asked l ls (some head) r h = Asked-answer l ls r.cached h

cache_Asked : (ls : List Look) → Asked ls (repo_after ls).cached
unfolding repo_after rms_repo_status Asked
cache_Asked [] = tt
cache_Asked (l ∷ ls) = look_Asked l ls l.git.head (repo_after ls) (cache_Asked ls)

fresh_ask :
    (l m : Look)
    → is_fresh l.mono l.signal (ask m) ≡ true
    → (l.mono - m.mono < uptodate_ttl) × (same_signal l.signal m.signal ≡ true)
unfolding is_fresh ask
fresh_ask l m h = ground (arith, h)

-- Every answer that a call uses is what git says at that call, or what it said at an earlier one
-- that lies less than the time to live before it and saw the same time of the reflog.
pub answer_recent :
    (l : Look) (ls : List Look)
    → (taken l ls ≡ check_up_to_date l.git)
      ⊎ ((m : Look) × Memᴰ m ls
          × (taken l ls ≡ check_up_to_date m.git)
          × (l.mono - m.mono < uptodate_ttl)
          × (same_signal l.signal m.signal ≡ true))
unfolding Asked answer ask
answer_recent l ls = go (repo_after ls).cached (cache_Asked ls)
  where
    go :
        (o : Option Cached)
        → Asked ls o
        → ((answer l o).up ≡ check_up_to_date l.git)
          ⊎ ((m : Look) × Memᴰ m ls
              × ((answer l o).up ≡ check_up_to_date m.git)
              × (l.mono - m.mono < uptodate_ttl)
              × (same_signal l.signal m.signal ≡ true))
    go none h = inl refl
    go (some c) (m, place, e) = elim (Bool-cases (is_fresh l.mono l.signal c)) [
      | inl fresh ↦
          let (young, same) =
            fresh_ask l m (subst (λ x. is_fresh l.mono l.signal x ≡ true) e fresh) in
          inr (m, place, rw fresh (ap (λ (x : Cached). x.up) e), young, same)
      | inr stale ↦ inl (rw stale refl)
    ]
