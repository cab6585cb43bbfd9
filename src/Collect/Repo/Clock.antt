-- ===== src/Collect/Repo/Clock.antt =====
-- The clock and the cache of `rms_repo_status` in cc_mqtt_monitor/collect.py over any calls.
use mathlib.Core.Path.{subst}
use mathlib.Core.Option.{some-injective}
use cc_rms_mqtt_monitor.Base.{
  ℕ, ◌≤◌, ◌≡◌, ◌≢◌, inl, inr, refl, ap, sym, ◌∙◌, String, Bool, true, false, Option, none, some,
  List, [], ◌∷◌, arith, All,
}
use cc_rms_mqtt_monitor.Collect.Repo.{
  Look, Repo, Behind, entry_for, tick_clock, answer, look_at, rms_repo_status,
}
use cc_rms_mqtt_monitor.Collect.Repo.Tick.{
  ClockIs, tick_since, head-tick_clock, entry_for_head, entry_for_since, entry_for_kept, tick_keeps,
  tick_starts, clock_at,
}

abbrev pub no_repo : Repo
no_repo = record { cached = none; behind = none }

-- after the calls, the latest first
unfoldable pub repo_after : List Look → Repo
repo_after [] = no_repo
repo_after (l ∷ ls) = (rms_repo_status l (repo_after ls)).1

-- whether the checkout is taken to be up to date at a call that follows the others
abbrev pub taken : Look → List Look → Option Bool
taken l ls = (answer l (repo_after ls).cached).up

-- Some call at time t took this HEAD to be behind, and no later one found another HEAD or took it
-- to be up to date.
pub data SeenBehind (head : String) (t : ℕ) : List Look → Type 0 where
  first :
      {l : Look} {ls : List Look}
      → l.git.head ≡ some head
      → l.now ≡ t
      → taken l ls ≡ some false
      → SeenBehind head t (l ∷ ls)
  unreadable :
      {l : Look} {ls : List Look}
      → l.git.head ≡ none
      → SeenBehind head t ls
      → SeenBehind head t (l ∷ ls)
  stays :
      {l : Look} {ls : List Look}
      → l.git.head ≡ some head
      → taken l ls ≢ some true
      → SeenBehind head t ls
      → SeenBehind head t (l ∷ ls)

-- one call: what it does to the clock
data Ticked (l : Look) (ls : List Look) : Type 0 where
  head_unread :
      l.git.head ≡ none → (repo_after (l ∷ ls)).behind ≡ (repo_after ls).behind → Ticked l ls
  head_read :
      (head : String)
      → l.git.head ≡ some head
      → (repo_after (l ∷ ls)).behind
        ≡ some (tick_clock l.now (taken l ls) (entry_for head (repo_after ls).behind))
      → Ticked l ls

ticked : (l : Look) (ls : List Look) → Ticked l ls
unfolding repo_after rms_repo_status look_at
ticked l ls = go l.git.head refl
  where
    go : (o : Option String) → l.git.head ≡ o → Ticked l ls
    go none e = head_unread e (ap (λ o. (look_at l o (repo_after ls)).1.behind) e)
    go (some head) e = head_read head e (ap (λ o. (look_at l o (repo_after ls)).1.behind) e)

clock_sound :
    (ls : List Look) (head : String) (t : ℕ)
    → ClockIs head t (repo_after ls).behind
    → SeenBehind head t ls
unfolding repo_after
clock_sound [] head t h = cc h
clock_sound (l ∷ ls) head t h = elim (ticked l ls) [
  | head_unread e kept ↦ unreadable e (clock_sound ls head t (sym kept ∙ h))
  | head_read found e is ↦
      let q = some-injective _ _ (sym is ∙ h) in
      let o = (repo_after ls).behind in
      let entry = entry_for found o in
      let same : found ≡ head =
        sym (entry_for_head found o)
        ∙ sym (head-tick_clock l.now (taken l ls) entry)
        ∙ ap (λ (b : Behind). b.head) q in
      let here = e ∙ ap some same in
      elim (tick_since l.now (taken l ls) entry t (ap (λ (b : Behind). b.since) q)) [
        | inl (behind, at_t) ↦ first here at_t behind
        | inr (up, since) ↦ stays here up (
            clock_sound ls head t
              (subst (λ x. ClockIs x t o) same (entry_for_since found o t since)))
      ]
]

-- the calls, the latest first, in the order of their times
abbrev pub Ordered : List Look → Type 0
Ordered [] = Unit
Ordered (l ∷ ls) = All (λ (m : Look). m.now ≤ l.now) ls × Ordered ls

seen_time :
    (n : ℕ) (head : String) (t : ℕ) (ls : List Look)
    → All (λ (m : Look). m.now ≤ n) ls
    → SeenBehind head t ls
    → t ≤ n
seen_time n head t [] h s = elim s [ ]
seen_time n head t (l ∷ ls) (own, h) (first e at_t b) = omega (arith, at_t, own)
seen_time n head t (l ∷ ls) (own, h) (unreadable e s) = seen_time n head t ls h s
seen_time n head t (l ∷ ls) (own, h) (stays e u s) = seen_time n head t ls h s

clock_complete :
    (ls : List Look) (head : String) (t : ℕ)
    → Ordered ls
    → SeenBehind head t ls
    → (s : ℕ) × ClockIs head s (repo_after ls).behind × (s ≤ t)
clock_complete [] head t h seen = elim seen [ ]
clock_complete (l ∷ ls) head t (late, ordered) (first e at_t b) = elim (ticked l ls) [
  | head_unread e' kept ↦ absurd (cc (e, e'))
  | head_read found e' is ↦
      let o = (repo_after ls).behind in
      let entry = entry_for found o in
      let is' = is ∙ ap (λ u. some (tick_clock l.now u entry)) b in
      let named =
        head-tick_clock l.now (some false) entry
        ∙ entry_for_head found o
        ∙ some-injective _ _ (sym e' ∙ e) in
      elim (tick_starts l.now entry) [
        | inl starts ↦ (l.now, is' ∙ clock_at _ head l.now named starts, omega (arith, at_t))
        | inr (s, old, kept) ↦
            let before =
              seen_time l.now found s ls late
                (clock_sound ls found s (entry_for_since found o s old)) in
            (s, is' ∙ clock_at _ head s named kept, omega (arith, at_t, before))
      ]
]
clock_complete (l ∷ ls) head t (late, ordered) (unreadable e b) = elim (ticked l ls) [
  | head_unread e' kept ↦ let (s, c, le) = clock_complete ls head t ordered b in (s, kept ∙ c, le)
  | head_read found e' is ↦ absurd (cc (e, e'))
]
clock_complete (l ∷ ls) head t (late, ordered) (stays e u b) = elim (ticked l ls) [
  | head_unread e' kept ↦ absurd (cc (e, e'))
  | head_read found e' is ↦
      let (s, c, le) = clock_complete ls head t ordered b in
      let o = (repo_after ls).behind in
      let entry = entry_for found o in
      let same : found ≡ head = some-injective _ _ (sym e' ∙ e) in
      let named = head-tick_clock l.now (taken l ls) entry ∙ entry_for_head found o ∙ same in
      let kept = tick_keeps l.now (taken l ls) entry s u (entry_for_kept found head s o same c) in
      (s, is ∙ clock_at _ head s named kept, le)
]

-- After any calls in the order of their times, the clock runs exactly where some call took the
-- present HEAD to be behind and no later one found another or took it to be up to date, and it
-- shows the time of the first such call.
pub behind_clock :
    (ls : List Look) (head : String) (t : ℕ)
    → Ordered ls
    → (ClockIs head t (repo_after ls).behind → SeenBehind head t ls)
      × (SeenBehind head t ls → (s : ℕ) × ClockIs head s (repo_after ls).behind × (s ≤ t))
behind_clock ls head t ordered = (clock_sound ls head t, clock_complete ls head t ordered)
