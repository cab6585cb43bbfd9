-- ===== src/Collect/Repo/Tick.antt =====
-- One step of the clock of `rms_repo_status` in cc_mqtt_monitor/collect.py.
use mathlib.Core.Path.{subst}
use cc_rms_mqtt_monitor.Base.{
  ℕ, ◌≡◌, ◌≢◌, ◌⊎◌, inl, inr, refl, sym, String, Bool, true, false, Option, none, some, arith,
  Bool-cases, str_eq, eq_iff, eq_refl,
}
use cc_rms_mqtt_monitor.Collect.Repo.{Behind, entry_for, tick_clock}

-- the clock that is kept
abbrev pub ClockIs : String → ℕ → Option Behind → Type 0
ClockIs head t o = o ≡ some (record { head = head; since = some t })

pub tick_since :
    (now : ℕ) (up : Option Bool) (e : Behind) (t : ℕ)
    → (tick_clock now up e).since ≡ some t
    → (up ≡ some false) × (now ≡ t) ⊎ (up ≢ some true) × (e.since ≡ some t)
unfolding tick_clock
tick_since now none e t h = inr (λ p. cc p, h)
tick_since now (some true) e t h = cc h
tick_since now (some false) e t h = ground (arith, h)

pub head-tick_clock :
    (now : ℕ) (up : Option Bool) (e : Behind) → (tick_clock now up e).head ≡ e.head
unfolding tick_clock
head-tick_clock now up e = ground arith

pub entry_for_head : (head : String) (o : Option Behind) → (entry_for head o).head ≡ head
unfolding entry_for
entry_for_head head none = refl
entry_for_head head (some e) = elim (Bool-cases (str_eq e.head head)) [
  | inl same ↦ rw same ((eq_iff e.head head).0 same)
  | inr moved ↦ rw moved refl
]

pub entry_for_since :
    (head : String) (o : Option Behind) (t : ℕ)
    → (entry_for head o).since ≡ some t
    → ClockIs head t o
unfolding entry_for
entry_for_since head none t h = cc h
entry_for_since head (some e) t h = elim (Bool-cases (str_eq e.head head)) [
  | inl same ↦
      let since : e.since ≡ some t = rw same at h in ap2 ((eq_iff e.head head).0 same) since
  | inr moved ↦ let gone : none ≡ some t = rw moved at h in cc gone
]
  where
    ap2 : e.head ≡ head → e.since ≡ some t → some e ≡ some (record { head = head; since = some t })
    ap2 p q = λ i. some (record { head = p i; since = q i })

pub entry_for_kept :
    (found head : String) (s : ℕ) (o : Option Behind)
    → found ≡ head
    → ClockIs head s o
    → (entry_for found o).since ≡ some s
unfolding entry_for
entry_for_kept found head s o same c =
    subst (λ x. (entry_for found x).since ≡ some s) (sym c) (rw (same, eq_refl) refl)

pub tick_keeps :
    (now : ℕ) (up : Option Bool) (e : Behind) (s : ℕ)
    → up ≢ some true
    → e.since ≡ some s
    → (tick_clock now up e).since ≡ some s
unfolding tick_clock
tick_keeps now none e s ne h = h
tick_keeps now (some true) e s ne h = absurd (ne refl)
tick_keeps now (some false) e s ne h = simp (tick_clock, h) refl

pub tick_starts :
    (now : ℕ) (e : Behind)
    → ((tick_clock now (some false) e).since ≡ some now)
      ⊎ ((s : ℕ) × (e.since ≡ some s) × ((tick_clock now (some false) e).since ≡ some s))
unfolding tick_clock
tick_starts now e = go e.since refl
  where
    go :
        (o : Option ℕ)
        → e.since ≡ o
        → ((tick_clock now (some false) e).since ≡ some now)
          ⊎ ((s : ℕ) × (e.since ≡ some s) × ((tick_clock now (some false) e).since ≡ some s))
    go none h = inl (simp (tick_clock, h) refl)
    go (some s) h = inr (s, h, simp (tick_clock, h) refl)

pub clock_at :
    (b : Behind) (head : String) (s : ℕ)
    → b.head ≡ head
    → b.since ≡ some s
    → ClockIs head s (some b)
clock_at b head s p q = λ i. some (record { head = p i; since = q i })
