-- ===== src/Collect/Disconnects/Bursts.antt =====
-- The verdicts of `classify_disconnects` in cc_mqtt_monitor/collect.py, over bursts of disconnects.
use mathlib.Core.List.Memᴰ
use mathlib.Core.Path.{subst}
use cc_rms_mqtt_monitor.Base.{
  ℕ, suc, ◌+◌, ◌≤◌, ◌≡◌, ◌⊎◌, inl, inr, refl, ap, sym, ◌∙◌, true, ◌||◌, map, push_all, List, [],
  ◌∷◌, Memᴰ, arith, Bool-cases, length, any, any-Memᴰ, Memᴰ-any, All, All-Memᴰ, All-map,
}
use cc_rms_mqtt_monitor.Collect.Disconnects.Repeats.{Repeats, any→Repeats, Repeats→any}
use cc_rms_mqtt_monitor.Collect.Disconnects.{
  Drop, sched_burst, distance, is_repeat, match_history, is_near, decide, spread, verdicts,
  count_scheduled, classify_disconnects,
}

-- A drop of the session comes whole days after one of the history, give or take the tolerance, or a linked one is within a burst of it.
pub data Linked (session history : List ℕ) : ℕ → Type 0 where
  repeats : {t : ℕ} → Memᴰ t session → Repeats history t → Linked session history t
  follows :
      {t s : ℕ}
      → Memᴰ t session
      → Linked session history s
      → distance t s ≤ sched_burst
      → Linked session history t

near_one :
    (t : ℕ) (ds : List Drop)
    → is_near t ds ≡ true
    → (d : Drop) × Memᴰ d ds × (d.scheduled ≡ true) × (distance t d.time ≤ sched_burst)
unfolding is_near
near_one t ds h =
    let (d, m, both) = any-Memᴰ _ ds h in (d, m, ground (arith, both), ground (arith, both))

near_by :
    (t : ℕ) {d : Drop} {ds : List Drop}
    → Memᴰ d ds
    → d.scheduled ≡ true
    → distance t d.time ≤ sched_burst
    → is_near t ds ≡ true
unfolding is_near
near_by t m s c = Memᴰ-any _ m (ground (arith, s, c))

length-match_history :
    (history session : List ℕ) → length (match_history history session) ≡ length session
unfolding match_history
length-match_history history [] = refl
length-match_history history (t ∷ ts) = ap suc (length-match_history history ts)

length-spread : (past ds : List Drop) → length (spread past ds) ≡ length past + length ds
unfolding spread
length-spread past [] = omega arith
length-spread past (d ∷ ds) = omega (arith, length-spread (decide past d ds ∷ past) ds)

module _ (session history : List ℕ) where
  abbrev Sound : Drop → Type 0
  Sound d = Memᴰ d.time session × (d.scheduled ≡ true → Linked session history d.time)

  joined :
      (d : Drop) (others : List Drop)
      → Sound d
      → All Sound others
      → is_near d.time others ≡ true
      → Linked session history d.time
  joined d others own all near =
      let (e, m, s, close) = near_one d.time others near in
      follows own.0 ((All-Memᴰ Sound others all m).1 s) close

  decide-Sound :
      (past : List Drop) (d : Drop) (ds : List Drop)
      → All Sound past
      → All Sound (d ∷ ds)
      → Sound (decide past d ds)
  unfolding decide
  decide-Sound past d ds p (q, qs) = (q.0, link)
    where
      link :
          d.scheduled || (is_near d.time past || is_near d.time ds) ≡ true
          → Linked session history d.time
      link h = elim (Bool-cases d.scheduled) [
        | inl own ↦ q.1 own
        | inr no_own ↦ elim (Bool-cases (is_near d.time past)) [
          | inl before ↦ joined d past q p before
          | inr no_past ↦ joined d ds q qs (ground (arith, h, no_own, no_past))
        ]
      ]

  spread-Sound : (past ds : List Drop) → All Sound past → All Sound ds → All Sound (spread past ds)
  unfolding spread
  spread-Sound past [] p q = p
  spread-Sound past (d ∷ ds) p q =
      spread-Sound (decide past d ds ∷ past) ds (decide-Sound past d ds p q, p) q.1

  match-Sound :
      (ts : List ℕ) → ((t : ℕ) → Memᴰ t ts → Memᴰ t session) → All Sound (match_history history ts)
  unfolding match_history
  match-Sound [] sub = tt
  match-Sound (t ∷ ts) sub =
      let own = sub t (Memᴰ.head refl) in
      (
        (own, λ r. repeats own (any→Repeats history t r)),
        match-Sound ts (λ u m. sub u (Memᴰ.tail m)),
      )

  -- every drop of the session that repeats one of the history is there, and scheduled
  Known : List Drop → List Drop → Type 0
  Known past ds =
      (s : ℕ)
      → Memᴰ s session
      → Repeats history s
      → (e : Drop) × (Memᴰ e past ⊎ Memᴰ e ds) × (e.scheduled ≡ true) × (e.time ≡ s)

  -- a drop within a burst of one that repeats the history is scheduled
  abbrev pub NearRepeat : Drop → Type 0
  NearRepeat d =
      (s : ℕ)
      → Memᴰ s session
      → Repeats history s
      → distance d.time s ≤ sched_burst
      → d.scheduled ≡ true

  Known-decide :
      (past : List Drop) (d : Drop) (ds : List Drop)
      → Known past (d ∷ ds)
      → Known (decide past d ds ∷ past) ds
  unfolding Known decide
  Known-decide past d ds k s m r =
      let (e, place, on, at_s) = k s m r in
      elim place [
        | inl before ↦ (e, inl (Memᴰ.tail before), on, at_s)
        | inr there ↦ elim (Memᴰ.cases_cons there) [
          | inl same ↦ (
            decide past d ds,
            inl (Memᴰ.head refl),
            ground (arith, ap (λ (x : Drop). x.scheduled) same, on),
            ap (λ (x : Drop). x.time) (sym same) ∙ at_s,
          )
          | inr after ↦ (e, inr after, on, at_s)
        ]
      ]

  decide-NearRepeat :
      (past : List Drop) (d : Drop) (ds : List Drop)
      → Known past (d ∷ ds)
      → NearRepeat (decide past d ds)
  unfolding Known decide
  decide-NearRepeat past d ds k s m r close =
      let (e, place, on, at_s) = k s m r in
      let close_e = subst (λ x. distance d.time x ≤ sched_burst) (sym at_s) close in
      elim place [
        | inl before ↦ ground (arith, near_by d.time before on close_e)
        | inr there ↦ elim (Memᴰ.cases_cons there) [
          | inl same ↦ ground (arith, ap (λ (x : Drop). x.scheduled) same, on)
          | inr after ↦ ground (arith, near_by d.time after on close_e)
        ]
      ]

  spread-NearRepeat :
      (past ds : List Drop) → All NearRepeat past → Known past ds → All NearRepeat (spread past ds)
  unfolding spread
  spread-NearRepeat past [] p k = p
  spread-NearRepeat past (d ∷ ds) p k =
      spread-NearRepeat (decide past d ds ∷ past) ds (decide-NearRepeat past d ds k, p)
        (Known-decide past d ds k)

  match-Known :
      (s : ℕ) (ts : List ℕ)
      → Memᴰ s ts
      → any (is_repeat s) history ≡ true
      → (e : Drop) × Memᴰ e (match_history history ts) × (e.scheduled ≡ true) × (e.time ≡ s)
  unfolding match_history
  match-Known s ts (Memᴰ.head {xs = us} same) r =
      (_, Memᴰ.head refl, subst (λ x. any (is_repeat x) history ≡ true) same r, sym same)
  match-Known s ts (Memᴰ.tail {xs = us} m) r =
      let (e, n, on, at_s) = match-Known s us m r in (e, Memᴰ.tail n, on, at_s)

-- of drops, the latest first: one within a burst of an earlier scheduled one is scheduled
abbrev pub Closed : List Drop → Type 0
Closed [] = Unit
Closed (d ∷ earlier) = (is_near d.time earlier ≡ true → d.scheduled ≡ true) × Closed earlier

spread-Closed : (past ds : List Drop) → Closed past → Closed (spread past ds)
unfolding spread decide
spread-Closed past [] c = c
spread-Closed past (d ∷ ds) c =
    spread-Closed (decide past d ds ∷ past) ds (λ near. ground (arith, near), c)

times : List Drop → List ℕ
times = map (λ (d : Drop). d.time)

times-match_history : (history session : List ℕ) → times (match_history history session) ≡ session
unfolding match_history times
times-match_history history [] = refl
times-match_history history (t ∷ ts) = ap (λ us. t ∷ us) (times-match_history history ts)

times-spread : (past ds : List Drop) → times (spread past ds) ≡ push_all (times ds) (times past)
unfolding spread decide times push_all
times-spread past [] = refl
times-spread past (d ∷ ds) = times-spread (decide past d ds ∷ past) ds

count_scheduled-le : (ds : List Drop) → count_scheduled ds ≤ length ds
unfolding count_scheduled
count_scheduled-le [] = omega arith
count_scheduled-le (d ∷ ds) = ground (arith, count_scheduled-le ds)

pub classify_adds_up :
    (session history : List ℕ)
    → let (sched, unplanned) = classify_disconnects session history in
      sched + unplanned ≡ length session
unfolding classify_disconnects verdicts
classify_adds_up session history = omega (
  arith,
  count_scheduled-le (spread [] (match_history history session)),
  length-spread [] (match_history history session),
  length-match_history history session,
)

-- Each drop of the session has one verdict, the latest first. One that is scheduled is linked by bursts to one
-- that comes some whole days after a drop of the history, give or take the tolerance; one within a burst of
-- such a repeating drop, and one within a burst of an earlier scheduled drop, is scheduled; the
-- first count is that of the scheduled drops, and the two are together those of the session.
pub classify_disconnects-Linked :
    (session history : List ℕ)
    → let ds = verdicts session history in
      (map (λ (d : Drop). d.time) ds ≡ push_all session [])
      × All (λ (d : Drop). d.scheduled ≡ true → Linked session history d.time) ds
      × All (NearRepeat session history) ds
      × Closed ds
      × (count_scheduled ds ≡ (classify_disconnects session history).0)
      × ((classify_disconnects session history).0 + (classify_disconnects session history).1
          ≡ length session)
unfolding verdicts classify_disconnects Known times
classify_disconnects-Linked session history =
    let start = match_history history session in
    (
      times-spread [] start ∙ ap (λ us. push_all us []) (times-match_history history session),
      All-map (λ d (s : Sound session history d). s.1) _
          (spread-Sound session history [] start tt
            (match-Sound session history session (λ t m. m))),
      spread-NearRepeat session history [] start tt known,
      spread-Closed [] start tt,
      refl,
      classify_adds_up session history,
    )
  where
    known : Known session history [] (match_history history session)
    known s m r =
        let (e, n, on, at_s) = match-Known session history s session m (Repeats→any history s r) in
        (e, inr n, on, at_s)
