-- ===== src/OsLevel/NicLink/Expected.antt =====
-- What cc_mqtt_monitor/oslevel.py reads of the links against the automatic rule of
-- `evaluate_host` in cc_mqtt_monitor/health.py.
use mathlib.Core.Option
use mathlib.Core.Path.{subst}
use mathlib.Core.Bool.{false≢true}
use cc_rms_mqtt_monitor.Base.{
  ℕ, ◌≤◌, ◌<◌, ◌≡◌, ◌≢◌, ◌↔◌, contains, eq_iff, inl, inr, refl, sym, min, String, true, false, ◌&&◌,
  Option, none, some, List, [], ◌∷◌, arith, Bool-cases, ltb, Dict, float, All,
}
use cc_rms_mqtt_monitor.Health.Metrics.{Link}
use cc_rms_mqtt_monitor.Health.Reading.{equals}
use cc_rms_mqtt_monitor.Health.Links.{LinkRule, half_duplex, wanted_speed, slow_links}
use cc_rms_mqtt_monitor.Health.HostTiers.{Reaches, IsFine, AllFine, slow_links-eq-nil}
use cc_rms_mqtt_monitor.OsLevel.Ethtool.{Line, parse_ethtool, expected, link_expectation}
use cc_rms_mqtt_monitor.OsLevel.NicLink.{
  Iface, NicLink, known_duplex, is_watched, positive, read_link, read_nic_link, link_of,
  expected_of,
}

-- A speed is no less than the lower of the two, where both are known and not 0.
abbrev pub Meets : Option ℕ → Option ℕ → ℕ → Type 0
Meets (some p) (some q) s = 0 < p → 0 < q → min p q ≤ s
Meets p q s = Unit

-- what the output of ethtool says, where there is any
abbrev pub MeetsPartner : (String → List ℕ) → Option (List Line) → ℕ → Type 0
MeetsPartner modes none s = Unit
MeetsPartner modes (some lines) s =
    let adv = parse_ethtool modes lines in Meets adv.partner_max_mbps adv.supported_max_mbps s

Reaches-iff :
    (p q : Option ℕ) (s : ℕ) → Reaches (Option.map float (expected p q)) (float s) ↔ Meets p q s
unfolding expected
Reaches-iff none q s = (λ _. tt, λ _. tt)
Reaches-iff (some p) none s = (λ _. tt, λ _. tt)
Reaches-iff (some p) (some q) s = elim (Bool-cases (ltb 0 p && ltb 0 q)) [
  | inl both ↦ rw both (
    λ h _ _. omega (arith, h),
    λ h. omega (arith, h (ground (arith, both)) (ground (arith, both))),
  )
  | inr zero ↦ rw zero (λ _ a b. absurd (ground (arith, zero, a, b)), λ _. tt)
]

-- what the record of health reads of the links
unfoldable pub links_of : Dict NicLink → Dict Link
links_of [] = []
links_of ((n, l) ∷ ls) = (n, link_of l) ∷ links_of ls

-- the link of a watched interface: one with a speed does not read half duplex, and meets its partner
abbrev pub IfaceIsFine :
    (String → List ℕ) → (String → Option (List Line)) → Iface → Option ℕ → Type 0
IfaceIsFine modes ethtool i none = Unit
IfaceIsFine modes ethtool i (some s) =
    (i.duplex ≢ some "half") × MeetsPartner modes (ethtool i.name) s

-- What is read as half duplex is what the system gives as such.
half_duplex-known :
    (o : Option String) → (equals (known_duplex o) "half" ≡ false) ↔ (o ≢ some "half")
unfolding known_duplex equals contains
half_duplex-known none = (λ _ e. cc e, λ _. refl)
half_duplex-known (some d) = ground (arith, eq_iff d "half", eq_iff "half" d, eq_iff "full" d)

module _ (modes : String → List ℕ) (ethtool : String → Option (List Line)) where
  partner_iff :
      (o : Option (List Line)) (s : ℕ)
      → Reaches (Option.map float (link_expectation modes o).expected_mbps) (float s)
        ↔ MeetsPartner modes o s
  unfolding link_expectation
  partner_iff none s = (λ _. tt, λ _. tt)
  partner_iff (some lines) s =
      let adv = parse_ethtool modes lines in
      Reaches-iff adv.partner_max_mbps adv.supported_max_mbps s

  iface_iff :
      (i : Iface) (o : Option ℕ)
      → positive i.speed ≡ o
      → IsFine LinkRule.auto (link_of (read_link modes ethtool i)) (Option.map float o)
        ↔ IfaceIsFine modes ethtool i o
  unfolding wanted_speed link_of read_link expected_of link_expectation half_duplex
  iface_iff i none e = (λ _. tt, λ _. tt)
  iface_iff i (some s) e =
      let asked = link_expectation modes (ethtool i.name) in
      let reach =
        subst
          (λ q.
            Reaches (Option.map float (expected_of (Option.map (λ _. asked) q))) (float s)
            ↔ MeetsPartner modes (ethtool i.name) s)
          (sym e) (partner_iff (ethtool i.name) s) in
      let duplex = half_duplex-known i.duplex in
      (λ (full, r). (duplex.0 full, reach.0 r), λ (full, m). (duplex.1 full, reach.1 m))

  IsFine-speed :
      (i : Iface)
      → IsFine LinkRule.auto
          (link_of (read_link modes ethtool i))
          (link_of (read_link modes ethtool i)).speed_mbps
        ↔ IfaceIsFine modes ethtool i (positive i.speed)
  unfolding link_of read_link
  IsFine-speed i = iface_iff i (positive i.speed) refl

  abbrev pub WatchedIsFine : Option (List String) → Iface → Type 0
  WatchedIsFine interfaces i =
      is_watched interfaces i.name ≡ true → IfaceIsFine modes ethtool i (positive i.speed)

  all_fine :
      (interfaces : Option (List String)) (ifaces : List Iface)
      → AllFine LinkRule.auto (links_of (read_nic_link modes ethtool interfaces ifaces))
        ↔ All (WatchedIsFine interfaces) ifaces
  unfolding read_nic_link links_of
  all_fine interfaces [] = (λ _. tt, λ _. tt)
  all_fine interfaces (i ∷ is) = elim (Bool-cases (is_watched interfaces i.name)) [
    | inl watched ↦
        let own = IsFine-speed i in
        let ih = all_fine interfaces is in
        rw watched (λ (f, fs). (λ _. own.0 f, ih.0 fs), λ (f, fs). (own.1 (f refl), ih.1 fs))
    | inr skipped ↦
        let ih = all_fine interfaces is in
        rw skipped (λ fs. (λ w. absurd (false≢true w), ih.0 fs), λ (f, fs). ih.1 fs)
  ]

  -- Under the automatic rule no link is reported exactly where every watched interface with a speed
  -- is not said to be half duplex and is at least as fast as the lower of what it supports and what its partner
  -- advertises; an interface without a speed, or without a readable partner, is not reported as slow.
  pub auto_links_fine :
      (interfaces : Option (List String)) (ifaces : List Iface)
      → (slow_links LinkRule.auto (links_of (read_nic_link modes ethtool interfaces ifaces)) ≡ [])
        ↔ All (WatchedIsFine interfaces) ifaces
  auto_links_fine interfaces ifaces =
      let quiet =
        slow_links-eq-nil LinkRule.auto
          (links_of (read_nic_link modes ethtool interfaces ifaces)) in
      let fine = all_fine interfaces ifaces in (λ e. fine.0 (quiet.0 e), λ h. quiet.1 (fine.1 h))
