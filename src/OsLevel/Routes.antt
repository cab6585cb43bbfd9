-- ===== src/OsLevel/Routes.antt =====
-- `iface_for_ip` of cc_mqtt_monitor/oslevel.py: the interface that leads to an address.
-- The routes are those of /proc/net/route whose numbers parse, in their order.
use mathlib.Core.Path.{subst}
use cc_rms_mqtt_monitor.Base.{
  ℕ, zero, suc, ◌+◌, ◌*◌, ◌/◌, ◌%◌, ◌≤◌, ◌≡◌, inl, inr, refl, sym, String, Bool, true, false, ◌&&◌,
  Option, none, some, List, [], ◌∷◌, arith, Bool-cases, ltb, leb, ◌==◌, if◌then◌else◌, All,
}

pub record Route : Type 0 where
  pub iface : String
  pub dest : ℕ
  pub mask : ℕ

-- `a & b` on the lowest w bits
unfoldable pub bit_and : ℕ → ℕ → ℕ → ℕ
bit_and zero a b = 0
bit_and (suc w) a b = (a % 2) * (b % 2) + 2 * bit_and w (a / 2) (b / 2)

-- `(ip_le & mask) == dest`
unfoldable pub leads_to : ℕ → Route → Bool
leads_to ip r = bit_and 32 ip r.mask == r.dest

-- `mask > best_mask`, where there is a best one
unfoldable pub is_longer : ℕ → Option Route → Bool
is_longer mask none = true
is_longer mask (some best) = ltb best.mask mask

unfoldable pub best_route : ℕ → Option Route → List Route → Option Route
best_route ip best [] = best
best_route ip best (r ∷ rs) =
    best_route ip (if leads_to ip r && is_longer r.mask best then some r else best) rs

-- the four numbers of a dotted address that parse, none where it is no such address
unfoldable pub address : List ℕ → Option ℕ
address (a ∷ b ∷ c ∷ d ∷ []) =
    if leb a 255 && leb b 255 && leb c 255 && leb d 255
    then some (a + 256 * b + 65536 * c + 16777216 * d)
    else none
address parts = none

unfoldable pub name_of : Option Route → Option String
name_of none = none
name_of (some r) = some r.iface

unfoldable pub route_to : Option ℕ → List Route → Option Route
route_to none routes = none
route_to (some ip) routes = best_route ip none routes

-- `parts` is none where a part of the address is no number
unfoldable pub route_of : Option (List ℕ) → List Route → Option Route
route_of none routes = none
route_of (some parts) routes = route_to (address parts) routes

unfoldable pub iface_for_ip : Option (List ℕ) → List Route → Option String
iface_for_ip parts routes = name_of (route_of parts routes)

AtLeast : Option Route → ℕ → Type 0
AtLeast none m = Unit
AtLeast (some best) m = best.mask ≤ m

Leads : ℕ → Option Route → Type 0
Leads ip none = Unit
Leads ip (some best) = leads_to ip best ≡ true

-- Nothing leads there, or the route found does, with no shorter a mask than any that does.
abbrev pub Longest : ℕ → Option Route → List Route → Type 0
Longest ip none rs = All (λ (r : Route). leads_to ip r ≡ false) rs
Longest ip (some b) rs =
    (leads_to ip b ≡ true) × All (λ (r : Route). leads_to ip r ≡ true → r.mask ≤ b.mask) rs

Reached : ℕ → Option Route → Option Route → Type 0
Reached ip best none = best ≡ none
Reached ip best (some b) = AtLeast best b.mask

Reached-step :
    (ip : ℕ) (best : Option Route) (r : Route) (rs : List Route) (o : Option Route)
    → let next = (if leads_to ip r && is_longer r.mask best then some r else best) in
      Reached ip next o × Longest ip o rs → Reached ip best o × Longest ip o (r ∷ rs)
unfolding Reached AtLeast is_longer
Reached-step ip none r rs none (e, h) = ground (arith, e, h)
Reached-step ip (some b) r rs none (e, h) = ground (arith, e, h)
Reached-step ip none r rs (some o) (e, (l, h)) = ground (arith, e, l, h)
Reached-step ip (some b) r rs (some o) (e, (l, h)) = ground (arith, e, l, h)

Leads-step :
    (ip : ℕ) (best : Option Route) (r : Route)
    → Leads ip best
    → Leads ip (if leads_to ip r && is_longer r.mask best then some r else best)
unfolding Leads
Leads-step ip best r h = elim (Bool-cases (leads_to ip r && is_longer r.mask best)) [
  | inl taken ↦ rw taken (ground (arith, taken))
  | inr kept ↦ rw kept h
]

best_route_lem :
    (ip : ℕ) (rs : List Route) (best : Option Route)
    → Leads ip best
    → Reached ip best (best_route ip best rs) × Longest ip (best_route ip best rs) rs
unfolding best_route Reached AtLeast Leads
best_route_lem ip [] none h = (refl, tt)
best_route_lem ip [] (some b) h = (omega arith, (h, tt))
best_route_lem ip (r ∷ rs) best h =
    let next = (if leads_to ip r && is_longer r.mask best then some r else best) in
    Reached-step ip best r rs (best_route ip next rs)
      (best_route_lem ip rs next (Leads-step ip best r h))

-- For a dotted address of four numbers up to 255, the route that is chosen leads there and no route
-- that does has a longer mask; there is none exactly where no route leads there.
best_route-Longest :
    (parts : List ℕ) (ip : ℕ) (routes : List Route)
    → address parts ≡ some ip
    → Longest ip (route_of (some parts) routes) routes
unfolding route_of route_to Leads
best_route-Longest parts ip routes e =
    subst (λ o. Longest ip (route_to o routes) routes) (sym e) (best_route_lem ip routes none tt).1
