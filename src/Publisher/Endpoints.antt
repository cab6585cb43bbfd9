-- ===== src/Publisher/Endpoints.antt =====
-- `connect` and `_fallback_brokers` of cc_mqtt_monitor/publisher.py: which endpoint is used.
-- Whether an endpoint accepts a connection, and when its CONNACK arrives within the wait, if it
-- does, are inputs.
pub mod Recorded
pub mod Quietly
use cc_rms_mqtt_monitor.Base.{
  ℕ, ◌≡◌, ◌∙◌, refl, ap, Bool, true, false, ◌&&◌, Option, none, some, List, [], ◌∷◌, map,
  if◌then◌else◌, or_else, String, is_some, str_eq, arith, Bool-cases, inl, inr,
}
use cc_rms_mqtt_monitor.Config.{BrokerConfig, Fallback}
use cc_rms_mqtt_monitor.Publisher.{
  Publisher, on_connect, clear_renamed_host, clear_name, record_name, renamed, previous_name, send,
}

pub record Network : Type 0 where
  pub accepts : BrokerConfig → Bool
  pub connack : BrokerConfig → Option ℕ

unfoldable pub fallback_broker : BrokerConfig → Fallback → BrokerConfig
fallback_broker b f = record b {
  transport = or_else f.transport "tcp";
  port = f.port;
  tls = or_else f.tls false;
  ws_path = or_else f.ws_path b.ws_path;
}

unfoldable pub fallback_brokers : BrokerConfig → List BrokerConfig
fallback_brokers b = map (fallback_broker b) (or_else b.fallbacks [])

-- the endpoints after the primary one
unfoldable pub other_endpoints : BrokerConfig → List BrokerConfig
other_endpoints b = if b.auto_fallback && str_eq b.transport "tcp" then fallback_brokers b else []

-- `_build_client`: a new client starts disconnected
unfoldable pub build_client : Publisher → Publisher
build_client p = record p { connected = false }

-- `_connect_to` where the endpoint accepts
unfoldable pub connect_to : Network → BrokerConfig → Publisher → Publisher
connect_to net b p = elim (net.connack b) [ none ↦ p | some now ↦ on_connect 0 now p ]

-- a new client that is connected, with its tombstones of an old name
unfoldable pub establish : Network → BrokerConfig → Publisher → Publisher
unfolding connect_to build_client
establish net b p = clear_renamed_host (connect_to net b (build_client p))

-- the loop over the endpoints after the primary one
unfoldable pub try_fallbacks : Network → List BrokerConfig → Publisher → Publisher × Bool
try_fallbacks net [] p = (p, false)
try_fallbacks net (b ∷ bs) p =
    let rest = try_fallbacks net bs (build_client p) in
    if net.accepts b then (record (establish net b p) { winning_broker = some b }, true) else rest

unfoldable pub connect_by : Network → Option BrokerConfig → Publisher → Publisher × Bool
unfolding try_fallbacks
connect_by net (some b) p =
    if net.accepts b then (establish net b p, true) else (build_client p, false)
connect_by net none p =
    if net.accepts p.broker
    then (establish net p.broker p, true)
    else try_fallbacks net (other_endpoints p.broker) (build_client p)

-- The Boolean says that an endpoint was found; without one the source raises.
unfoldable pub connect : Network → Publisher → Publisher × Bool
unfolding connect_by
connect net p = connect_by net p.winning_broker p

-- the first endpoint that accepts
unfoldable pub first_accepting : Network → List BrokerConfig → Option BrokerConfig
first_accepting net [] = none
first_accepting net (b ∷ bs) = if net.accepts b then some b else first_accepting net bs

abbrev or_winner : Option BrokerConfig → Option BrokerConfig → Option BrokerConfig
or_winner none w = w
or_winner (some b) w = some b

winner-renamed :
    (o : Option String) (p : Publisher) → (renamed o p).winning_broker ≡ p.winning_broker
unfolding renamed record_name clear_name send
winner-renamed none p = refl
winner-renamed (some prev) p = ground arith

winner-connect_to :
    (net : Network) (b : BrokerConfig) (p : Publisher)
    → (connect_to net b p).winning_broker ≡ p.winning_broker
unfolding connect_to on_connect send
winner-connect_to net b p = ground arith

winner-establish :
    (net : Network) (b : BrokerConfig) (p : Publisher)
    → (establish net b p).winning_broker ≡ p.winning_broker
unfolding establish build_client clear_renamed_host
winner-establish net b p =
    let q = connect_to net b (build_client p) in
    winner-renamed (previous_name q) q ∙ winner-connect_to net b (build_client p)

fallbacks_result :
    (net : Network) (bs : List BrokerConfig) (p : Publisher)
    → let (p', found) = try_fallbacks net bs p in
      (found ≡ is_some (first_accepting net bs))
      × (p'.winning_broker ≡ or_winner (first_accepting net bs) p.winning_broker)
unfolding try_fallbacks first_accepting build_client
fallbacks_result net [] p = (refl, refl)
fallbacks_result net (b ∷ bs) p = elim (Bool-cases (net.accepts b)) [
  | inl up ↦ rw up (refl, refl)
  | inr down ↦ rw down (fallbacks_result net bs (build_client p))
]

or_winner-none : (o : Option BrokerConfig) → or_winner o none ≡ o
or_winner-none none = refl
or_winner-none (some b) = refl

-- whether there is an endpoint, by the one that won before
abbrev pub is_reachable : Network → Publisher → Option BrokerConfig → Bool
is_reachable net p none = is_some (first_accepting net (p.broker ∷ other_endpoints p.broker))
is_reachable net p (some w) = net.accepts w

-- the endpoint that is remembered, by the one that won before
abbrev pub remembered : Network → Publisher → Option BrokerConfig → Option BrokerConfig
remembered net p none =
    if net.accepts p.broker then none else first_accepting net (other_endpoints p.broker)
remembered net p (some w) = some w

connect_by_result :
    (net : Network) (o : Option BrokerConfig) (p : Publisher)
    → p.winning_broker ≡ o
    → ((connect_by net o p).1 ≡ is_reachable net p o)
      × ((connect_by net o p).0.winning_broker ≡ remembered net p o)
unfolding connect_by first_accepting build_client
connect_by_result net none p e = elim (Bool-cases (net.accepts p.broker)) [
  | inl up ↦ rw up (refl, winner-establish net p.broker p ∙ e)
  | inr down ↦
      let (found, won) = fallbacks_result net (other_endpoints p.broker) (build_client p) in
      rw down (
        found,
        won ∙ ap (or_winner (first_accepting net (other_endpoints p.broker))) e ∙ or_winner-none _,
      )
]
connect_by_result net (some w) p e = elim (Bool-cases (net.accepts w)) [
  | inl up ↦ rw up (refl, winner-establish net w p ∙ e)
  | inr down ↦ rw down (refl, e)
]

-- Without an endpoint that won before, connecting succeeds exactly where the primary endpoint or
-- one of the others accepts; the first of the others that accepts, in their order, is remembered,
-- unless the primary one does. With one that won, that one alone decides, and it stays.
pub connect-first_accepting :
    (net : Network) (p : Publisher)
    → ((connect net p).1 ≡ is_reachable net p p.winning_broker)
      × ((connect net p).0.winning_broker ≡ remembered net p p.winning_broker)
unfolding connect
connect-first_accepting net p = connect_by_result net p.winning_broker p refl
