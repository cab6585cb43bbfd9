-- ===== src/Publisher/Endpoints/Recorded.antt =====
-- Connecting, of cc_mqtt_monitor/publisher.py, hands over no record of a station.
use cc_rms_mqtt_monitor.Base.{
  ◌≡◌, refl, ◌∙◌, Option, none, some, List, [], ◌∷◌, Bool-cases, inl, inr,
}
use cc_rms_mqtt_monitor.Config.{BrokerConfig}
use cc_rms_mqtt_monitor.Publisher.{Publisher, on_connect}
use cc_rms_mqtt_monitor.Publisher.Recorded.{ids, ids-on_connect, ids-clear_renamed_host}
use cc_rms_mqtt_monitor.Publisher.Endpoints.{
  Network, build_client, connect_to, establish, try_fallbacks, connect_by, connect, other_endpoints,
}

ids-connect_to :
    (net : Network) (b : BrokerConfig) (p : Publisher) → ids (connect_to net b p) ≡ ids p
unfolding connect_to
ids-connect_to net b p =
    elim (net.connack b)
      as (λ o. ids (elim o [ none ↦ p | some now ↦ on_connect 0 now p ]) ≡ ids p) [
        | none ↦ refl
        | some now ↦ ids-on_connect 0 now p
      ]

ids-establish : (net : Network) (b : BrokerConfig) (p : Publisher) → ids (establish net b p) ≡ ids p
unfolding establish build_client
ids-establish net b p =
    let q = connect_to net b (build_client p) in
    ids-clear_renamed_host q ∙ ids-connect_to net b (build_client p)

ids-try_fallbacks :
    (net : Network) (bs : List BrokerConfig) (p : Publisher)
    → ids (try_fallbacks net bs p).0 ≡ ids p
unfolding try_fallbacks build_client
ids-try_fallbacks net [] p = refl
ids-try_fallbacks net (b ∷ bs) p = elim (Bool-cases (net.accepts b)) [
  | inl up ↦ rw up (ids-establish net b p)
  | inr down ↦ rw down (ids-try_fallbacks net bs (build_client p))
]

ids-connect_by :
    (net : Network) (o : Option BrokerConfig) (p : Publisher) → ids (connect_by net o p).0 ≡ ids p
unfolding connect_by build_client
ids-connect_by net none p = elim (Bool-cases (net.accepts p.broker)) [
  | inl up ↦ rw up (ids-establish net p.broker p)
  | inr down ↦ rw down (ids-try_fallbacks net (other_endpoints p.broker) (build_client p))
]
ids-connect_by net (some w) p = elim (Bool-cases (net.accepts w)) [
  | inl up ↦ rw up (ids-establish net w p)
  | inr down ↦ rw down refl
]

pub ids-connect : (net : Network) (p : Publisher) → ids (connect net p).0 ≡ ids p
unfolding connect
ids-connect net p = ids-connect_by net p.winning_broker p
