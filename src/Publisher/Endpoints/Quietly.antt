-- ===== src/Publisher/Endpoints/Quietly.antt =====
-- Connecting, of cc_mqtt_monitor/publisher.py, with a publisher that does not announce itself.
use cc_rms_mqtt_monitor.Base.{
  ◌≡◌, refl, ◌∙◌, ap, String, Option, none, some, List, [], ◌∷◌, any, Bool-cases, inl, inr,
}
use cc_rms_mqtt_monitor.Config.{BrokerConfig}
use cc_rms_mqtt_monitor.Publisher.{Publisher, on_connect}
use cc_rms_mqtt_monitor.Publisher.Quietly.{Mute, says, on_connect-Mute, clear_renamed_host-Mute}
use cc_rms_mqtt_monitor.Publisher.Endpoints.{
  Network, build_client, connect_to, establish, try_fallbacks, connect_by, connect, other_endpoints,
}

module _ {prefix uid status_uid : String} where
  -- The other fields do not matter.
  with_fields :
      (p q : Publisher)
      → Mute prefix uid status_uid p
      → q.announce ≡ p.announce
      → q.sent ≡ p.sent
      → q.topic_prefix ≡ p.topic_prefix
      → q.host_uid ≡ p.host_uid
      → q.status_uid ≡ p.status_uid
      → Mute prefix uid status_uid q
  with_fields p q h a s t u v = record {
    unannounced = a ∙ h.unannounced;
    tombstones = ap (any says) s ∙ h.tombstones;
    same_prefix = t ∙ h.same_prefix;
    same_uid = u ∙ h.same_uid;
    same_status = v ∙ h.same_status;
  }

  build_client-Mute :
      (p : Publisher) → Mute prefix uid status_uid p → Mute prefix uid status_uid (build_client p)
  unfolding build_client
  build_client-Mute p h = with_fields p (build_client p) h refl refl refl refl refl

  connect_to-Mute :
      (net : Network) (b : BrokerConfig) (p : Publisher)
      → Mute prefix uid status_uid p
      → Mute prefix uid status_uid (connect_to net b p)
  unfolding connect_to
  connect_to-Mute net b p h =
      elim (net.connack b)
        as (λ o. Mute prefix uid status_uid (elim o [ none ↦ p | some now ↦ on_connect 0 now p ])) [
          | none ↦ h
          | some now ↦ on_connect-Mute 0 now p h
        ]

  establish-Mute :
      (net : Network) (b : BrokerConfig) (p : Publisher)
      → Mute prefix uid status_uid p
      → Mute prefix uid status_uid (establish net b p)
  unfolding establish
  establish-Mute net b p h =
      clear_renamed_host-Mute (connect_to net b (build_client p))
        (connect_to-Mute net b (build_client p) (build_client-Mute p h))

  try_fallbacks-Mute :
      (net : Network) (bs : List BrokerConfig) (p : Publisher)
      → Mute prefix uid status_uid p
      → Mute prefix uid status_uid (try_fallbacks net bs p).0
  unfolding try_fallbacks
  try_fallbacks-Mute net [] p h = h
  try_fallbacks-Mute net (b ∷ bs) p h = elim (Bool-cases (net.accepts b)) [
    | inl up ↦
        rw up
          (with_fields (establish net b p) _ (establish-Mute net b p h) refl refl refl refl refl)
    | inr down ↦ rw down (try_fallbacks-Mute net bs (build_client p) (build_client-Mute p h))
  ]

  connect_by-Mute :
      (net : Network) (o : Option BrokerConfig) (p : Publisher)
      → Mute prefix uid status_uid p
      → Mute prefix uid status_uid (connect_by net o p).0
  unfolding connect_by
  connect_by-Mute net none p h = elim (Bool-cases (net.accepts p.broker)) [
    | inl up ↦ rw up (establish-Mute net p.broker p h)
    | inr down ↦
        rw down (
          try_fallbacks-Mute net (other_endpoints p.broker) (build_client p)
            (build_client-Mute p h))
  ]
  connect_by-Mute net (some w) p h = elim (Bool-cases (net.accepts w)) [
    | inl up ↦ rw up (establish-Mute net w p h)
    | inr down ↦ rw down (build_client-Mute p h)
  ]

  pub connect-Mute :
      (net : Network) (p : Publisher)
      → Mute prefix uid status_uid p
      → Mute prefix uid status_uid (connect net p).0
  unfolding connect
  connect-Mute net p h = connect_by-Mute net p.winning_broker p h
