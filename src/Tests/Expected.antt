-- ===== src/Tests/Expected.antt =====
-- The choice of an endpoint, on concrete inputs.
use cc_rms_mqtt_monitor.Base.{◌≡◌, some}
use cc_rms_mqtt_monitor.Config.{BrokerConfig}
use cc_rms_mqtt_monitor.Publisher.Endpoints.{
  Network, connect, is_reachable, remembered, connect-first_accepting,
}
use cc_rms_mqtt_monitor.Tests.Brokers.{renamed_host}

-- only endpoints with TLS accept
abbrev walled : Network
walled = record { accepts = λ (b : BrokerConfig). b.tls; connack = λ b. some 1000 }

connect-first_accepting_example :
    ((connect walled renamed_host).1 ≡ is_reachable walled renamed_host renamed_host.winning_broker)
    × ((connect walled renamed_host).0.winning_broker
        ≡ remembered walled renamed_host renamed_host.winning_broker)
connect-first_accepting_example = connect-first_accepting walled renamed_host
