-- ===== src/Cli/Alerts.antt =====
-- What a broker keeps after `--test` of cc_mqtt_monitor/__main__.py.
use cc_rms_mqtt_monitor.Base.{◌≡◌, refl, ap, String, true, false, List, ◌∷◌}
use cc_rms_mqtt_monitor.Config.{Config}
use cc_rms_mqtt_monitor.StateFiles.{Cell}
use cc_rms_mqtt_monitor.Health.Metrics.{StationMetrics}
use cc_rms_mqtt_monitor.Health.State.{State}
use cc_rms_mqtt_monitor.Publisher.{
  Publisher, station_record, publish, publish_test, flush, send, disconnect, close_client,
  state_topic,
}
use cc_rms_mqtt_monitor.Publisher.Endpoints.{Network, connect}
use cc_rms_mqtt_monitor.Publisher.Endpoints.Quietly.{connect-Mute}
use cc_rms_mqtt_monitor.Cli.{new_publisher, connected_then, send_test}
use cc_rms_mqtt_monitor.Cli.Unpublish.{retained, opened_quietly, new-Mute}

alert_sent :
    (sid : String) (alert : State StationMetrics) (p : Publisher)
    → p.announce ≡ false
    → p.connected ≡ true
    → (disconnect (publish_test sid alert p)).sent
      ≡ record { topic = state_topic p sid; payload = station_record alert; retain = false }
        ∷ p.sent
unfolding disconnect publish_test publish send flush close_client
alert_sent sid alert p mute up = rw (up, mute) refl

-- Where the run connects and its link is up, the alert is the one message after those of the connection, and
-- the broker keeps what it kept before it.
pub send_test-retained :
    (c : Config) (files : List (Cell String)) (net : Network) (sid : String)
    → (alert : State StationMetrics) (t : String)
    → let q = opened_quietly c files net in
      let p = (send_test sid alert net (new_publisher c false files)).0 in
      (connect net (new_publisher c false files)).1 ≡ true
      → q.connected ≡ true
      → (p.sent
          ≡ record { topic = state_topic q sid; payload = station_record alert; retain = false }
            ∷ q.sent)
        × (retained t p.sent ≡ retained t q.sent)
unfolding send_test connected_then retained
send_test-retained c files net sid alert t found up =
    let h = connect-Mute net (new_publisher c false files) (new-Mute c files) in
    let e = alert_sent sid alert (opened_quietly c files net) h.unannounced up in
    rw found (e, ap (retained t) e)
