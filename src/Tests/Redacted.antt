-- ===== src/Tests/Redacted.antt =====
-- Redaction of concrete texts.
use cc_rms_mqtt_monitor.Base.{ℕ, String, ◌≡◌, refl, false, Option, some, List, codes, lower, mem}
use cc_rms_mqtt_monitor.Sanitize.{
  Unicode, redact, sub_all, sub, patterns, match_at, in_leads, in_kept, in_tails, replacement,
  first_n, secret_rule, userinfo_rule, user_rule, ipv4_rule, ipv6_rule, home_rule, code_between,
  digit, space, word, hex, folds, any_case, val_char, val, separator, keyword, login_char,
  password_char, name_char,
}
use cc_rms_mqtt_monitor.Sanitize.Homes.{shows_any, redact-home}
use cc_rms_mqtt_monitor.Sanitize.Matching.{
  ends, take_one, each, repeat, is_word_before, is_word_next, is_boundary, literal, at_least_one,
  optional, up_to_3,
}

abbrev ascii : Unicode
ascii = record { is_word = λ c. false; is_digit = λ c. false; is_space = λ c. false }

redacted : String → Option (List ℕ)
unfolding redact sub_all sub patterns match_at in_leads in_kept in_tails replacement first_n
    secret_rule userinfo_rule user_rule ipv4_rule ipv6_rule home_rule code_between digit space word
    hex folds any_case val_char val separator keyword login_char password_char name_char ends
    take_one each repeat is_word_before is_word_next is_boundary literal at_least_one optional
    up_to_3 codes lower mem
redacted t = redact ascii (some (codes t))

address_redacted :
    redacted "rtsp://admin:pw@10.0.0.1:554/user=admin&password=x"
    ≡ some (codes "rtsp://***@<ip>:554/user=***&password=***")
unfolding redacted
address_redacted = refl

keys_redacted :
    redacted "DB_PASSWORD: hunter2; api-key=0; author=me at fe80:1:2:3:4 in /home/bob/x"
    ≡ some (codes "DB_PASSWORD: ***; api-key=***; author=me at <ip6> in ~/x")
unfolding redacted
keys_redacted = refl

-- A quotation mark before the value hides it from the pattern.
quoted_shown : redacted "password='hunter2'" ≡ some (codes "password='hunter2'")
unfolding redacted
quoted_shown = refl

-- A second run changes the result of the first.
twice_differs :
    (redacted "/home//home/bob" ≡ some (codes "/home/~")) × (redacted "/home/~" ≡ some (codes "~"))
unfolding redacted
twice_differs = (refl, refl)

redact-home_example :
    shows_any ascii (redact ascii (some (codes "open /home/bob/RMS_data failed"))) ≡ false
redact-home_example = redact-home ascii (some (codes "open /home/bob/RMS_data failed"))

-- A compressed address has too few groups for the pattern.
short_ip6_shown : redacted "from fe80::1" ≡ some (codes "from fe80::1")
unfolding redacted
short_ip6_shown = refl
