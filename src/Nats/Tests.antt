-- ===== src/Nats/Tests.antt =====
-- The connection and the subscriber of src/nats.rs on concrete answers.
use act_api_server_rs.Prelude.{◌≡◌, refl, none, some, [], ◌∷◌, ok, err}
use act_api_server_rs.Text.{Text, txt}
use act_api_server_rs.Nats.{
  Message, connect, connected, event_received, event_subject, event_subscriber, subscribe_failed,
  subscribed, subscription_ended, unavailable,
}

abbrev message : Message
message = record { subject = txt "act.events.ready"; bytes = 12 }

nats_tests :
    (connect {Client = Text} (ok (txt "client")) ≡ (some (txt "client"), connected ∷ []))
    × (connect {Client = Text} (err (txt "refused")) ≡ (none, unavailable (txt "refused") ∷ []))
    × (event_subscriber (λ subject. ok (message ∷ []))
        ≡ subscribed event_subject ∷ event_received message ∷ subscription_ended ∷ [])
    × (event_subscriber (λ subject. err (txt "closed"))
        ≡ subscribe_failed (txt "closed") event_subject ∷ [])
unfolding connect event_subscriber
nats_tests = (refl, refl, refl, refl)
