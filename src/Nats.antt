-- ===== src/Nats.antt =====
-- src/nats.rs: the optional connection to the broker and the log of its events. `publish_json` is in
-- Routes/Dispatch.antt.
mod Tests
use act_api_server_rs.Prelude.{ℕ, Option, none, some, List, [], ◌∷◌, ◌++◌, map, Result, ok, err}
use act_api_server_rs.Text.{Text, txt}

-- What `spawn_event_subscriber` subscribes to.
abbrev pub event_subject : Text
event_subject = txt "act.events.>"

pub record Message : Type 0 where
  pub subject : Text
  pub bytes : ℕ

-- The records that are logged.
pub data Logged : Type 0 where
  connected : Logged
  unavailable : Text → Logged
  subscribed : Text → Logged
  event_received : Message → Logged
  subscription_ended : Logged
  subscribe_failed : Text → Text → Logged

-- `connect`, on what the client's library answers: a failure leaves no client.
unfoldable pub connect : {Client : Type 0} → Result Client Text → Option Client × List Logged
connect (ok client) = (some client, connected ∷ [])
connect (err e) = (none, unavailable e ∷ [])

-- The task of `spawn_event_subscriber`, on the answer of `subscribe` and the messages that come
-- before the subscription ends.
unfoldable pub event_subscriber : (Text → Result (List Message) Text) → List Logged
event_subscriber subscribe = elim (subscribe event_subject) [
  | ok messages ↦ subscribed event_subject ∷ map event_received messages ++ subscription_ended ∷ []
  | err e ↦ subscribe_failed e event_subject ∷ []
]
