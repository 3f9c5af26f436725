-- ===== src/Transport/Connections/Tests.antt =====
-- Concrete connections for the mTLS listener of src/transport_runtime.rs.
use act_api_server_rs.Prelude.{◌≤◌, ◌≡◌, ◌≢◌, ◌⊎◌, refl, Option, none, some, List, [], ◌∷◌, ok, err}
use act_api_server_rs.Transport.Connections.Replies.{
  Answers, serve_connection-Answers, serve_mtls_tcp_bounded,
}
use act_api_server_rs.DataPlane.Frames.{Bytes}
use act_api_server_rs.Transport.Connections.{
  completed, connection_closed, serve_connection, silent, timed_out, tls_rejected, ConnectionEnd,
  Listener, ListenerEvent, Sending, accepted, broken, closed, delivered, late, max_tcp_connections,
  serve_frames, serve_mtls_tcp,
}
use act_api_server_rs.Transport.Requests.{OperationReply, reply_ok}
use act_api_server_rs.Json.{null}
use act_api_server_rs.Transport.Errors.{operation_timeout, transport}

abbrev process : Bytes → OperationReply
process frame = reply_ok frame null

abbrev to_vec : OperationReply → Option Bytes
to_vec reply = reply.operation_id

connections : Unit {0}
unfolding serve_frames serve_connection serve_mtls_tcp
connections = tt

abbrev frames : List (Option Bytes × Sending)
frames = (some (1 ∷ []), delivered) ∷ (some (2 ∷ []), delivered) ∷ []

connection_tests :
    (serve_frames process to_vec frames ≡ (ok tt, (1 ∷ []) ∷ (2 ∷ []) ∷ []))
    × (serve_frames process to_vec ((none, delivered) ∷ frames) ≡ (err transport, []))
    × (serve_frames process to_vec ((some (3 ∷ []), late) ∷ frames) ≡ (err operation_timeout, []))
unfolding connections
connection_tests = (refl, refl, refl)

abbrev events : List ListenerEvent
events = accepted ∷ accepted ∷ accepted ∷ closed ∷ accepted ∷ []

abbrev after_events : Listener
after_events = record { open_connections = 2; rejected = 1 }

events_served : serve_mtls_tcp 2 events ≡ some after_events
unfolding connections
events_served = refl

listener_tests : (serve_mtls_tcp 0 events ≡ none) × (serve_mtls_tcp 129 events ≡ none)
unfolding connections
listener_tests = (refl, refl)

serve_connection_tests :
    (serve_connection process to_vec completed frames ≡ (silent, (1 ∷ []) ∷ (2 ∷ []) ∷ []))
    × (serve_connection process to_vec completed ((none, delivered) ∷ frames)
        ≡ (connection_closed, []))
    × (serve_connection process to_vec timed_out frames ≡ (tls_rejected, []))
unfolding connections
serve_connection_tests = (refl, refl, refl)

-- The second reply is not delivered, so the third frame is not read.
abbrev interrupted : List (Option Bytes × Sending)
interrupted = (some (1 ∷ []), delivered) ∷ (some (2 ∷ []), broken) ∷ (some (3 ∷ []), delivered) ∷ []

interrupted_test :
    serve_connection process to_vec completed interrupted ≡ (connection_closed, (1 ∷ []) ∷ [])
unfolding connections
interrupted_test = refl

abbrev served : ConnectionEnd × List Bytes
served = serve_connection process to_vec completed interrupted

serve_connection-Answers_example :
    ((completed ≡ completed) × Answers process to_vec interrupted served.1 served.0)
    ⊎ ((completed ≢ completed) × (served ≡ (tls_rejected, [])))
serve_connection-Answers_example = serve_connection-Answers process to_vec completed interrupted

serve_mtls_tcp_bounded_example : (1 ≤ 2) × (2 ≤ max_tcp_connections) × (2 ≤ 2)
serve_mtls_tcp_bounded_example = serve_mtls_tcp_bounded 2 events events_served
