-- ===== src/Transport/Connections.antt =====
-- src/transport_runtime.rs: the mTLS listener. A connection is what its codec yields, one result for
-- each frame; a frame that the codec refuses is `none`. The listener is the sequence of what it
-- accepts and of the connections that end, over the permits of the semaphore; a failing `accept` ends
-- the sequence.
pub mod Replies
mod Tests
use act_api_server_rs.Prelude.{
  ℕ, ◌+◌, ◌-◌, Option, none, some, List, [], ◌∷◌, ltb, leb, in_range, if◌then◌else◌, length, Result,
  ok, err, ◌>>=◌, ◌>>◌, ensure, ok_or,
}
use act_api_server_rs.Text.{txt}
use act_api_server_rs.DataPlane.Frames.{Bytes}
use act_api_server_rs.Transport.Requests.{OperationReply, max_transport_bytes, reply_error}
use act_api_server_rs.Transport.Errors.{TransportError, operation_timeout, transport}

abbrev pub max_tcp_connections : ℕ
max_tcp_connections = 128

-- How the sending of a reply ends, within `OPERATION_TIMEOUT`.
pub data Sending : Type 0 where
  delivered broken late : Sending

module _ (process : Bytes → OperationReply) (to_vec : OperationReply → Option Bytes) where
  -- The reply to one result of the codec.
  pub reply_to : Option Bytes → OperationReply
  reply_to none = reply_error none (txt "invalid_request")
  reply_to (some frame) = process frame

  encode_reply : Option Bytes → Result Bytes TransportError
  unfolding reply_to
  encode_reply frame = do
    encoded ← ok_or (to_vec (reply_to frame)) transport
    ensure (leb (length encoded) max_transport_bytes) transport
    ok encoded

  -- One turn of the loop, and what the rest of the loop does: a reply whose sending fails or does not
  -- end in time is not among those sent.
  turn :
      Result Bytes TransportError
      → Sending
      → Result (Unit {0}) TransportError × List Bytes
      → Result (Unit {0}) TransportError × List Bytes
  turn (err e) sending rest = (err e, [])
  turn (ok encoded) delivered rest = (rest.0, encoded ∷ rest.1)
  turn (ok encoded) broken rest = (err transport, [])
  turn (ok encoded) late rest = (err operation_timeout, [])

  -- The loop of `serve_tls_connection`, with the replies that it sends; each frame comes with how the
  -- sending of its reply will end.
  unfoldable pub serve_frames :
      List (Option Bytes × Sending) → Result (Unit {0}) TransportError × List Bytes
  unfolding encode_reply turn
  serve_frames [] = (ok tt, [])
  serve_frames ((frame, sending) ∷ frames) = turn (encode_reply frame) sending (serve_frames frames)

-- How `TlsAcceptor::accept` ends, within `OPERATION_TIMEOUT`.
pub data Handshake : Type 0 where
  completed failed timed_out : Handshake

-- The outcome that the task of a connection logs, if any.
pub data ConnectionEnd : Type 0 where
  silent connection_closed tls_rejected : ConnectionEnd

end_of : Result (Unit {0}) TransportError × List Bytes → ConnectionEnd × List Bytes
end_of (ok _, replies) = (silent, replies)
end_of (err e, replies) = (connection_closed, replies)

-- The task of one connection: no frame is read before the handshake is done.
unfoldable pub serve_connection :
    (Bytes → OperationReply)
    → (OperationReply → Option Bytes)
    → Handshake
    → List (Option Bytes × Sending)
    → ConnectionEnd × List Bytes
unfolding end_of
serve_connection process to_vec completed frames = end_of (serve_frames process to_vec frames)
serve_connection process to_vec failed frames = (tls_rejected, [])
serve_connection process to_vec timed_out frames = (tls_rejected, [])

-- What happens at the listener of `serve_mtls_tcp`: a stream is accepted, or a connection ends.
pub data ListenerEvent : Type 0 where
  accepted closed : ListenerEvent

-- The open connections, and the streams that were dropped for want of a permit.
pub record Listener : Type 0 where
  pub open_connections : ℕ
  pub rejected : ℕ

abbrev pub idle : Listener
idle = record { open_connections = 0; rejected = 0 }

listen : ℕ → Listener → ListenerEvent → Listener
listen max_connections l accepted =
    if ltb l.open_connections max_connections
    then record l { open_connections = l.open_connections + 1 }
    else record l { rejected = l.rejected + 1 }
listen max_connections l closed = record l { open_connections = l.open_connections - 1 }

listen_all : ℕ → Listener → List ListenerEvent → Listener
unfolding listen
listen_all max_connections l [] = l
listen_all max_connections l (e ∷ events) =
    listen_all max_connections (listen max_connections l e) events

-- `serve_mtls_tcp`: `none` is the refusal of a limit outside the reviewed bound.
unfoldable pub serve_mtls_tcp : ℕ → List ListenerEvent → Option Listener
unfolding listen_all
serve_mtls_tcp max_connections events =
    if in_range 1 max_tcp_connections max_connections
    then some (listen_all max_connections idle events)
    else none
