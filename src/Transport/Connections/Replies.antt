-- ===== src/Transport/Connections/Replies.antt =====
-- What the mTLS listener of src/transport_runtime.rs sends and how much it holds open.
use act_api_server_rs.Transport.Connections.{
  completed, failed, timed_out, Handshake, end_of, silent, connection_closed, tls_rejected,
  ConnectionEnd, serve_connection, turn, Listener, ListenerEvent, Sending, accepted, broken, closed,
  delivered, encode_reply, idle, late, listen, listen_all, max_tcp_connections, reply_to,
  serve_frames, serve_mtls_tcp,
}
use act_api_server_rs.Prelude.{
  ℕ, ◌≤◌, ◌≡◌, ◌≢◌, true, ◌⊎◌, refl, ap, ◌∙◌, subst, inl, inr, Option, some, List, [], ◌∷◌, arith,
  leb, in_range, in_range_iff, Bool-cases, length, Result, ok, err, ensure, ok_or, >>=-eq-ok,
  ensure-eq-ok, ok-injective, ok_or-eq-ok,
}
use act_api_server_rs.DataPlane.Frames.{Bytes}
use act_api_server_rs.Transport.Requests.{OperationReply, max_transport_bytes}
use act_api_server_rs.Transport.Errors.{TransportError, transport}
use mathlib.Core.Option.{some-injective}

module _ (process : Bytes → OperationReply) (to_vec : OperationReply → Option Bytes) where
  encode_reply_small :
      (frame : Option Bytes) {encoded : Bytes}
      → encode_reply process to_vec frame ≡ ok encoded
      → (to_vec (reply_to process to_vec frame) ≡ some encoded)
        × (length encoded ≤ max_transport_bytes)
  unfolding encode_reply
  encode_reply_small frame {encoded} h =
      let (bytes, p, h₁) =
        >>=-eq-ok (ok_or (to_vec (reply_to process to_vec frame)) transport) _ h in
      let (u, q, h₂) = >>=-eq-ok (ensure (leb (length bytes) max_transport_bytes) transport) _ h₁ in
      let same : bytes ≡ encoded = ok-injective bytes encoded h₂ in
      (
        ok_or-eq-ok (to_vec (reply_to process to_vec frame)) transport p ∙ ap some same,
        subst (λ b. length b ≤ max_transport_bytes) same (ground (arith, ensure-eq-ok _ _ q)),
      )

  -- A reply of the connection to a frame: encoded, and within the limit of a frame.
  abbrev pub IsReply : Option Bytes → Bytes → Type 0
  IsReply frame encoded =
      (to_vec (reply_to process to_vec frame) ≡ some encoded)
      × (length encoded ≤ max_transport_bytes)

  encode_reply-of_IsReply :
      (frame : Option Bytes) {encoded : Bytes}
      → IsReply frame encoded
      → encode_reply process to_vec frame ≡ ok encoded
  unfolding encode_reply
  encode_reply-of_IsReply frame {encoded} (made, small) =
      let fits : leb (length encoded) max_transport_bytes ≡ true = ground arith in
      rw (made, fits) refl

  -- The replies that answer a sequence of frames, and how the connection then ends: each frame in
  -- order has one reply, up to the first that has no reply within the limit or whose reply is not
  -- delivered, and only the end of the frames ends it without a warning.
  pub data Answers : List (Option Bytes × Sending) → List Bytes → ConnectionEnd → Type 0 where
    finished : Answers [] [] silent
    refused :
        (frame : Option Bytes) (sending : Sending) (frames : List (Option Bytes × Sending))
        → ((encoded : Bytes) → ¬ IsReply frame encoded)
        → Answers ((frame, sending) ∷ frames) [] connection_closed
    undelivered :
        (frame : Option Bytes) (sending : Sending) (frames : List (Option Bytes × Sending))
        → sending ≢ delivered
        → Answers ((frame, sending) ∷ frames) [] connection_closed
    answers :
        (frame : Option Bytes) (frames : List (Option Bytes × Sending)) (encoded : Bytes)
        (replies : List Bytes) (end : ConnectionEnd)
        → IsReply frame encoded
        → Answers frames replies end
        → Answers ((frame, delivered) ∷ frames) (encoded ∷ replies) end

  turn-Answers :
      (frame : Option Bytes) (s : Sending) (frames : List (Option Bytes × Sending))
      (r : Result Bytes TransportError) (rest : Result (Unit {0}) TransportError × List Bytes)
      → encode_reply process to_vec frame ≡ r
      → Answers frames (end_of rest).1 (end_of rest).0
      → Answers
          ((frame, s) ∷ frames)
          (end_of (turn process to_vec r s rest)).1
          (end_of (turn process to_vec r s rest)).0
  unfolding turn end_of
  turn-Answers frame s frames (err e) rest h ih =
      refused frame s frames (λ encoded reply. let e = encode_reply-of_IsReply frame reply in cc)
  turn-Answers frame delivered frames (ok encoded) (ok u, replies) h ih =
      answers frame frames encoded replies silent (encode_reply_small frame h) ih
  turn-Answers frame delivered frames (ok encoded) (err e, replies) h ih =
      answers frame frames encoded replies connection_closed (encode_reply_small frame h) ih
  turn-Answers frame broken frames (ok encoded) rest h ih =
      undelivered frame broken frames (λ e. cc)
  turn-Answers frame late frames (ok encoded) rest h ih = undelivered frame late frames (λ e. cc)

  serve_frames-Answers :
      (frames : List (Option Bytes × Sending))
      → Answers frames
          (end_of (serve_frames process to_vec frames)).1
          (end_of (serve_frames process to_vec frames)).0
  unfolding serve_frames end_of
  serve_frames-Answers [] = finished
  serve_frames-Answers ((frame, sending) ∷ frames) =
      turn-Answers frame sending frames (encode_reply process to_vec frame)
        (serve_frames process to_vec frames) refl (serve_frames-Answers frames)

module _ (process : Bytes → OperationReply) (to_vec : OperationReply → Option Bytes) where
  -- A connection reads no frame before its handshake is done, and is then rejected without a reply.
  -- After the handshake its frames are answered in order, each with one encoded reply within the
  -- limit of a frame, exactly up to the first frame that has no such reply or whose reply is not
  -- delivered; there the connection is closed with a warning, and it ends silently only when
  -- every frame has been answered.
  pub serve_connection-Answers :
      (handshake : Handshake) (frames : List (Option Bytes × Sending))
      → let run = serve_connection process to_vec handshake frames in
        ((handshake ≡ completed) × Answers process to_vec frames run.1 run.0)
        ⊎ ((handshake ≢ completed) × (run ≡ (tls_rejected, [])))
  unfolding serve_connection
  serve_connection-Answers completed frames = inl (refl, serve_frames-Answers process to_vec frames)
  serve_connection-Answers failed frames = inr (λ h. cc, refl)
  serve_connection-Answers timed_out frames = inr (λ h. cc, refl)

bounded_step :
    (limit : ℕ) (l : Listener) (e : ListenerEvent)
    → l.open_connections ≤ limit
    → (listen limit l e).open_connections ≤ limit
unfolding listen
bounded_step limit l accepted h = ground arith
bounded_step limit l closed h = omega arith

bounded :
    (limit : ℕ) (l : Listener) (events : List ListenerEvent)
    → l.open_connections ≤ limit
    → (listen_all limit l events).open_connections ≤ limit
unfolding listen_all
bounded limit l [] h = h
bounded limit l (e ∷ events) h = bounded limit (listen limit l e) events (bounded_step limit l e h)

-- The listener serves only under a limit of 1 to 128 connections, and whatever is accepted and
-- closed, it never holds more connections open than that limit.
pub serve_mtls_tcp_bounded :
    (limit : ℕ) (events : List ListenerEvent) {l : Listener}
    → serve_mtls_tcp limit events ≡ some l
    → (1 ≤ limit) × (limit ≤ max_tcp_connections) × (l.open_connections ≤ limit)
unfolding serve_mtls_tcp
serve_mtls_tcp_bounded limit events {l} h =
    elim (Bool-cases (in_range 1 max_tcp_connections limit)) [
      | inl good ↦
          let same : listen_all limit idle events ≡ l = some-injective _ l (ground (arith, good)) in
          let range = (in_range_iff 1 max_tcp_connections limit).0 good in
          (
            range.0,
            range.1,
            subst (λ (x : Listener). x.open_connections ≤ limit) same
                (bounded limit idle events (omega arith)),
          )
      | inr bad ↦ absurd (ground (arith, bad))
    ]
