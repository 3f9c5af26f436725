-- ===== src/DataPlane/Frames/RoundTrip.antt =====
-- A framed envelope is read back, and nothing else is accepted in its place.
use act_api_server_rs.Prelude.{
  ℕ, ◌+◌, ◌/◌, ◌%◌, ◌≤◌, ◌≡◌, refl, ◌∙◌, Option, some, ◌∷◌, ◌++◌, arith, length, ok, ok_or,
  >>=-eq-ok,
}
use act_api_server_rs.DataPlane.{max_frame_bytes, OperationEnvelope, serialization, invalid_frame}
use act_api_server_rs.DataPlane.Frames.{
  Bytes, to_be_bytes, from_be_bytes, encode_frame, decode_frame, u32_max,
}

prefix_value :
    (n : ℕ)
    → n ≤ u32_max
    → from_be_bytes (n / 16777216 % 256) (n / 65536 % 256) (n / 256 % 256) (n % 256) ≡ n
unfolding from_be_bytes
prefix_value n h = omega arith

module _ (to_vec : OperationEnvelope → Option Bytes)
    (from_slice : Bytes → Option OperationEnvelope) where
  -- The payload of an accepted frame, its bounds, and the frame itself.
  encoded_parts :
      (e : OperationEnvelope) (maximum : ℕ) {frame : Bytes}
      → encode_frame to_vec e maximum ≡ ok frame
      → (payload : Bytes) × (to_vec e ≡ some payload)
        × (length payload ≤ maximum)
        × (maximum ≤ max_frame_bytes)
        × (frame ≡ to_be_bytes (length payload) ++ payload)
  unfolding encode_frame
  encoded_parts e maximum h =
      let (payload, found, rest) = >>=-eq-ok (ok_or (to_vec e) serialization) _ h in
      (payload, ground arith, ground arith, ground arith, ground arith)

  decode_of_encoded :
      (payload : Bytes) (maximum : ℕ)
      → length payload ≤ maximum
      → maximum ≤ max_frame_bytes
      → decode_frame from_slice (to_be_bytes (length payload) ++ payload) maximum
        ≡ ok_or (from_slice payload) invalid_frame
  unfolding decode_frame to_be_bytes
  decode_of_encoded payload maximum h k =
      let small : length payload ≤ u32_max = omega arith in
      rw (prefix_value (length payload) small) (ground arith)

  -- Where the JSON codec reads back what it wrote for an envelope, so does the framing, for every size
  -- limit under which the envelope was encoded; the frame is at most four bytes over the limit.
  pub decode_frame-encode_frame :
      (e : OperationEnvelope) (maximum : ℕ) {frame : Bytes}
      → ((bytes : Bytes) → to_vec e ≡ some bytes → from_slice bytes ≡ some e)
      → encode_frame to_vec e maximum ≡ ok frame
      → (decode_frame from_slice frame maximum ≡ ok e) × (length frame ≤ maximum + 4)
  unfolding to_be_bytes
  decode_frame-encode_frame e maximum {frame} codec h =
      let (payload, written, fits, bounded, same) = encoded_parts e maximum h in
      (
        rw same (decode_of_encoded payload maximum fits bounded ∙ rw (codec payload written) refl),
        rw same (omega arith),
      )

  -- The decoder takes a frame only if its length prefix counts exactly the bytes that follow, these
  -- are within the limit, and the limit is within the protocol's.
  pub decode_frame_exact :
      (a b c d : ℕ) (rest : Bytes) (maximum : ℕ) {e : OperationEnvelope}
      → decode_frame from_slice (a ∷ b ∷ c ∷ d ∷ rest) maximum ≡ ok e
      → (length rest ≡ from_be_bytes a b c d)
        × (length rest ≤ maximum)
        × (maximum ≤ max_frame_bytes)
        × (from_slice rest ≡ some e)
  unfolding decode_frame
  decode_frame_exact a b c d rest maximum h =
      (ground arith, ground arith, ground arith, ground arith)
