-- ===== src/DataPlane/Frames.antt =====
-- src/web_data_plane.rs: `encode_frame` and `decode_frame`. A byte is a number below 256; the JSON
-- codec of the envelope is a parameter.
pub mod RoundTrip
use act_api_server_rs.Prelude.{
  ℕ, ◌+◌, ◌*◌, ◌/◌, ◌%◌, not, ◌||◌, Option, List, [], ◌∷◌, ◌++◌, ltb, leb, ◌==◌, length, Result, ok,
  err, ◌>>=◌, ◌>>◌, ensure, ok_or,
}
use act_api_server_rs.DataPlane.{
  max_frame_bytes, OperationEnvelope, DataPlaneError, payload_too_large, serialization,
  invalid_frame,
}

abbrev pub Bytes : Type 0
Bytes = List ℕ

abbrev u32_max : ℕ
u32_max = 0xffffffff

-- `u32::to_be_bytes`
unfoldable pub to_be_bytes : ℕ → Bytes
to_be_bytes n = (n / 16777216 % 256) ∷ (n / 65536 % 256) ∷ (n / 256 % 256) ∷ (n % 256) ∷ []

-- `u32::from_be_bytes`
unfoldable pub from_be_bytes : ℕ → ℕ → ℕ → ℕ → ℕ
from_be_bytes a b c d = ((a * 256 + b) * 256 + c) * 256 + d

-- `encode_frame`
unfoldable pub encode_frame :
    (OperationEnvelope → Option Bytes) → OperationEnvelope → ℕ → Result Bytes DataPlaneError
encode_frame to_vec envelope maximum = do
  payload ← ok_or (to_vec envelope) serialization
  ensure (not (ltb maximum (length payload) || ltb max_frame_bytes maximum)) payload_too_large
  ensure (leb (length payload) u32_max) payload_too_large
  ok (to_be_bytes (length payload) ++ payload)

-- `decode_frame`, once the prefix is read: `frame` is what follows it.
decode_payload :
    (Bytes → Option OperationEnvelope) → ℕ → Bytes → ℕ → Result OperationEnvelope DataPlaneError
decode_payload from_slice size rest maximum = do
  ensure
      (not (ltb maximum size || (ltb max_frame_bytes maximum || not (length rest + 4 == size + 4))))
      invalid_frame
  ok_or (from_slice rest) invalid_frame

-- `decode_frame`
unfoldable pub decode_frame :
    (Bytes → Option OperationEnvelope) → Bytes → ℕ → Result OperationEnvelope DataPlaneError
unfolding decode_payload
decode_frame from_slice (a ∷ b ∷ c ∷ d ∷ rest) maximum =
    decode_payload from_slice (from_be_bytes a b c d) rest maximum
decode_frame from_slice _ maximum = err invalid_frame
