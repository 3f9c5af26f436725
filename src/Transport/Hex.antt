-- ===== src/Transport/Hex.antt =====
-- src/transport_runtime.rs: `encode_hex`, `decode_sha256_hex` and `decode_hex_nibble`.
pub mod RoundTrip
use act_api_server_rs.Prelude.{
  ℕ, ◌+◌, ◌-◌, ◌*◌, ◌/◌, ◌%◌, Bool, not, ◌||◌, [], ◌∷◌, ◌==◌, in_range, if◌then◌else◌, get_or, all,
  Result, ok, err, ◌>>=◌, ◌>>◌,
}
use act_api_server_rs.Text.{Text, txt, byte_len}
use act_api_server_rs.Transport.Errors.{TransportError, unauthorized}
use act_api_server_rs.DataPlane.Frames.{Bytes}

-- `HEX[usize::from(nibble)]`
unfoldable pub hex_digit : ℕ → ℕ
unfolding txt
hex_digit nibble = get_or (txt "0123456789abcdef") nibble 0

-- `encode_hex`
unfoldable pub encode_hex : Bytes → Text
encode_hex [] = []
encode_hex (byte ∷ bytes) = hex_digit (byte / 16) ∷ hex_digit (byte % 16) ∷ encode_hex bytes

-- `decode_hex_nibble`
unfoldable pub decode_hex_nibble : ℕ → Result ℕ TransportError
decode_hex_nibble value =
    if in_range b'0' b'9' value
    then ok (value - b'0')
    else if in_range b'a' b'f' value
    then ok (value - b'a' + 10)
    else if in_range b'A' b'F' value
    then ok (value - b'A' + 10)
    else err unauthorized

-- `u8::is_ascii_hexdigit`
unfoldable pub is_ascii_hexdigit : ℕ → Bool
is_ascii_hexdigit c = in_range b'0' b'9' c || in_range b'a' b'f' c || in_range b'A' b'F' c

-- The loop of `decode_sha256_hex` over pairs; a last single character is left out, as `as_chunks`
-- does. The nibbles are below 16, so `(high << 4) | low` is `high * 16 + low`.
unfoldable pub decode_pairs : Text → Result Bytes TransportError
decode_pairs [] = ok []
decode_pairs (c ∷ []) = ok []
decode_pairs (c ∷ d ∷ s) = do
  high ← decode_hex_nibble c
  low ← decode_hex_nibble d
  rest ← decode_pairs s
  ok ((high * 16 + low) ∷ rest)

-- `decode_sha256_hex`
unfoldable pub decode_sha256_hex : Text → Result Bytes TransportError
decode_sha256_hex value =
    if not (byte_len value == 64) || not (all is_ascii_hexdigit value)
    then err unauthorized
    else decode_pairs value
