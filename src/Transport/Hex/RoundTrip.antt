-- ===== src/Transport/Hex/RoundTrip.antt =====
-- Hexadecimal digests are read back.
use act_api_server_rs.Prelude.{
  ℕ, ◌+◌, ◌*◌, ◌/◌, ◌%◌, ◌<◌, ◌≡◌, refl, ap, Bool, true, false, ◌&&◌, [], ◌∷◌, arith, ◌==◌, ==_iff,
  length, all_below, all_below_sound, all, All, Result, ok, err, >>=-eq-ok,
}
use act_api_server_rs.Text.{Text, byte_len}
use act_api_server_rs.Transport.Errors.{TransportError}
use act_api_server_rs.DataPlane.Frames.{Bytes}
use act_api_server_rs.Transport.Hex.{
  hex_digit, encode_hex, decode_hex_nibble, is_ascii_hexdigit, decode_pairs, decode_sha256_hex,
}

abbrev is_value : Result ℕ TransportError → ℕ → Bool
is_value (ok m) n = m == n
is_value (err e) n = false

value_of_test : (r : Result ℕ TransportError) (n : ℕ) → is_value r n ≡ true → r ≡ ok n
value_of_test (ok m) n h = ap ok ((==_iff m n).0 h)
value_of_test (err e) n h = cc

abbrev digit_test : ℕ → Bool
digit_test n =
    is_value (decode_hex_nibble (hex_digit n)) n
    && is_ascii_hexdigit (hex_digit n)
    && byte_len (hex_digit n ∷ []) == 1

digit_table : all_below 16 digit_test ≡ true
unfolding all_below decode_hex_nibble hex_digit is_ascii_hexdigit byte_len
digit_table = refl

digit_facts : (n : ℕ) → n < 16 → digit_test n ≡ true
digit_facts n h = all_below_sound 16 digit_test n digit_table h

decode-hex_digit : (n : ℕ) → n < 16 → decode_hex_nibble (hex_digit n) ≡ ok n
decode-hex_digit n h = value_of_test _ n (ground (arith, digit_facts n h))

hex_digit_ascii : (n : ℕ) → n < 16 → is_ascii_hexdigit (hex_digit n) ≡ true
hex_digit_ascii n h = ground (arith, digit_facts n h)

byte_len-cons : (c : ℕ) (s : Text) → byte_len (c ∷ s) ≡ byte_len (c ∷ []) + byte_len s
unfolding byte_len
byte_len-cons c s = omega arith

hex_digit_width : (n : ℕ) (s : Text) → n < 16 → byte_len (hex_digit n ∷ s) ≡ 1 + byte_len s
hex_digit_width n s h =
    let one : byte_len (hex_digit n ∷ []) ≡ 1 = ground (arith, digit_facts n h) in
    omega (arith, one, byte_len-cons (hex_digit n) s)

abbrev pub IsBytes : Bytes → Type 0
IsBytes = All (λ b. b < 256)

pub decode_pairs-encode_hex :
    (bytes : Bytes) → IsBytes bytes → decode_pairs (encode_hex bytes) ≡ ok bytes
unfolding decode_pairs encode_hex
decode_pairs-encode_hex [] h = refl
decode_pairs-encode_hex (b ∷ bytes) (lt, h) =
    rw
      (
        decode-hex_digit (b / 16) (omega arith),
        decode-hex_digit (b % 16) (omega arith),
        decode_pairs-encode_hex bytes h,
      )
      (ap (λ (n : ℕ). ok (n ∷ bytes)) (omega arith))

pub encode_hex_ascii :
    (bytes : Bytes) → IsBytes bytes → all is_ascii_hexdigit (encode_hex bytes) ≡ true
unfolding encode_hex
encode_hex_ascii [] h = refl
encode_hex_ascii (b ∷ bytes) (lt, h) = rw (
  hex_digit_ascii (b / 16) (omega arith),
  hex_digit_ascii (b % 16) (omega arith),
  encode_hex_ascii bytes h,
)

pub byte_len-encode_hex :
    (bytes : Bytes) → IsBytes bytes → byte_len (encode_hex bytes) ≡ 2 * length bytes
unfolding encode_hex
byte_len-encode_hex [] h = unfold byte_len in refl
byte_len-encode_hex (b ∷ bytes) (lt, h) = omega (
  arith,
  hex_digit_width (b / 16) (hex_digit (b % 16) ∷ encode_hex bytes) (omega arith),
  hex_digit_width (b % 16) (encode_hex bytes) (omega arith),
  byte_len-encode_hex bytes h,
)

-- A digest of 32 bytes is read back from its hexadecimal form.
pub decode_sha256_hex-encode_hex :
    (bytes : Bytes)
    → IsBytes bytes
    → length bytes ≡ 32
    → decode_sha256_hex (encode_hex bytes) ≡ ok bytes
unfolding decode_sha256_hex
decode_sha256_hex-encode_hex bytes h n =
    let wide : byte_len (encode_hex bytes) ≡ 64 = omega (arith, byte_len-encode_hex bytes h) in
    rw (wide, encode_hex_ascii bytes h) (decode_pairs-encode_hex bytes h)

nibble_bound : (c : ℕ) {n : ℕ} → decode_hex_nibble c ≡ ok n → n < 16
unfolding decode_hex_nibble
nibble_bound c h = ground arith

pub decode_pairs_bytes : (s : Text) {bytes : Bytes} → decode_pairs s ≡ ok bytes → IsBytes bytes
unfolding decode_pairs
decode_pairs_bytes [] {bytes} h = let same : bytes ≡ [] = cc in rw same tt
decode_pairs_bytes (c ∷ []) {bytes} h = let same : bytes ≡ [] = cc in rw same tt
decode_pairs_bytes (c ∷ d ∷ s) {bytes} h =
    let (high, p, h') = >>=-eq-ok (decode_hex_nibble c) _ h in
    let (low, q, h'') = >>=-eq-ok (decode_hex_nibble d) _ h' in
    let (rest, r, h''') = >>=-eq-ok (decode_pairs s) _ h'' in
    let same : bytes ≡ (high * 16 + low) ∷ rest = cc in
    rw same (omega (arith, nibble_bound c p, nibble_bound d q), decode_pairs_bytes s r)
