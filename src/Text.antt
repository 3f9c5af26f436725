-- ===== src/Text.antt =====
-- Rust's `str` as the list of its code points, with the operations of the standard library that
-- the program uses. `byte_len` is `str::len`, the length of the UTF-8 encoding.
pub mod Laws
pub mod Digits
use Prim.Native.Char.{code}
use act_api_server_rs.Prelude.{
  ℕ, zero, suc, ◌+◌, ◌-◌, ◌*◌, ◌/◌, ◌%◌, String, Bool, true, false, ◌&&◌, ◌||◌, Option, none, some,
  List, [], ◌∷◌, map, reverse, ltb, leb, ◌==◌, in_range, if◌then◌else◌,
}

abbrev pub Text : Type 0
Text = List ℕ

-- A literal. It stays shut, so that proofs do not walk through its characters.
unfoldable pub txt : String → Text
txt String.[] = []
txt (String.◌∷◌ c s) = code c ∷ txt s

unfoldable pub text_eq : Text → Text → Bool
text_eq [] [] = true
text_eq [] (b ∷ bs) = false
text_eq (a ∷ as') [] = false
text_eq (a ∷ as') (b ∷ bs) = a == b && text_eq as' bs

abbrev pub is_empty : Text → Bool
is_empty [] = true
is_empty (c ∷ s) = false

utf8_width : ℕ → ℕ
utf8_width c = if ltb c 0x80 then 1 else if ltb c 0x800 then 2 else if ltb c 0x10000 then 3 else 4

unfoldable pub byte_len : Text → ℕ
unfolding utf8_width
byte_len [] = 0
byte_len (c ∷ s) = utf8_width c + byte_len s

-- `char::is_control`: the general category Cc.
unfoldable pub is_control : ℕ → Bool
is_control c = ltb c 0x20 || in_range 0x7f 0x9f c

-- `char::is_whitespace`: the property White_Space.
unfoldable pub is_whitespace : ℕ → Bool
is_whitespace c =
    in_range 9 13 c
    || c == 0x20
    || c == 0x85
    || c == 0xa0
    || c == 0x1680
    || in_range 0x2000 0x200a c
    || c == 0x2028
    || c == 0x2029
    || c == 0x202f
    || c == 0x205f
    || c == 0x3000

unfoldable pub trim_start : Text → Text
trim_start [] = []
trim_start (c ∷ s) = if is_whitespace c then trim_start s else c ∷ s

unfoldable pub trim : Text → Text
unfolding trim_start is_whitespace
trim s = reverse (trim_start (reverse (trim_start s)))

-- `s.trim().is_empty()`
abbrev pub is_blank : Text → Bool
is_blank s = is_empty (trim s)

-- `value.strip_prefix(prefix)`
unfoldable pub strip_prefix : Text → Text → Option Text
strip_prefix [] s = some s
strip_prefix (p ∷ ps) [] = none
strip_prefix (p ∷ ps) (c ∷ s) = if p == c then strip_prefix ps s else none

-- `value.starts_with(prefix)`
unfoldable pub starts_with : Text → Text → Bool
unfolding strip_prefix
starts_with s prefix = elim (strip_prefix prefix s) [ none ↦ false | some _ ↦ true ]

unfoldable pub ends_with : Text → Text → Bool
unfolding starts_with
ends_with s suffix = starts_with (reverse s) (reverse suffix)

-- `value.split_once(c)`: the parts before and after the first `c`.
unfoldable pub split_once : ℕ → Text → Option (Text × Text)
split_once c [] = none
split_once c (d ∷ s) =
    let rest = split_once c s in
    if c == d then some ([], s) else elim rest [ none ↦ none | some p ↦ some (d ∷ p.0, p.1) ]

-- `value.rsplit_once(c)`: the parts before and after the last `c`.
unfoldable pub rsplit_once : ℕ → Text → Option (Text × Text)
unfolding split_once
rsplit_once c s = elim (split_once c (reverse s)) [
  | none ↦ none
  | some p ↦ some (reverse p.1, reverse p.0)
]

unfoldable pub ascii_lower : ℕ → ℕ
ascii_lower c = if in_range b'A' b'Z' c then c + 32 else c

unfoldable pub ascii_upper : ℕ → ℕ
ascii_upper c = if in_range b'a' b'z' c then c - 32 else c

abbrev pub to_ascii_lowercase : Text → Text
to_ascii_lowercase s = map ascii_lower s

abbrev pub to_ascii_uppercase : Text → Text
to_ascii_uppercase s = map ascii_upper s

-- `a.eq_ignore_ascii_case(b)`
abbrev pub eq_ignore_ascii_case : Text → Text → Bool
eq_ignore_ascii_case a b = text_eq (to_ascii_lowercase a) (to_ascii_lowercase b)

-- `u8::is_ascii_graphic`
unfoldable pub is_ascii_graphic : ℕ → Bool
is_ascii_graphic c = in_range 0x21 0x7e c

-- `value.parse::<uN>()` with the type's largest value: an optional `+`, then digits, no overflow.
parse_digits : ℕ → ℕ → Text → Option ℕ
parse_digits largest acc [] = some acc
parse_digits largest acc (c ∷ s) =
    let next = acc * 10 + (c - b'0') in
    let rest = parse_digits largest next s in
    if in_range b'0' b'9' c && leb next largest then rest else none

unfoldable pub parse_uint : ℕ → Text → Option ℕ
unfolding parse_digits
parse_uint largest [] = none
parse_uint largest (c ∷ []) = if c == b'+' then none else parse_digits largest 0 (c ∷ [])
parse_uint largest (c ∷ d ∷ s) = parse_digits largest 0 (if c == b'+' then d ∷ s else c ∷ d ∷ s)

decimal_digits : ℕ → ℕ → Text → Text
decimal_digits zero n later = later
decimal_digits (suc fuel) n later =
    let digits = (b'0' + n % 10) ∷ later in
    let rest = decimal_digits fuel (n / 10) digits in if ltb n 10 then digits else rest

-- `value.to_string()` of a `u64`: 20 digits are enough.
unfoldable pub decimal : ℕ → Text
unfolding decimal_digits
decimal n = decimal_digits 20 n []
