-- ===== src/Text/Digits.antt =====
-- Rust's printing of a `u64` and its parsing: 20 digits hold every value.
use act_api_server_rs.Prelude.{
  ℕ, zero, suc, ◌+◌, ◌-◌, ◌*◌, ◌/◌, ◌%◌, ◌≤◌, ◌<◌, ◌≡◌, ◌≢◌, refl, ap, sym, ◌∙◌, inl, inr, true,
  false, some, [], ◌∷◌, ltb, leb, ◌==◌, in_range, arith, Bool-cases,
}
use act_api_server_rs.Text.{Text, decimal, decimal_digits, parse_digits, parse_uint}

-- The first number with more than `fuel` digits.
abbrev tens : ℕ → ℕ
tens zero = 1
tens (suc fuel) = 10 * tens fuel

digit_step :
    (largest acc d : ℕ) (s : Text)
    → d < 10
    → acc * 10 + d ≤ largest
    → parse_digits largest acc ((b'0' + d) ∷ s) ≡ parse_digits largest (acc * 10 + d) s
unfolding parse_digits
digit_step largest acc d s small fits =
    let digit : in_range b'0' b'9' (b'0' + d) ≡ true = ground arith in
    let same : (b'0' + d) - b'0' ≡ d = omega arith in
    let enough : leb (acc * 10 + d) largest ≡ true = ground arith in rw (digit, same, enough) refl

digits_parse :
    (fuel largest n : ℕ) (later : Text)
    → n < tens fuel
    → n ≤ largest
    → parse_digits largest 0 (decimal_digits fuel n later) ≡ parse_digits largest n later
unfolding decimal_digits
digits_parse zero largest n later short fits = let nothing : n ≡ 0 = omega arith in rw nothing refl
digits_parse (suc fuel) largest n later short fits = elim (Bool-cases (ltb n 10)) [
  | inl e ↦
      let small : n < 10 = ground arith in
      let same : 0 * 10 + n % 10 ≡ n = omega arith in
      rw e (
        digit_step largest 0 (n % 10) later (omega arith) (omega arith)
        ∙ ap (λ k. parse_digits largest k later) same)
  | inr e ↦
      let same : n / 10 * 10 + n % 10 ≡ n = omega arith in
      rw e (
        digits_parse fuel largest (n / 10) ((b'0' + n % 10) ∷ later) (omega arith) (omega arith)
        ∙ (digit_step largest (n / 10) (n % 10) later (omega arith) (omega arith)
            ∙ ap (λ k. parse_digits largest k later) same))
]

-- The printed digits, which are never none and never begin with a sign.
sign_free :
    (fuel n : ℕ) (later : Text)
    → (c : ℕ) × (s : Text) × (c ≢ b'+') × (decimal_digits (suc fuel) n later ≡ c ∷ s)
unfolding decimal_digits
sign_free zero n later = elim (Bool-cases (ltb n 10)) [
  | inl e ↦ (b'0' + n % 10, later, λ h. omega (arith, h), rw e refl)
  | inr e ↦ (b'0' + n % 10, later, λ h. omega (arith, h), rw e refl)
]
sign_free (suc fuel) n later = elim (Bool-cases (ltb n 10)) [
  | inl e ↦ (b'0' + n % 10, later, λ h. omega (arith, h), rw e refl)
  | inr e ↦
      let (c, s, plain, printed) = sign_free fuel (n / 10) ((b'0' + n % 10) ∷ later) in
      (c, s, plain, rw e printed)
]

parse_plain :
    (largest c : ℕ) (s : Text)
    → c ≢ b'+'
    → parse_uint largest (c ∷ s) ≡ parse_digits largest 0 (c ∷ s)
unfolding parse_uint
parse_plain largest c [] h = let unsigned : (c == b'+') ≡ false = ground arith in rw unsigned refl
parse_plain largest c (d ∷ s) h =
    let unsigned : (c == b'+') ≡ false = ground arith in rw unsigned refl

-- What a `u64` prints as is parsed back by every type that holds it.
pub parse_uint-decimal :
    (largest n : ℕ) → n ≤ 0xffffffffffffffff → n ≤ largest → parse_uint largest (decimal n) ≡ some n
unfolding decimal parse_digits
parse_uint-decimal largest n short fits =
    let (c, s, plain, printed) = sign_free 19 n [] in
    ap (parse_uint largest) printed
    ∙ (parse_plain largest c s plain
        ∙ (ap (parse_digits largest 0) (sym printed)
            ∙ digits_parse 20 largest n [] (omega arith) fits))
