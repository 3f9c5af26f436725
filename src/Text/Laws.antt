-- ===== src/Text/Laws.antt =====
-- Equality of texts, trimming and prefixes.
use act_api_server_rs.Prelude.{
  ℕ, ◌≡◌, refl, ap, ◌∙◌, ◌↔◌, Bool, true, false, some, [], ◌∷◌, ◌++◌, reverse, arith, ◌≡⟨◌⟩◌, ◌∎,
  ◌||◌, any,
}
use act_api_server_rs.Text.{
  Text, text_eq, is_whitespace, trim_start, trim, strip_prefix, starts_with,
}
use mathlib.Core.List.{reverse-cons, reverse-reverse}

pub text_eq-eq : (a b : Text) → text_eq a b ≡ true → a ≡ b
unfolding text_eq
text_eq-eq [] [] h = refl
text_eq-eq [] (b ∷ bs) h = cc
text_eq-eq (a ∷ as') [] h = cc
text_eq-eq (a ∷ as') (b ∷ bs) h = ground (arith, text_eq-eq as' bs)

pub text_eq_refl : (a : Text) → text_eq a a ≡ true
unfolding text_eq
text_eq_refl [] = refl
text_eq_refl (a ∷ as') = ground (arith, text_eq_refl as')

pub text_eq_iff : (a b : Text) → (text_eq a b ≡ true) ↔ (a ≡ b)
text_eq_iff a b = (text_eq-eq a b, λ e. rw e (text_eq_refl b))

pub strip_prefix-append : (p s : Text) → strip_prefix p (p ++ s) ≡ some s
unfolding strip_prefix
strip_prefix-append [] s = refl
strip_prefix-append (c ∷ p) s = ground (arith, strip_prefix-append p s)

pub strip_prefix-eq-some : (p s : Text) {r : Text} → strip_prefix p s ≡ some r → s ≡ p ++ r
unfolding strip_prefix
strip_prefix-eq-some [] s h = ground arith
strip_prefix-eq-some (c ∷ p) [] h = cc
strip_prefix-eq-some (c ∷ p) (d ∷ s) {r} h = ground (arith, strip_prefix-eq-some p s {r = r})

pub starts_with-append : (p s : Text) → starts_with (p ++ s) p ≡ true
unfolding starts_with
starts_with-append p s = rw (strip_prefix-append p s, starts_with)

trim_start_of_none : (s : Text) → any is_whitespace s ≡ false → trim_start s ≡ s
unfolding trim_start
trim_start_of_none [] h = refl
trim_start_of_none (c ∷ s) h = ground arith

any-append : (p : ℕ → Bool) (xs ys : Text) → any p (xs ++ ys) ≡ (any p xs || any p ys)
any-append p [] ys = refl
any-append p (x ∷ xs) ys = ground (arith, any-append p xs ys)

any-reverse : (p : ℕ → Bool) (xs : Text) → any p (reverse xs) ≡ any p xs
any-reverse p [] = refl
any-reverse p (x ∷ xs) =
    any p (reverse (x ∷ xs))
    ≡⟨ ap (any p) (reverse-cons x xs) ⟩ any p (reverse xs ++ x ∷ [])
    ≡⟨ any-append p (reverse xs) (x ∷ []) ⟩ (any p (reverse xs) || any p (x ∷ []))
    ≡⟨ ground (arith, any-reverse p xs) ⟩ any p (x ∷ xs) ∎

-- A text without white space is its own trimming.
pub trim_of_none : (s : Text) → any is_whitespace s ≡ false → trim s ≡ s
unfolding trim
trim_of_none s h =
    rw (trim_start_of_none s h)
      (rw (trim_start_of_none (reverse s) (any-reverse is_whitespace s ∙ h)) (reverse-reverse s))
