-- ===== src/Flags/Precedence.antt =====
-- Which source a variable of src/flags.rs comes from.
use act_api_server_rs.Flags.{
  CommandLine, FlagsError, Variables, extend, insert_typed, is_null, raw_of, resolve_from,
  resolve_line, scalar_string,
}
use act_api_server_rs.Prelude.{
  ◌≡◌, refl, sym, ap, ◌∙◌, inl, inr, not, ◌&&◌, Option, none, some, List, [], ◌∷◌, arith, ◌==◌,
  if◌then◌else◌, ==_iff, Bool-cases, length, Result, ok, err, ◌>>=◌, ensure, >>=-eq-ok,
  ensure-eq-ok, ok-injective,
}
use act_api_server_rs.Text.{Text, text_eq}
use act_api_server_rs.Json.{Value}
use act_api_server_rs.Transport.Tables.Store.{find, find-put, put}

-- The first of two optional values that is there.
abbrev pub or_else {ℓ} : {A : Type ℓ} → Option A → Option A → Option A
or_else none other = other
or_else (some a) other = some a

-- The last value of a name in a list.
abbrev pub find_last : Text → Variables → Option Text
find_last name [] = none
find_last name ((n, value) ∷ more) =
    or_else (find_last name more) (if text_eq n name then some value else none)

find-extend :
    (name : Text) (variables more : Variables)
    → find name (extend variables more) ≡ or_else (find_last name more) (find name variables)
unfolding extend
find-extend name variables [] = refl
find-extend name variables ((n, value) ∷ more) =
    find-extend name (put n value variables) more
    ∙ rw (find-put name n value variables) (ground arith)

-- The text of the last value of a name that is not null.
abbrev pub typed_last : Text → List (Text × Value) → Option Text
typed_last name [] = none
typed_last name ((n, value) ∷ typed) = or_else (typed_last name typed) (
    if text_eq n name && not (is_null value)
    then elim (scalar_string n value) [ ok t ↦ some t | err e ↦ none ]
    else none)

find-insert_typed :
    (name : Text) (variables : Variables) (typed : List (Text × Value)) {resolved : Variables}
    → insert_typed variables typed ≡ ok resolved
    → find name resolved ≡ or_else (typed_last name typed) (find name variables)
unfolding insert_typed
find-insert_typed name variables [] {resolved} h =
    ap (find name) (sym (ok-injective variables resolved h))
find-insert_typed name variables ((n, value) ∷ typed) {resolved} h =
    elim (Bool-cases (is_null value)) [
      | inl skip ↦
          rw skip (find-insert_typed name variables typed (ground (arith, skip)) ∙ ground arith)
      | inr here ↦
          let h' : (scalar_string n value >>= λ text. insert_typed (put n text variables) typed)
              ≡ ok resolved =
            ground (arith, here) in
          let (text, scalar, h'') = >>=-eq-ok (scalar_string n value) _ h' in
          rw (here, scalar)
            (find-insert_typed name (put n text variables) typed h''
              ∙ rw (find-put name n text variables) (ground arith))
    ]

or_else-none : {A : Type 0} (o : Option A) → or_else o none ≡ o
or_else-none none = refl
or_else-none (some a) = refl

find-collected :
    (name : Text) (variables : Variables)
    → find name (extend [] variables) ≡ find_last name variables
unfolding find
find-collected name variables =
    find-extend name [] variables ∙ or_else-none (find_last name variables)

-- The server starts only on a command line without unknown options, invalid values or stray
-- arguments. A resolved variable is then the typed value of the raw ones, where that is not null, and
-- otherwise the variable of the process environment.
pub resolve_from_sound :
    (coerce : Variables → Result (List (Text × Value)) FlagsError)
    (contract : Result (Unit {0}) FlagsError) (parsed : Result CommandLine FlagsError)
    (environment : Variables) {resolved : Variables}
    → resolve_from coerce contract parsed environment ≡ ok resolved
    → (line : CommandLine) × (typed : List (Text × Value)) × (parsed ≡ ok line)
      × (length line.unknown_options ≡ 0)
      × (length line.errors ≡ 0)
      × (length line.extras ≡ 0)
      × (coerce (raw_of line (extend [] environment)) ≡ ok typed)
      × ((name : Text)
          → find name resolved ≡ or_else (typed_last name typed) (find_last name environment))
unfolding resolve_from resolve_line
resolve_from_sound coerce contract parsed environment {resolved} h =
    let (u, p, h₁) = >>=-eq-ok contract _ h in
    let (line, q, h₂) = >>=-eq-ok parsed _ h₁ in
    let (a, r, h₃) = >>=-eq-ok (ensure (length line.unknown_options == 0) _) _ h₂ in
    let (b, s, h₄) = >>=-eq-ok (ensure (length line.errors == 0) _) _ h₃ in
    let (c, t, h₅) = >>=-eq-ok (ensure (length line.extras == 0) _) _ h₄ in
    let (typed, v, h₆) = >>=-eq-ok (coerce (raw_of line (extend [] environment))) _ h₅ in
    (
      line,
      typed,
      q,
      (==_iff (length line.unknown_options) 0).0 (ensure-eq-ok _ _ r),
      (==_iff (length line.errors) 0).0 (ensure-eq-ok _ _ s),
      (==_iff (length line.extras) 0).0 (ensure-eq-ok _ _ t),
      v,
      λ name.
          find-insert_typed name (extend [] environment) typed h₆
          ∙ ap (or_else (typed_last name typed)) (find-collected name environment),
    )
