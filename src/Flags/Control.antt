-- ===== src/Flags/Control.antt =====
-- src/flags.rs: `var`, `process_control` and `help_table`, and `main` of src/main.rs. A TOML value is
-- kept as a value of the module Json; the parser and the printer of TOML are parameters.
use act_api_server_rs.Prelude.{
  ℕ, zero, suc, ◌-◌, ◌≡◌, refl, ◌↔◌, Bool, true, false, not, ◌||◌, Option, none, some, [], ◌∷◌,
  ◌++◌, length, if◌then◌else◌, unwrap_or, Result, ok, err, ◌>>=◌, ok_or, ok-injective,
}
use act_api_server_rs.Text.{Text, txt, text_eq}
use act_api_server_rs.Json.{Fields, Value, array, as_object, cons, end, field, get, object, string}
use act_api_server_rs.Transport.Tables.Store.{find}
use act_api_server_rs.Flags.{FlagsError, Variables, contract_failed}

-- `var`, on the resolved values.
abbrev pub var : Variables → Text → Option Text
var values name = find name values

abbrev pub is_true : Option Text → Bool
is_true none = false
is_true (some value) = text_eq value (txt "true")

as_str : Option Value → Option Text
as_str (some (string t)) = some t
as_str _ = none

first_item : Option Value → Option Value
first_item (some (array (cons v rest))) = some v
first_item _ = none

or_else : Option Text → Option Text → Option Text
or_else none other = other
or_else (some t) other = some t

-- `flag.get("long")`, or the first of its aliases.
long_of : Fields → Option Text
unfolding as_str first_item or_else
long_of flag =
    or_else (as_str (get (txt "long") flag)) (as_str (first_item (get (txt "aliases") flag)))

spaces : ℕ → Text
spaces zero = []
spaces (suc n) = b' ' ∷ spaces n

-- `{option:<28}`
pad : Text → Text
unfolding spaces
pad option = option ++ spaces (28 - length option)

option_of : Text → Option Text → Bool → Text
option_of long short takes_value =
    elim short [ none ↦ txt "--" ++ long | some s ↦ txt "-" ++ (s ++ (txt ", --" ++ long)) ]
    ++ (if takes_value then txt " <VALUE>" else [])

module _ (show : Value → Text) where
  default_of : Option Value → Text
  default_of none = []
  default_of (some v) = txt " [default: " ++ (show v ++ txt "]")

  -- The line of a flag that has a long name.
  flag_line : Fields → Text → Text
  unfolding pad option_of default_of as_str
  flag_line flag long =
      let kind = unwrap_or (as_str (get (txt "type") flag)) (txt "string") in
      let is_switch = text_eq kind (txt "bool") || text_eq kind (txt "boolean") in
      txt "  "
      ++ (pad (option_of long (as_str (get (txt "short") flag)) (not is_switch))
          ++ (txt " "
              ++ (unwrap_or (as_str (get (txt "help") flag)) []
                  ++ (default_of (get (txt "default") flag) ++ txt "\n"))))

  line_of : Value → Text
  unfolding flag_line long_of
  line_of (object flag) = elim (long_of flag) [ none ↦ [] | some long ↦ flag_line flag long ]
  line_of _ = []

  lines_of : Fields → Text
  unfolding line_of
  lines_of end = []
  lines_of (field name flag rest) = line_of flag ++ lines_of rest

  table_of : Option Value → Option Fields
  table_of none = none
  table_of (some v) = as_object v

  -- `help_table`, on the parsed contract.
  unfoldable pub help_table : Text → Result Value FlagsError → Result Text FlagsError
  unfolding lines_of table_of
  help_table name contract = do
    parsed ← contract
    fields ← ok_or (as_object parsed) contract_failed
    flags ← ok_or (table_of (get (txt "flags") fields)) contract_failed
    ok (txt "Usage: " ++ (name ++ (txt " [OPTIONS]\n\nOptions:\n" ++ lines_of flags)))

help_or_version : Result Text FlagsError → Text → Bool → Bool → Result (Option Text) FlagsError
help_or_version help version true v = help >>= λ t. ok (some t)
help_or_version help version false true = ok (some version)
help_or_version help version false false = ok none

-- `process_control`, on the resolved values, the help table and the line of the version.
unfoldable pub process_control :
    Result Variables FlagsError → Result Text FlagsError → Text → Result (Option Text) FlagsError
unfolding help_or_version
process_control resolved help version = do
  values ← resolved
  help_or_version help version (is_true (var values (txt "CLI_HELP_REQUESTED")))
      (is_true (var values (txt "CLI_VERSION_REQUESTED")))

-- What `main` does before it returns.
pub data Started : Type 0 where
  prints : Text → Started
  runs_server : Started

-- `main`: the server runs only if there is nothing to print.
unfoldable pub main : Result (Option Text) FlagsError → Result Started FlagsError
main control = control >>= λ output. ok (elim output [ none ↦ runs_server | some t ↦ prints t ])

abbrev pub Asks : Variables → Text → Type 0
Asks values name = is_true (var values name) ≡ true

control_runs :
    (help : Result Text FlagsError) (version : Text) (h v : Bool)
    → (main (help_or_version help version h v) ≡ ok runs_server) ↔ ((h ≡ false) × (v ≡ false))
unfolding main help_or_version
control_runs (ok t) version true v = (λ e. cc, λ e. let no_help = e.0 in cc)
control_runs (err x) version true v = (λ e. cc, λ e. let no_help = e.0 in cc)
control_runs help version false true = (λ e. cc, λ e. let no_version = e.1 in cc)
control_runs help version false false = (λ e. (refl, refl), λ e. refl)

-- The server runs exactly when the command line and the environment resolve to values that ask
-- neither for help nor for the version; in every other case it is not started.
pub main_runs_iff :
    (resolved : Result Variables FlagsError) (help : Result Text FlagsError) (version : Text)
    → (main (process_control resolved help version) ≡ ok runs_server) ↔ (
        (values : Variables) × (resolved ≡ ok values)
        × (is_true (var values (txt "CLI_HELP_REQUESTED")) ≡ false)
        × (is_true (var values (txt "CLI_VERSION_REQUESTED")) ≡ false))
unfolding process_control
main_runs_iff (err e) help version = (unfold main in λ h. cc, λ (values, same, _, _). cc)
main_runs_iff (ok values) help version =
    let both =
      control_runs help version (is_true (var values (txt "CLI_HELP_REQUESTED")))
        (is_true (var values (txt "CLI_VERSION_REQUESTED"))) in
    (
      λ h. let (no_help, no_version) = both.0 h in (values, refl, no_help, no_version),
      λ (other, same, no_help, no_version).
          both.1 (rw (ok-injective values other same) (no_help, no_version)),
    )
