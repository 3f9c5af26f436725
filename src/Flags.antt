-- ===== src/Flags.antt =====
-- src/flags.rs: `resolve_from`. A map is an association list. What the temporary file and the flags
-- library answer are parameters: `contract` (the file and the audit), `parsed` and `coerce`.
pub mod Precedence
pub mod Control
mod Tests
use act_api_server_rs.Prelude.{
  ℕ, Bool, true, false, none, some, List, [], ◌∷◌, map, ◌++◌, ◌==◌, if◌then◌else◌, length, take,
  Result, ok, err, ◌>>=◌, ◌>>◌, ensure,
}
use act_api_server_rs.Text.{Text, txt, text_eq, strip_prefix}
use act_api_server_rs.Transport.Tables.Store.{Table, put}
use act_api_server_rs.Json.{Value, bool, null, number, string}

pub data FlagsError : Type 0 where
  contract_failed parsing_failed coercion_failed : FlagsError
  unknown_options : List Text → FlagsError
  invalid_values unexpected_arguments : ℕ → FlagsError
  non_scalar : Text → FlagsError

abbrev pub Variables : Type 0
Variables = Table Text

-- What the program reads of a parsed command line.
pub record CommandLine : Type 0 where
  pub unknown_options : List Text
  pub errors : List Text
  pub extras : List Text
  pub dotenv : Variables
  pub dotenv_overrides : Variables
  pub provided_flags : Variables

before_equals : Text → Text
before_equals [] = []
before_equals (c ∷ s) = if c == b'=' then [] else c ∷ before_equals s

-- `option_name`: what may be printed of an option, without its value.
unfoldable pub option_name : Text → Text
unfolding before_equals
option_name option = elim (strip_prefix (txt "--") option) [
  | some long ↦ txt "--" ++ before_equals long
  | none ↦ take 2 option
]

-- `map.extend(other)`
unfoldable pub extend : Variables → Variables → Variables
extend variables [] = variables
extend variables ((name, value) ∷ more) = extend (put name value variables) more

-- `map.remove(name)`
unfoldable pub without : Text → Variables → Variables
without name [] = []
without name ((n, value) ∷ rest) =
    if text_eq n name then without name rest else (n, value) ∷ without name rest

-- `scalar_string`
unfoldable pub scalar_string : Text → Value → Result Text FlagsError
scalar_string name (string value) = ok value
scalar_string name (bool true) = ok (txt "true")
scalar_string name (bool false) = ok (txt "false")
scalar_string name (number value) = ok value
scalar_string name _ = err (non_scalar name)

abbrev pub is_null : Value → Bool
is_null null = true
is_null _ = false

-- The loop over the typed values.
unfoldable pub insert_typed : Variables → List (Text × Value) → Result Variables FlagsError
insert_typed resolved [] = ok resolved
insert_typed resolved ((name, value) ∷ typed) =
    if is_null value
    then insert_typed resolved typed
    else (do text ← scalar_string name value; insert_typed (put name text resolved) typed)

-- The values that are coerced.
unfoldable pub raw_of : CommandLine → Variables → Variables
raw_of line environment =
    extend
      (without (txt "FLAGS2ENV_COMMAND")
        (extend (extend (extend [] line.dotenv) environment) line.dotenv_overrides))
      line.provided_flags

module _ (coerce : Variables → Result (List (Text × Value)) FlagsError) where
  resolve_line : CommandLine → Variables → Result Variables FlagsError
  resolve_line line environment = do
    ensure (length line.unknown_options == 0)
        (unknown_options (map option_name line.unknown_options))
    ensure (length line.errors == 0) (invalid_values (length line.errors))
    ensure (length line.extras == 0) (unexpected_arguments (length line.extras))
    typed ← coerce (raw_of line environment)
    insert_typed environment typed

  -- `resolve_from`
  unfoldable pub resolve_from :
      Result (Unit {0}) FlagsError
      → Result CommandLine FlagsError
      → Variables
      → Result Variables FlagsError
  unfolding resolve_line
  resolve_from contract parsed environment = do
    contract
    line ← parsed
    resolve_line line (extend [] environment)
