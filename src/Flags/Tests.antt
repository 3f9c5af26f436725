-- ===== src/Flags/Tests.antt =====
-- A concrete command line for src/flags.rs.
use act_api_server_rs.Flags.Control.{help_table, main, process_control, prints}
use act_api_server_rs.Prelude.{◌≡◌, ◌++◌, refl, List, [], ◌∷◌, map, length, Result, ok, err}
use act_api_server_rs.Text.{Text, txt, text_eq, strip_prefix}
use act_api_server_rs.Flags.{
  CommandLine, FlagsError, Variables, extend, insert_typed, option_name, raw_of, resolve_from,
  scalar_string, unexpected_arguments, unknown_options, without,
}
use act_api_server_rs.Json.{Value, string, object, field, end, array, cons, nil, number, null, get}
use act_api_server_rs.Transport.Tables.Store.{find, put}
use act_api_server_rs.Flags.Precedence.{find_last, or_else, resolve_from_sound, typed_last}

flags : Unit {0}
unfolding resolve_from option_name extend without scalar_string insert_typed raw_of find put text_eq
    strip_prefix txt
flags = tt

abbrev line : CommandLine
line = record {
  unknown_options = [];
  errors = [];
  extras = [];
  dotenv = (txt "PORT", txt "8080") ∷ (txt "MODE", txt "a") ∷ [];
  dotenv_overrides = (txt "FLAGS2ENV_COMMAND", txt "serve") ∷ [];
  provided_flags = (txt "PORT", txt "9124") ∷ [];
}

abbrev environment : Variables
environment = (txt "PORT", txt "7000") ∷ (txt "MODE", txt "b") ∷ []

-- Stands for the coercion of the flags library: every variable is a text.
abbrev coerce : Variables → Result (List (Text × Value)) FlagsError
coerce variables = ok (map (λ v. (v.0, string v.1)) variables)

abbrev settled : Variables
settled = (txt "PORT", txt "9124") ∷ (txt "MODE", txt "b") ∷ []

line_resolved : resolve_from coerce (ok tt) (ok line) environment ≡ ok settled
unfolding flags
line_resolved = refl

flag_tests :
    (option_name (txt "--token=secret") ≡ txt "--token")
    × (option_name (txt "-tsecret") ≡ txt "-t")
    × (resolve_from coerce
          (ok tt)
          (ok (record line { unknown_options = txt "--token=secret" ∷ [] }))
          environment
        ≡ err (unknown_options (txt "--token" ∷ [])))
    × (resolve_from coerce (ok tt) (ok (record line { extras = txt "x" ∷ [] })) environment
        ≡ err (unexpected_arguments 1))
unfolding flags
flag_tests = (refl, refl, refl, refl)

resolve_from_sound_example :
    (l : CommandLine) × (typed : List (Text × Value)) × (◌≡◌ {A = Result CommandLine FlagsError}
      (ok line)
      (ok l))
    × (length l.unknown_options ≡ 0)
    × (length l.errors ≡ 0)
    × (length l.extras ≡ 0)
    × (coerce (raw_of l (extend [] environment)) ≡ ok typed)
    × ((name : Text)
        → find name settled ≡ or_else (typed_last name typed) (find_last name environment))
resolve_from_sound_example = resolve_from_sound coerce (ok tt) (ok line) environment line_resolved

abbrev contract : Value
contract = object (
    field (txt "flags")
      (object (
        field (txt "help")
          (object (
            field (txt "long") (string (txt "help")) (
              field (txt "short") (string (txt "h")) (
                field (txt "type") (string (txt "bool"))
                  (field (txt "help") (string (txt "Print help")) end)))))
          (field (txt "port")
            (object (
              field (txt "aliases") (array (cons (string (txt "port")) nil))
                (field (txt "default") (number (txt "8080")) end)))
            (field (txt "none") null end))))
      end)

abbrev show : Value → Text
show v = txt "8080"

help_tests :
    (help_table show (txt "act") (ok contract)
      ≡ ok (
          txt "Usage: act [OPTIONS]\n\nOptions:\n"
          ++ (txt "  -h, --help                   Print help\n"
              ++ txt "  --port <VALUE>                [default: 8080]\n")))
    × (main
          (process_control (ok ((txt "CLI_HELP_REQUESTED", txt "true") ∷ [])) (ok (txt "help")) [])
        ≡ ok (prints (txt "help")))
unfolding help_table main process_control txt get find text_eq
help_tests = (refl, refl)
