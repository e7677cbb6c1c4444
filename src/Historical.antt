-- ===== src/Historical.antt =====
-- internal/services/duckdb.go: SQL for the historical engine, and the one slot in which it runs. Texts
-- are native strings, a character its code point. The strings, unicode, strconv, time and fmt packages
-- and DuckDB are parameters.
pub mod Mapping
pub mod Aua
pub mod Filter
pub mod Having
pub mod Query
pub mod Slot
pub mod Connection
pub mod Run
use Prim.Native.Char.{code}
use velocity_engine_backend.Prelude.{
  ℕ, ◌+◌, String, Bool, true, false, ◌&&◌, ◌||◌, not, List, [], ◌∷◌, ◌++◌, map, Option, none, some,
  if◌then◌else◌, ◌==◌, comparable_string, comparable_nat, str_append, leb, length,
}
use velocity_engine_backend.Prelude.Maps.{lookup}
use velocity_engine_backend.Prelude.Int.{ℤ}
use velocity_engine_backend.Prelude.Text.{every}
use velocity_engine_backend.Json.{Value}
use velocity_engine_backend.Historical.Mapping.{iceberg_schema_mapping}

-- What the file uses of Go's standard library. `replace_first s a b` is strings.Replace with n = 1.
-- `millis_utc` formats an instant in milliseconds, `rfc3339_utc` parses one and formats it, both as
-- UTC with milliseconds. `int_of_float` converts a float64, given by its bits, to an int64.
pub record Strings : Type 0 where
  pub is_letter : ℕ → Bool
  pub is_digit : ℕ → Bool
  pub to_lower : String → String
  pub to_upper : String → String
  pub trim_space : String → String
  pub replace_first : String → String → String → String
  pub replace_all : String → String → String → String
  pub split : String → String → List String
  pub sprint : Value → String
  pub show_int : ℕ → String
  pub int_of_float : ℕ → ℤ
  pub parse_int : String → Option ℤ
  pub millis_utc : ℤ → String
  pub rfc3339_utc : String → Option String

module _ (lib : Strings) where
  -- TranslateField
  unfoldable pub translate_field : String → String
  unfolding lookup
  translate_field kafka_field =
      let otherwise = lib.replace_first kafka_field "_data." "" in
      elim (lookup kafka_field iceberg_schema_mapping) [
        | none ↦ otherwise
        | some mapped ↦ if mapped == "" then otherwise else mapped
      ]

  abbrev pub starts_word : ℕ → Bool
  starts_word c = lib.is_letter c || c == b'_'

  abbrev pub is_word : ℕ → Bool
  is_word c = lib.is_letter c || lib.is_digit c || c == b'_'

  -- The loop of ValidateIdentifier over a name that is not empty.
  unfoldable pub is_identifier : String → Bool
  unfolding every
  is_identifier String.[] = false
  is_identifier (String.◌∷◌ c s) = starts_word (code c) && every is_word s

  -- ValidateIdentifier: the cleaned name, or an error.
  unfoldable pub validate_identifier : String → Option String
  unfolding is_identifier
  validate_identifier name =
      let clean = lib.trim_space (lib.to_lower name) in
      if is_identifier clean then some clean else none

-- ks := fmt.Sprintf("%v", k); ValidateIdentifier(TranslateField(ks)), where the callers stop on an
-- error.
abbrev pub column : Strings → String → Option String
column lib name = validate_identifier lib (translate_field lib name)

-- A piece of SQL and the values that its placeholders take, in their order.
pub record Fragment : Type 0 where
  pub sql : String
  pub params : List Value

abbrev pub no_fragment : Fragment
no_fragment = record { sql = ""; params = [] }
