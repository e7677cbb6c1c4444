-- ===== src/Historical/Having.antt =====
-- ParseHavingExpression of internal/services/duckdb.go: the thresholds of a rule as a condition on its
-- aggregates.
use Prim.Native.Char.{code}
use velocity_engine_backend.Prelude.{
  ℕ, String, ◌≡◌, refl, Bool, true, false, ◌&&◌, ◌||◌, not, List, [], ◌∷◌, Option, none, some,
  if◌then◌else◌, ◌==◌, comparable_string, comparable_nat, str_append, leb, inl, inr, ◌⊎◌, arith,
}
use velocity_engine_backend.Prelude.Maps.{Map, lookup}
use velocity_engine_backend.Prelude.Text.{every}
use velocity_engine_backend.Historical.{Strings}

abbrev pub is_ascii_letter : ℕ → Bool
is_ascii_letter c = (leb b'a' c && leb c b'z') || (leb b'A' c && leb c b'Z')

abbrev pub is_ascii_digit : ℕ → Bool
is_ascii_digit c = leb b'0' c && leb c b'9'

-- The class of safeHavingPattern. What the pattern lets follow it is made of the same class, so a text
-- that is not empty matches exactly if all its characters are in the class.
abbrev pub is_having_char : ℕ → Bool
is_having_char c =
    is_ascii_letter c
    || is_ascii_digit c
    || c == b' '
    || c == b'\t'
    || c == b'\n'
    || c == 12
    || c == b'\r'
    || c == b'('
    || c == b')'
    || c == b'_'
    || c == b'.'
    || c == b'>'
    || c == b'<'
    || c == b'!'
    || c == b'='
    || c == b'+'
    || c == b'-'
    || c == b'*'
    || c == b'/'

-- identTokenPattern: whether a character goes on with the token `word`, which may be empty.
abbrev pub continues : String → ℕ → Bool
continues word c = is_ascii_letter c || c == b'_' || (not (word == "") && is_ascii_digit c)

abbrev pub emit : String → List String → List String
emit word rest = if word == "" then rest else word ∷ rest

-- FindAllString(_, -1), with the token that has been begun.
unfoldable pub tokens : String → String → List String
tokens word String.[] = emit word []
tokens word (String.◌∷◌ c s) =
    let more = continues word (code c) in
    let rest = tokens (if more then str_append word (String.◌∷◌ c "") else "") s in
    if more then rest else emit word rest

unfoldable pub sql_keywords : Map String Bool
sql_keywords =
    ("AND", true)
    ∷ ("OR", true)
    ∷ ("NOT", true)
    ∷ ("true", true)
    ∷ ("false", true)
    ∷ ("TRUE", true)
    ∷ ("FALSE", true)
    ∷ ("CASE", true)
    ∷ ("WHEN", true)
    ∷ ("THEN", true)
    ∷ ("ELSE", true)
    ∷ ("END", true)
    ∷ []

-- A map of Go that is used as a set.
unfoldable pub contains : String → Map String Bool → Bool
unfolding lookup
contains k m = elim (lookup k m) [ none ↦ false | some b ↦ b ]

abbrev pub is_known : Strings → Map String Bool → String → Bool
is_known lib aliases token =
    contains token sql_keywords
    || contains (lib.to_upper token) sql_keywords
    || contains token aliases

-- The loop over the tokens ends at the first that is unknown.
unfoldable pub all_known : Strings → Map String Bool → List String → Bool
unfolding contains
all_known lib aliases [] = true
all_known lib aliases (t ∷ ts) = is_known lib aliases t && all_known lib aliases ts

-- What ParseHavingExpression looks at: the expression with the operators of SQL, without white space
-- around it.
abbrev pub cleaned : Strings → String → String
cleaned lib expr =
    lib.trim_space
      (lib.replace_all (lib.replace_all (lib.replace_all expr "&&" " AND ") "||" " OR ") "==" "=")

-- ParseHavingExpression, for aliases that are not nil; `none` is an error.
unfoldable pub parse_having_expression : Strings → String → Map String Bool → Option String
unfolding every tokens all_known
parse_having_expression lib expr aliases =
    let text = cleaned lib expr in
    if expr == ""
    then some ""
    else if text == ""
    then some ""
    else if not (every is_having_char text)
    then none
    else if all_known lib aliases (tokens "" text)
    then some text
    else none

accepted :
    (text : String) (absent blank class known : Bool) (out : String)
    → (if absent
        then some ""
        else if blank
        then some ""
        else if not class
        then none
        else if known
        then some text
        else none)
      ≡ some out
    → (out ≡ "") ⊎ ((class ≡ true) × (out ≡ text))
accepted text absent blank class known out e = ground arith

-- What is accepted is empty, or all its characters are in the class.
pub every-parse_having_expression :
    (lib : Strings) (expr : String) (aliases : Map String Bool) (out : String)
    → parse_having_expression lib expr aliases ≡ some out
    → every is_having_char out ≡ true
unfolding parse_having_expression every
every-parse_having_expression lib expr aliases out e =
    let text = cleaned lib expr in
    elim (accepted text (expr == "") (text == "") (every is_having_char text)
      (all_known lib aliases (tokens "" text)) out e) [ inl q ↦ rw q refl | inr (c, q) ↦ rw q c ]
