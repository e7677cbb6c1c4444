-- ===== src/Json.antt =====
-- The dynamic values that internal/services and internal/handlers hold in
-- `map[string]interface{}`: decoded JSON, and what a database driver scans into an `interface{}`.
use velocity_engine_backend.Prelude.{
  ℕ, String, Bool, true, false, List, ◌∷◌, [], none, some, if◌then◌else◌, ◌==◌, comparable_string,
}
use velocity_engine_backend.Prelude.Maps.{Map, lookup}
use velocity_engine_backend.Prelude.Int.{ℤ}

-- `float` holds the bit pattern of a float64, which encoding/json decodes every number to. `foreign`
-- is a value of any other Go type, under an opaque tag.
mutual
  pub data Value : Type 0 where
    null : Value
    bool : Bool → Value
    float : ℕ → Value
    int64 : ℤ → Value
    str : String → Value
    arr : Elements → Value
    obj : Members → Value
    foreign : ℕ → Value

  pub data Elements : Type 0 where
    no_elements : Elements
    element : Value → Elements → Elements

  pub data Members : Type 0 where
    no_members : Members
    member : String → Value → Members → Members

-- `map[string]interface{}`, at the top of a message or a row
abbrev pub Row : Type 0
Row = Map String Value

-- `row[k]`: a missing key reads as nil.
unfoldable pub at : String → Row → Value
unfolding lookup
at k row = elim (lookup k row) [ none ↦ null | some v ↦ v ]

-- `_, has := row[k]`
unfoldable pub has : String → Row → Bool
unfolding lookup
has k row = elim (lookup k row) [ none ↦ false | some _ ↦ true ]

-- `s, _ := v.(string)`: the zero value where the assertion fails.
abbrev pub as_string : Value → String
as_string (str s) = s
as_string _ = ""

-- The same maps below the top.
unfoldable pub get_field : String → Members → Value
get_field k no_members = null
get_field k (member j v fs) = if j == k then v else get_field k fs

unfoldable pub set_field : String → Value → Members → Members
set_field k v no_members = member k v no_members
set_field k v (member j w fs) = if j == k then member j v fs else member j w (set_field k v fs)

unfoldable pub elements_to_list : Elements → List Value
elements_to_list no_elements = []
elements_to_list (element v vs) = v ∷ elements_to_list vs
