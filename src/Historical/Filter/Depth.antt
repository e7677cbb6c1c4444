-- ===== src/Historical/Filter/Depth.antt =====
-- ParseFilterNode calls itself on smaller nodes: the fuel of the model is enough at every depth.
use velocity_engine_backend.Prelude.{
  ℕ, zero, suc, ◌≤◌, ◌<◌, String, ◌≡◌, refl, comparable_string, arith,
}
use velocity_engine_backend.Json.{
  Value, Elements, Members, null, bool, float, int64, str, arr, obj, foreign, no_elements, element,
  no_members, member, get_field,
}
use velocity_engine_backend.Historical.{Strings, Fragment}
use velocity_engine_backend.Historical.Filter.{
  parse_conditions, as_elements, parse_step, parse_with, parse_filter_node, size, size_elements,
  size_members,
}

pub size-get_field : (k : String) (node : Members) → size (get_field k node) ≤ size_members node
unfolding get_field size
size-get_field k no_members = omega arith
size-get_field k (member j v rest) = ground (arith, size-get_field k rest)

pub size-as_elements : (v : Value) → size_elements (as_elements v) ≤ size v
unfolding size
size-as_elements null = omega arith
size-as_elements (bool b) = omega arith
size-as_elements (float x) = omega arith
size-as_elements (int64 x) = omega arith
size-as_elements (str s) = omega arith
size-as_elements (arr items) = omega arith
size-as_elements (obj node) = omega arith
size-as_elements (foreign x) = omega arith

-- The loop only asks about nodes that are smaller than the list.
parse_conditions-agree :
    (p q : Members → Fragment) (items : Elements)
    → ((node : Members) → size_members node < size_elements items → p node ≡ q node)
    → parse_conditions p items ≡ parse_conditions q items
unfolding parse_conditions size
parse_conditions-agree p q no_elements h = refl
parse_conditions-agree p q (element (obj node) rest) h =
    let here : p node ≡ q node = h node (omega arith) in
    let later = parse_conditions-agree p q rest (λ n l. h n (omega (arith, l))) in
    rw (here, later) refl
parse_conditions-agree p q (element null rest) h =
    parse_conditions-agree p q rest (λ n l. h n (omega (arith, l)))
parse_conditions-agree p q (element (bool b) rest) h =
    parse_conditions-agree p q rest (λ n l. h n (omega (arith, l)))
parse_conditions-agree p q (element (float x) rest) h =
    parse_conditions-agree p q rest (λ n l. h n (omega (arith, l)))
parse_conditions-agree p q (element (int64 x) rest) h =
    parse_conditions-agree p q rest (λ n l. h n (omega (arith, l)))
parse_conditions-agree p q (element (str s) rest) h =
    parse_conditions-agree p q rest (λ n l. h n (omega (arith, l)))
parse_conditions-agree p q (element (arr items) rest) h =
    parse_conditions-agree p q rest (λ n l. h n (omega (arith, l)))
parse_conditions-agree p q (element (foreign x) rest) h =
    parse_conditions-agree p q rest (λ n l. h n (omega (arith, l)))

parse_step-agree :
    (lib : Strings) (p q : Members → Fragment) (node : Members)
    → ((inner : Members) → size_members inner < size_members node → p inner ≡ q inner)
    → parse_step lib p node ≡ parse_step lib q node
unfolding parse_step
parse_step-agree lib p q node h =
    let items = as_elements (get_field "conditions" node) in
    let same = parse_conditions-agree p q items (λ inner l. h inner (
      omega (
        arith,
        l,
        size-as_elements (get_field "conditions" node),
        size-get_field "conditions" node,
      ))) in
    rw same refl

enough :
    (lib : Strings) (f g : ℕ) (node : Members)
    → size_members node < f
    → size_members node < g
    → parse_with lib f node ≡ parse_with lib g node
unfolding parse_with
enough lib zero g node a b = elim a [ ]
enough lib (suc f) zero node a b = elim b [ ]
enough lib (suc f) (suc g) node a b =
    parse_step-agree lib (parse_with lib f) (parse_with lib g) node
      (λ inner l. enough lib f g inner (omega (arith, l)) (omega (arith, l)))

-- ParseFilterNode ends on every filter tree, and its result obeys the recursion of the source: one
-- pass over the node with the function itself for the nodes below.
parse_filter_node-recursion :
    (lib : Strings) (node : Members)
    → parse_filter_node lib node ≡ parse_step lib (parse_filter_node lib) node
unfolding parse_filter_node parse_with
parse_filter_node-recursion lib node =
    parse_step-agree lib (parse_with lib (size_members node)) (parse_filter_node lib) node
      (λ inner l. enough lib (size_members node) (suc (size_members inner)) inner l (omega arith))
