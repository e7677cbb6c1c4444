-- ===== src/Historical/Query/Marks.antt =====
-- The parts of the historical queries that have no placeholder.
use velocity_engine_backend.Prelude.{
  String, ◌≡◌, refl, Bool, true, false, ◌||◌, List, [], ◌∷◌, map, if◌then◌else◌, ◌==◌, ==_iff,
  comparable_string, inl, inr, Bool-cases, arith,
}
use velocity_engine_backend.Prelude.Text.{
  join, concat, total, occurrences, occurrences-concat, occurrences-join,
}
use velocity_engine_backend.Historical.{Strings}
use velocity_engine_backend.Historical.Query.{coalesce, select_keys, aggregate}

abbrev pub NoMark : String → Type 0
NoMark s = occurrences b'?' s ≡ 0

pub comma : NoMark ", "
unfolding occurrences
comma = refl

pub if-NoMark :
    (b : Bool) (p q : String) → (b ≡ true → NoMark p) → NoMark q → NoMark (if b then p else q)
if-NoMark true p q h k = h refl
if-NoMark false p q h k = k

-- One of several names.
either-NoMark :
    (name fixed : String) (others : Bool)
    → NoMark fixed
    → (others ≡ true → NoMark name)
    → (others || (name == fixed)) ≡ true
    → NoMark name
either-NoMark name fixed others f h e = elim (Bool-cases (name == fixed)) [
  | inl q ↦ rw ((==_iff name fixed).0 q) f
  | inr q ↦ h (ground arith)
]

call-NoMark :
    (before field between alias : String)
    → NoMark before
    → NoMark field
    → NoMark between
    → NoMark alias
    → NoMark (concat (before ∷ field ∷ between ∷ alias ∷ []))
call-NoMark before field between alias b f c a =
    omega (arith, occurrences-concat b'?' (before ∷ field ∷ between ∷ alias ∷ []), b, f, c, a)

pub aggregate-NoMark :
    (function field alias : String)
    → NoMark field
    → NoMark alias
    → NoMark (aggregate function field alias)
unfolding aggregate occurrences
aggregate-NoMark function field alias f a =
    let sum = function == "SUM" in
    if-NoMark (function == "COUNT_DISTINCT") _ _
      (λ e. call-NoMark "COUNT(DISTINCT " field ") as " alias refl f refl a)
      (if-NoMark (function == "COUNT") _ _
        (λ e. call-NoMark "COUNT(" field ") as " alias refl f refl a)
        (if-NoMark
          (function == "SUM" || function == "AVG" || function == "MIN" || function == "MAX") _ _
          (λ e.
            let name : NoMark function =
              either-NoMark function "MAX" _ refl
                (either-NoMark function "MIN" _ refl (
                  either-NoMark function "AVG" _ refl (λ q. rw ((==_iff function "SUM").0 q) refl)))
                e in
            omega (
              arith,
              occurrences-concat b'?' (function ∷ "(" ∷ field ∷ ") as " ∷ alias ∷ []),
              name,
              f,
              a,
            ))
          (call-NoMark "COUNT(" field ") as " alias refl f refl a)))

coalesce-NoMark :
    (lib : Strings) (keys : List String)
    → total b'?' keys ≡ 0
    → total b'?' (map (coalesce lib) keys) ≡ 0
unfolding occurrences
coalesce-NoMark lib [] h = refl
coalesce-NoMark lib (k ∷ ks) h = omega (
  arith,
  occurrences-concat b'?' ("COALESCE(CAST(" ∷ k ∷ " AS VARCHAR), 'N/A')" ∷ []),
  coalesce-NoMark lib ks (omega arith),
)

pub select_keys-NoMark :
    (lib : Strings) (keys : List String) → total b'?' keys ≡ 0 → NoMark (select_keys lib keys)
unfolding select_keys occurrences
select_keys-NoMark lib [] h = refl
select_keys-NoMark lib (k ∷ []) h = omega (
  arith,
  occurrences-concat b'?' (coalesce lib k ∷ " as groupKey" ∷ []),
  coalesce-NoMark lib (k ∷ []) h,
)
select_keys-NoMark lib (k ∷ l ∷ ks) h =
    let all = map (coalesce lib) (k ∷ l ∷ ks) in
    omega (
      arith,
      occurrences-concat b'?' (join " || '|' || " all ∷ " as groupKey" ∷ []),
      occurrences-join b'?' " || '|' || " all refl,
      coalesce-NoMark lib (k ∷ l ∷ ks) h,
    )
