-- ===== src/Analysis/Limits.antt =====
-- How much the anomaly endpoint returns.
use velocity_engine_backend.Prelude.{
  ℕ, ◌+◌, ◌-◌, ◌≤◌, String, ◌≡◌, refl, ap, ◌∙◌, List, [], ◌∷◌, Option, none, some, leb,
  if◌then◌else◌, length, length-append, length-drop, select, arith,
}
use velocity_engine_backend.Prelude.Int.{ℤ, pos, negsuc}
use velocity_engine_backend.Consumers.{AnomalyStore, get_recent, is_of_rule}
use velocity_engine_backend.Consumers.Recent.{get_recent_lem}
use velocity_engine_backend.Analysis.{
  Library, Query, clamp, rule_ids, recent_of, recent_of_all, anomaly_limit, anomaly_analysis,
}

clamp-le : (most default : ℕ) (n : Option ℤ) → default ≤ most → clamp most default n ≤ most
unfolding clamp
clamp-le most default (some (pos n)) h = ground arith
clamp-le most default (some (negsuc n)) h = h
clamp-le most default none h = h

-- How many events of a rule are returned: all that are stored, or the limit.
abbrev pub returned : ℕ → AnomalyStore → String → ℕ
returned limit s id =
    let mine = length (select (is_of_rule id) s.events) in if leb limit mine then limit else mine

abbrev pub returned_for : ℕ → AnomalyStore → List String → ℕ
returned_for limit s [] = 0
returned_for limit s (id ∷ ids) = returned limit s id + returned_for limit s ids

length-get_recent :
    (id : String) (limit : ℕ) (s : AnomalyStore)
    → length (get_recent id limit s) ≡ returned limit s id
length-get_recent id limit s =
    let mine = select (is_of_rule id) s.events in
    ap length (get_recent_lem id limit s) ∙ length-drop (length mine - limit) mine ∙ ground arith

length-recent_of_all :
    (lib : Library) (limit : ℕ) (s : AnomalyStore) (ids : List String)
    → length (recent_of_all lib limit s ids) ≡ returned_for limit s ids
unfolding recent_of_all
length-recent_of_all lib limit s [] = refl
length-recent_of_all lib limit s (id ∷ ids) =
    length-append (get_recent id limit s) (recent_of_all lib limit s ids)
    ∙ omega (arith, length-get_recent id limit s, length-recent_of_all lib limit s ids)

-- The limit of an anomaly request is at most 500 and counts for each rule by itself: where rules are
-- named, the response has for each of them all its stored events or as many as the limit, so that it
-- may be longer than the limit.
pub anomaly_analysis-length :
    (lib : Library) (q : Query) (s : AnomalyStore) (id : String) (ids : List String)
    → rule_ids lib q ≡ id ∷ ids
    → (anomaly_limit lib q ≤ 500)
      × (length (anomaly_analysis lib q (some s)) ≡ returned_for (anomaly_limit lib q) s (id ∷ ids))
unfolding anomaly_analysis
anomaly_analysis-length lib q s id ids e = (
  clamp-le 500 100 (lib.atoi (q "limit" "100")) (omega arith),
  ap (λ r. length (recent_of lib (anomaly_limit lib q) s r)) e
      ∙ length-recent_of_all lib (anomaly_limit lib q) s (id ∷ ids),
)
