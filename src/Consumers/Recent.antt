-- ===== src/Consumers/Recent.antt =====
-- AnomalyStore of internal/services/anomaly_consumer.go keeps the latest events and reads the latest.
use velocity_engine_backend.Prelude.{
  ℕ, zero, suc, ◌+◌, ◌-◌, ◌≤◌, String, ◌≡◌, refl, sym, ap, ◌∙◌, Bool, List, [], ◌∷◌, ◌++◌, ltb, leb,
  length, length-append, length-drop, drop, drop-append, take, select, select-append, reverse,
  Bool-cases, inl, inr, arith,
}
use mathlib.Core.List.{reverse-cons, reverse-reverse}
use velocity_engine_backend.Json.{Row}
use velocity_engine_backend.Consumers.{
  AnomalyStore, add_anomaly, is_of_rule, collect_recent, get_recent,
}

module _ {ℓ} {A : Type ℓ} where
  drop_nil : (n : ℕ) → drop {A = A} n [] ≡ []
  drop_nil zero = refl
  drop_nil (suc n) = refl

  drop-drop : (n m k : ℕ) (xs : List A) → k ≡ m + n → drop n (drop m xs) ≡ drop k xs
  drop-drop n zero k xs e = ap (λ i. drop i xs) (omega arith)
  drop-drop n (suc m) zero xs e = absurd (omega arith)
  drop-drop n (suc m) (suc k) [] e = drop_nil n
  drop-drop n (suc m) (suc k) (x ∷ xs) e = drop-drop n m k xs (omega arith)

  length-reverse : (xs : List A) → length (reverse xs) ≡ length xs
  length-reverse [] = refl
  length-reverse (x ∷ xs) =
      ap length (reverse-cons x xs)
      ∙ omega (arith, length-append (reverse xs) (x ∷ []), length-reverse xs)

  append_nil : (xs : List A) → xs ++ [] ≡ xs
  append_nil [] = refl
  append_nil (x ∷ xs) = ap (λ r. x ∷ r) (append_nil xs)

  -- Go's reading of the newest first, turned round.
  take-append_left : (n : ℕ) (xs ys : List A) → n ≤ length xs → take n (xs ++ ys) ≡ take n xs
  take-append_left zero xs ys h = refl
  take-append_left (suc n) [] ys h = absurd (omega arith)
  take-append_left (suc n) (x ∷ xs) ys h = ap (λ r. x ∷ r) (take-append_left n xs ys (omega arith))

  take_all : (n : ℕ) (xs : List A) → length xs ≤ n → take n xs ≡ xs
  take_all zero [] h = refl
  take_all zero (x ∷ xs) h = absurd (omega arith)
  take_all (suc n) [] h = refl
  take_all (suc n) (x ∷ xs) h = ap (λ r. x ∷ r) (take_all n xs (omega arith))

  take-reverse : (n : ℕ) (xs : List A) → take n (reverse xs) ≡ reverse (drop (length xs - n) xs)
  take-reverse n [] = take_all n [] (omega arith) ∙ sym (ap reverse (drop_nil (0 - n)))
  take-reverse n (x ∷ xs) = elim (Bool-cases (leb n (length xs))) [
    | inl q ↦
        ap (take n) (reverse-cons x xs)
        ∙ take-append_left n (reverse xs) (x ∷ []) (ground (arith, length-reverse xs))
        ∙ take-reverse n xs
        ∙ ap (λ i. reverse (drop i (x ∷ xs))) {x = suc (length xs - n)} (ground arith)
    | inr q ↦
        take_all n (reverse (x ∷ xs)) (ground (arith, length-reverse (x ∷ xs)))
        ∙ ap (λ i. reverse (drop i (x ∷ xs))) {x = 0} (ground arith)
  ]

  select-reverse : (p : A → Bool) (xs : List A) → select p (reverse xs) ≡ reverse (select p xs)
  select-reverse p [] = refl
  select-reverse p (x ∷ xs) =
      ap (select p) (reverse-cons x xs)
      ∙ select-append p (reverse xs) (x ∷ [])
      ∙ elim (Bool-cases (p x)) [
        | inl q ↦
            rw q (ap (λ r. r ++ x ∷ []) (select-reverse p xs) ∙ sym (reverse-cons x (select p xs)))
        | inr q ↦ rw q (append_nil (select p (reverse xs)) ∙ select-reverse p xs)
      ]

collect_recent-eq-take :
    (rule_id : String) (n : ℕ) (events : List Row)
    → collect_recent rule_id n events ≡ take n (select (is_of_rule rule_id) events)
unfolding collect_recent
collect_recent-eq-take rule_id zero events = refl
collect_recent-eq-take rule_id (suc n) [] = refl
collect_recent-eq-take rule_id (suc n) (event ∷ events) =
    ground (
      arith,
      collect_recent-eq-take rule_id n events,
      collect_recent-eq-take rule_id (suc n) events,
    )

-- GetRecent returns, oldest first, the last `n` of the stored events that belong to the rule, or of all
-- events for the empty id.
pub get_recent_lem :
    (rule_id : String) (n : ℕ) (s : AnomalyStore)
    → get_recent rule_id n s
      ≡ drop
          (length (select (is_of_rule rule_id) s.events) - n)
          (select (is_of_rule rule_id) s.events)
unfolding get_recent
get_recent_lem rule_id n s =
    let mine = select (is_of_rule rule_id) s.events in
    ap reverse (
      collect_recent-eq-take rule_id n (reverse s.events)
      ∙ ap (take n) (select-reverse (is_of_rule rule_id) s.events)
      ∙ take-reverse n mine)
    ∙ reverse-reverse (drop (length mine - n) mine)

-- The store holds the latest of a history, as many as its bound allows.
abbrev pub IsLatest : List Row → AnomalyStore → Type 0
IsLatest history s = s.events ≡ drop (length history - s.max_len) history

-- Add keeps the latest events: over the history with the new event, the store holds the last ones, up
-- to its bound, in their order.
pub add_anomaly-IsLatest :
    (history : List Row) (event : Row) (s : AnomalyStore)
    → IsLatest history s
    → IsLatest (history ++ event ∷ []) (add_anomaly event s)
unfolding add_anomaly
add_anomaly-IsLatest history event s h =
    let dropped = length history - s.max_len in
    let all = history ++ event ∷ [] in
    let kept : s.events ++ event ∷ [] ≡ drop dropped all =
      ap (λ r. r ++ event ∷ []) h ∙ sym (drop-append dropped history (event ∷ []) (omega arith)) in
    let size : length (s.events ++ event ∷ []) ≡ length all - dropped =
      ap length kept ∙ length-drop dropped all in
    let counted : length all ≡ suc (length history) =
      omega (arith, length-append history (event ∷ [])) in
    elim (Bool-cases (ltb s.max_len (length (s.events ++ event ∷ [])))) [
      | inl q ↦
          rw (q, add_anomaly)
            (ap (drop (length (s.events ++ event ∷ []) - s.max_len)) kept
              ∙ drop-drop _ dropped (length all - s.max_len) all (ground (arith, size, counted)))
      | inr q ↦ rw (q, add_anomaly) (kept ∙ ap (λ i. drop i all) (ground (arith, size, counted)))
    ]
