-- ===== src/Rules/Concurrent/View.antt =====
-- rulesDB of internal/handlers/rules.go read through its pointers: what a write, a new record and a
-- deletion in the shared memory are for the map from ids to records.
use velocity_engine_backend.Prelude.{
  ℕ, zero, suc, String, ◌≡◌, ◌≢◌, refl, sym, ap, ◌∙◌, inl, inr, List, [], ◌∷◌, ◌++◌, none, some,
  ◌==◌, comparable_string, ==_iff, ==_self, Bool-cases, length, get_elem?, get_elem?-append_left,
  get_elem?-append_last, lt_of_get_elem?, arith,
}
use velocity_engine_backend.Prelude.Maps.{Map, lookup, insert, remove, IsUnique}
use velocity_engine_backend.Models.{RuleRecord}
use velocity_engine_backend.Rules.{World}
use velocity_engine_backend.Rules.Concurrent.{Shared, update_at}
use velocity_engine_backend.Rules.Concurrent.Sound.{IsOwner}

-- Each id with the record that its pointer leads to.
unfoldable pub view : Map String ℕ → List RuleRecord → Map String RuleRecord
view [] heap = []
view ((k, address) ∷ m) heap = elim (get_elem? heap address) [
  | none ↦ view m heap
  | some r ↦ (k, r) ∷ view m heap
]

unfoldable pub world_of : Shared → World
unfolding view
world_of s = record { rules_db = view s.table s.heap; statements = s.statements; sent = s.sent }

-- Every pointer leads to the record of its id.
abbrev pub IsLinked : List RuleRecord → Map String ℕ → Type 0
IsLinked heap [] = Unit
IsLinked heap ((k, address) ∷ m) = IsOwner heap address k × IsLinked heap m

pub linked :
    (heap : List RuleRecord) (m : Map String ℕ)
    → IsUnique m
    → ((k : String) (address : ℕ) → lookup k m ≡ some address → IsOwner heap address k)
    → IsLinked heap m
unfolding lookup
linked heap [] u h = tt
linked heap ((j, b) ∷ m) (fresh, u) h = (
  h j b (rw (==_self j) refl),
  linked heap m u (λ k a e. elim (Bool-cases (j == k)) [
    | inr q ↦ h k a (rw q e)
    | inl q ↦
        let same : j ≡ k = (==_iff j k).0 q in
        let gone : lookup k m ≡ none = rw (sym same) fresh in absurd (ground arith)
  ]),
)

pub lookup-view-none :
    (k : String) (m : Map String ℕ) (heap : List RuleRecord)
    → lookup k m ≡ none
    → IsLinked heap m
    → lookup k (view m heap) ≡ none
unfolding lookup view
lookup-view-none k [] heap e l = refl
lookup-view-none k ((j, b) ∷ m) heap e ((r, there, named), l) = elim (Bool-cases (j == k)) [
  | inl q ↦ absurd (ground arith)
  | inr q ↦ rw (view, there, q) (lookup-view-none k m heap (ground arith) l)
]

pub lookup-view-some :
    (k : String) (m : Map String ℕ) (heap : List RuleRecord) (address : ℕ) (r : RuleRecord)
    → lookup k m ≡ some address
    → get_elem? heap address ≡ some r
    → IsLinked heap m
    → lookup k (view m heap) ≡ some r
unfolding lookup view
lookup-view-some k [] heap address r e g l = absurd (ground arith)
lookup-view-some k ((j, b) ∷ m) heap address r e g ((s, there, named), l) =
    elim (Bool-cases (j == k)) [
      | inl q ↦
          rw (view, there, q)
            (let same : b ≡ address = ground arith in sym there ∙ ap (get_elem? heap) same ∙ g)
      | inr q ↦ rw (view, there, q) (lookup-view-some k m heap address r (ground arith) g l)
    ]

view-append :
    (m : Map String ℕ) (heap : List RuleRecord) (r : RuleRecord)
    → IsLinked heap m
    → view m (heap ++ r ∷ []) ≡ view m heap
unfolding view
view-append [] heap r l = refl
view-append ((j, b) ∷ m) heap r ((s, there, named), l) =
    let still = get_elem?-append_left heap (r ∷ []) b (lt_of_get_elem? heap b there) ∙ there in
    rw (view, still, there)
      (ap (λ (v : Map String RuleRecord). (j, s) ∷ v) (view-append m heap r l))

-- A new record under a new id
pub view-insert :
    (k : String) (m : Map String ℕ) (heap : List RuleRecord) (r : RuleRecord)
    → lookup k m ≡ none
    → IsLinked heap m
    → view (insert k (length heap) m) (heap ++ r ∷ []) ≡ insert k r (view m heap)
unfolding lookup view insert
view-insert k [] heap r e l = rw (view, get_elem?-append_last heap r) refl
view-insert k ((j, b) ∷ m) heap r e ((s, there, named), l) = elim (Bool-cases (j == k)) [
  | inl q ↦ absurd (ground arith)
  | inr q ↦
      let still = get_elem?-append_left heap (r ∷ []) b (lt_of_get_elem? heap b there) ∙ there in
      rw (q, view, still, there, q)
        (ap (λ (v : Map String RuleRecord). (j, s) ∷ v) (view-insert k m heap r (ground arith) l))
]

pub view-remove :
    (k : String) (m : Map String ℕ) (heap : List RuleRecord)
    → IsLinked heap m
    → view (remove k m) heap ≡ remove k (view m heap)
unfolding view remove
view-remove k [] heap l = refl
view-remove k ((j, b) ∷ m) heap ((s, there, named), l) = elim (Bool-cases (j == k)) [
  | inl q ↦ rw (q, view, there, q) refl
  | inr q ↦
      rw (q, view, there, q)
        (ap (λ (v : Map String RuleRecord). (j, s) ∷ v) (view-remove k m heap l))
]

get_elem?-update_at_ne :
    (heap : List RuleRecord) (i j : ℕ) (f : RuleRecord → RuleRecord)
    → i ≢ j
    → get_elem? (update_at i f heap) j ≡ get_elem? heap j
get_elem?-update_at_ne [] i j f n = refl
get_elem?-update_at_ne (r ∷ rs) zero zero f n = absurd (n refl)
get_elem?-update_at_ne (r ∷ rs) zero (suc j) f n = refl
get_elem?-update_at_ne (r ∷ rs) (suc i) zero f n = refl
get_elem?-update_at_ne (r ∷ rs) (suc i) (suc j) f n =
    get_elem?-update_at_ne rs i j f (λ e. n (ap suc e))

pub get_elem?-update_at_self :
    (heap : List RuleRecord) (i : ℕ) (f : RuleRecord → RuleRecord) (r : RuleRecord)
    → get_elem? heap i ≡ some r
    → get_elem? (update_at i f heap) i ≡ some (f r)
get_elem?-update_at_self [] i f r e = absurd (ground arith)
get_elem?-update_at_self (s ∷ rs) zero f r e =
    let same : s ≡ r = ground arith in ap (λ (t : RuleRecord). some (f t)) same
get_elem?-update_at_self (s ∷ rs) (suc i) f r e = get_elem?-update_at_self rs i f r e

-- A write that concerns none of these ids
view-update_other :
    (m : Map String ℕ) (heap : List RuleRecord) (address : ℕ) (f : RuleRecord → RuleRecord)
    (r : RuleRecord)
    → get_elem? heap address ≡ some r
    → lookup r.id m ≡ none
    → IsLinked heap m
    → view m (update_at address f heap) ≡ view m heap
unfolding lookup view
view-update_other [] heap address f r g e l = refl
view-update_other ((j, b) ∷ m) heap address f r g e ((s, there, named), l) =
    elim (Bool-cases (j == r.id)) [
      | inl q ↦ absurd (ground arith)
      | inr q ↦
          let apart : address ≢ b = λ same.
            let one : r ≡ s = ground (arith, ap (get_elem? heap) same) in
            let named' : j ≡ r.id = rw one (sym named) in
            absurd (ground (arith, (==_iff j r.id).1 named')) in
          let still = get_elem?-update_at_ne heap address b f apart ∙ there in
          rw (view, still, there)
            (ap (λ (v : Map String RuleRecord). (j, s) ∷ v)
              (view-update_other m heap address f r g (ground arith) l))
    ]

linked-id :
    (k : String) (m : Map String ℕ) (heap : List RuleRecord) (address : ℕ) (r : RuleRecord)
    → lookup k m ≡ some address
    → get_elem? heap address ≡ some r
    → IsLinked heap m
    → r.id ≡ k
unfolding lookup
linked-id k [] heap address r e g l = absurd (ground arith)
linked-id k ((j, b) ∷ m) heap address r e g ((s, there, named), l) = elim (Bool-cases (j == k)) [
  | inl q ↦
      let same : b ≡ address = ground arith in
      let one : s ≡ r = ground (arith, ap (get_elem? heap) same) in
      rw (sym one) (named ∙ (==_iff j k).0 q)
  | inr q ↦ linked-id k m heap address r (ground arith) g l
]

-- A write through the pointer of an id
pub view-update_at :
    (k : String) (m : Map String ℕ) (heap : List RuleRecord) (address : ℕ)
    (f : RuleRecord → RuleRecord) (r : RuleRecord)
    → lookup k m ≡ some address
    → get_elem? heap address ≡ some r
    → IsUnique m
    → IsLinked heap m
    → view m (update_at address f heap) ≡ insert k (f r) (view m heap)
unfolding lookup view insert
view-update_at k [] heap address f r e g u l = absurd (ground arith)
view-update_at k ((j, b) ∷ m) heap address f r e g (fresh, u) ((s, there, named), l) =
    elim (Bool-cases (j == k)) [
      | inl q ↦
          let same : b ≡ address = ground arith in
          let one : s ≡ r = ground (arith, ap (get_elem? heap) same) in
          let named' : j ≡ r.id = rw (sym one) (sym named) in
          let new : get_elem? (update_at address f heap) b ≡ some (f r) =
            ap (get_elem? (update_at address f heap)) same
            ∙ get_elem?-update_at_self heap address f r g in
          rw (view, new, there, q)
            (ap (λ (v : Map String RuleRecord). (j, f r) ∷ v)
              (view-update_other m heap address f r g (rw (sym named') fresh) l))
      | inr q ↦
          let apart : address ≢ b = λ same.
            let one : r ≡ s = ground (arith, ap (get_elem? heap) same) in
            let id = linked-id k m heap address r (ground arith) g l in
            let named' : j ≡ k = sym named ∙ sym (ap (λ (t : RuleRecord). t.id) one) ∙ id in
            absurd (ground (arith, (==_iff j k).1 named')) in
          let still = get_elem?-update_at_ne heap address b f apart ∙ there in
          rw (view, still, there, q)
            (ap (λ (v : Map String RuleRecord). (j, s) ∷ v)
              (view-update_at k m heap address f r (ground arith) g u l))
    ]
