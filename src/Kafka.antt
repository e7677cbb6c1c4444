-- ===== src/Kafka.antt =====
-- internal/services/kafka.go: a rule is published as one message, and the producer waits for the
-- broker's report. The producer is a parameter: it answers from the messages produced before.
use velocity_engine_backend.Prelude.{
  ℕ, String, Bool, ◌≡◌, refl, ◌⊎◌, inl, inr, true, false, List, [], ◌∷◌, ◌++◌, Option, none, some,
  if◌then◌else◌, ltb, comparable_string,
}
use velocity_engine_backend.Json.{Value, Members, Row, str, obj, at, get_field}

-- What the producer's delivery channel yields: `message failed` is the report, with its error or not.
pub data Event : Type 0 where
  message : Bool → Event
  kafka_error : Event
  other_event : Event

-- A message given to Produce; `confirmed` when the broker reported its delivery in time.
pub record Sent : Type 0 where
  pub key : String
  pub content : String
  pub confirmed : Bool

-- `available` is getProducer's success, `accepts` Produce's, `flush` the messages still queued after
-- the wait, `event` the delivery report.
pub record Producer : Type 0 where
  pub available : List Sent → Bool
  pub accepts : List Sent → String → Bool
  pub flush : List Sent → ℕ
  pub event : List Sent → Event

-- `v.(map[string]interface{})` and `v.(string)`
abbrev pub as_object : Value → Option Members
as_object (obj fs) = some fs
as_object _ = none

abbrev pub as_key : Value → Option String
as_key (str s) = some s
as_key _ = none

abbrev pub is_delivered : Event → Bool
is_delivered (message failed) = elim failed [ true ↦ false | false ↦ true ]
is_delivered kafka_error = false
is_delivered other_event = false

-- The key of a rule's message: rule_metadata.rule_id.
unfoldable pub message_key : Row → Option String
unfolding at get_field
message_key rule_dict = elim (as_object (at "rule_metadata" rule_dict)) [
  | none ↦ none
  | some metadata ↦ as_key (get_field "rule_id" metadata)
]

module _ (marshal : Row → Option String) (producer : Producer) where
  -- Whether the report that Produce's channel and Flush give confirms the delivery.
  unfoldable pub confirms : List Sent → Bool
  confirms sent = if ltb 0 (producer.flush sent) then false else is_delivered (producer.event sent)

  -- Produce and the wait for its report.
  unfoldable pub produce : String → String → List Sent → Bool × List Sent
  unfolding confirms
  produce key content sent =
      if producer.accepts sent key
      then (
        confirms sent,
        sent ++ record { key = key; content = content; confirmed = confirms sent } ∷ [],
      )
      else (false, sent)

  -- PublishRule: the result, and the messages given to the producer so far.
  unfoldable pub publish : Row → List Sent → Bool × List Sent
  unfolding message_key produce
  publish rule_dict sent =
      if producer.available sent
      then elim (message_key rule_dict) [
        | none ↦ (false, sent)
        | some key ↦ elim (marshal rule_dict) [
          | none ↦ (false, sent)
          | some content ↦ produce key content sent
        ]
      ]
      else (false, sent)

  -- One message goes out under the rule's id and with the rule's JSON, and the broker confirms it.
  abbrev pub IsDelivered : Row → List Sent → List Sent → Type 0
  IsDelivered rule_dict sent sent_after =
      (key : String) × (content : String) × (message_key rule_dict ≡ some key)
      × (marshal rule_dict ≡ some content)
      × (sent_after ≡ sent ++ record { key = key; content = content; confirmed = true } ∷ [])

  -- Nothing goes out, or one message that is not confirmed.
  abbrev pub IsUndelivered : List Sent → List Sent → Type 0
  IsUndelivered sent sent_after =
      (sent_after ≡ sent)
      ⊎ ((key : String) × (content : String) × (sent_after
            ≡ sent ++ record { key = key; content = content; confirmed = false } ∷ []))

  produce_by :
      (sent : List Sent) (key content : String) (accepted is_confirmed : Bool)
      → producer.accepts sent key ≡ accepted
      → confirms sent ≡ is_confirmed
      → (((produce key content sent).0 ≡ true)
          × ((produce key content sent).1
              ≡ sent ++ record { key = key; content = content; confirmed = true } ∷ []))
        ⊎ (((produce key content sent).0 ≡ false) × IsUndelivered sent (produce key content sent).1)
  unfolding produce
  produce_by sent key content false b a c = rw (a, produce) (inr (refl, inl refl))
  produce_by sent key content true false a c =
      rw (a, c, produce) (inr (refl, inr (key, content, refl)))
  produce_by sent key content true true a c = rw (a, c, produce) (inl (refl, refl))

  abbrev IsPublished : Row → List Sent → Bool × List Sent → Type 0
  IsPublished rule_dict sent result =
      ((result.0 ≡ true) × IsDelivered rule_dict sent result.1)
      ⊎ ((result.0 ≡ false) × IsUndelivered sent result.1)

  publish_by :
      (rule_dict : Row) (sent : List Sent) (available : Bool) (key content : Option String)
      → producer.available sent ≡ available
      → message_key rule_dict ≡ key
      → marshal rule_dict ≡ content
      → IsPublished rule_dict sent (publish rule_dict sent)
  unfolding publish
  publish_by rule_dict sent false key content a k m = rw (a, publish) (inr (refl, inl refl))
  publish_by rule_dict sent true none content a k m = rw (a, k, publish) (inr (refl, inl refl))
  publish_by rule_dict sent true (some key) none a k m =
      rw (a, k, m, publish) (inr (refl, inl refl))
  publish_by rule_dict sent true (some key) (some content) a k m =
      rw (a, k, m, publish)
        (elim (produce_by sent key content _ _ refl refl) [
          | inl (t, e) ↦ inl (t, (key, content, refl, refl, e))
          | inr u ↦ inr u
        ])

  -- PublishRule returns true exactly when it gave the producer a message, under the rule's id and with
  -- the rule's JSON, and the broker confirmed it; otherwise it gave at most one, unconfirmed.
  pub publish_lem :
      (rule_dict : Row) (sent : List Sent)
      → (((publish rule_dict sent).0 ≡ true)
          × IsDelivered rule_dict sent (publish rule_dict sent).1)
        ⊎ (((publish rule_dict sent).0 ≡ false) × IsUndelivered sent (publish rule_dict sent).1)
  publish_lem rule_dict sent = publish_by rule_dict sent _ _ _ refl refl refl
