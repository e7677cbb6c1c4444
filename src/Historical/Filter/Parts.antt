-- ===== src/Historical/Filter/Parts.antt =====
-- The SQL that one condition of a filter gives: which characters it has, and how many placeholders.
use velocity_engine_backend.Prelude.{
  ℕ, ◌+◌, String, ◌≡◌, refl, sym, ◌∙◌, Bool, true, false, ◌&&◌, ◌||◌, List, [], ◌∷◌, some, ◌==◌,
  comparable_string, comparable_nat, str_append, leb, length, inl, inr, Bool-cases, arith,
}
use Prim.Native.Char.{code}
use velocity_engine_backend.Prelude.Text.{
  concat, every, occurrences, every-append, occurrences-append, occurrences-every,
}
use velocity_engine_backend.Json.{Value}
use velocity_engine_backend.Historical.{
  Strings, Fragment, is_word, is_identifier, validate_identifier,
}
use velocity_engine_backend.Historical.Filter.{placeholder_list}

-- The characters of the templates: letters, and the signs of operators, lists and calls.
abbrev pub is_plain : ℕ → Bool
is_plain c =
    (leb b'a' c && leb c b'z')
    || (leb b'A' c && leb c b'Z')
    || c == b' '
    || c == b'('
    || c == b')'
    || c == b','
    || c == b'?'
    || c == b'='
    || c == b'<'
    || c == b'>'
    || c == b'!'
    || c == b'_'

module _ (lib : Strings) where
  abbrev pub is_safe : ℕ → Bool
  is_safe c = is_plain c || is_word lib c

  -- A text of safe characters with `n` question marks.
  pub record Marks (n : ℕ) (s : String) : Type 0 where
    pub safe : every is_safe s ≡ true
    pub marks : occurrences b'?' s ≡ n

  pub Marks-append :
      (m n : ℕ) (s t : String) → Marks m s → Marks n t → Marks (m + n) (str_append s t)
  Marks-append m n s t a b = record {
    safe = every-append is_safe s t ∙ rw (a.safe, b.safe) refl;
    marks = occurrences-append b'?' s t ∙ rw (a.marks, b.marks) refl;
  }

  pub Marks-count : {m n : ℕ} {s : String} → m ≡ n → Marks m s → Marks n s
  Marks-count e h = record { safe = h.safe; marks = h.marks ∙ e }

  -- A template around a part.
  pub Marks-around :
      (n k : ℕ) (before part after : String)
      → Marks 0 before
      → Marks n part
      → Marks k after
      → Marks (n + k) (concat (before ∷ part ∷ after ∷ []))
  unfolding every occurrences
  Marks-around n k before part after b p a = Marks-count (omega arith) (
      Marks-append 0 (n + (k + 0)) before _ b (
        Marks-append n (k + 0) part _ p
          (Marks-append k 0 after "" a (record { safe = refl; marks = refl }))))

  every_mono :
      (p q : ℕ → Bool) (s : String)
      → ((c : ℕ) → p c ≡ true → q c ≡ true)
      → every p s ≡ true
      → every q s ≡ true
  unfolding every
  every_mono p q String.[] h e = refl
  every_mono p q (String.◌∷◌ c s) h e = ground (arith, h (code c), every_mono p q s h)

  -- The fragment's placeholders are as many as its parameters, and its characters are safe.
  abbrev pub IsSound : Fragment → Type 0
  IsSound p = Marks (length p.params) p.sql

  module _ (no_mark : is_word lib b'?' ≡ false) where
    identifier-Marks : (s : String) → is_identifier lib s ≡ true → Marks 0 s
    unfolding is_identifier every occurrences
    identifier-Marks String.[] h = absurd (ground arith)
    identifier-Marks (String.◌∷◌ c s) h =
        let words : every (is_word lib) (String.◌∷◌ c s) ≡ true = ground arith in
        record {
          safe = every_mono (is_word lib) is_safe (String.◌∷◌ c s) (λ k e. ground arith) words;
          marks = occurrences-every (is_word lib) b'?' (String.◌∷◌ c s) no_mark words;
        }

    pub validate_identifier-Marks :
        (name field : String) → validate_identifier lib name ≡ some field → Marks 0 field
    unfolding validate_identifier
    validate_identifier-Marks name field e =
        elim (Bool-cases (is_identifier lib (lib.trim_space (lib.to_lower name)))) [
          | inl q ↦
              let same : lib.trim_space (lib.to_lower name) ≡ field = ground arith in
              rw (sym same) (identifier-Marks (lib.trim_space (lib.to_lower name)) q)
          | inr q ↦ absurd (ground arith)
        ]

  pub placeholder_list-Marks :
      (item : Value) (items : List Value)
      → Marks (length (item ∷ items)) (placeholder_list (item ∷ items))
  unfolding placeholder_list every occurrences
  placeholder_list-Marks item [] = record { safe = refl; marks = refl }
  placeholder_list-Marks item (next ∷ items) = Marks-count (omega arith) (
      Marks-append 1 _ "?" _ (record { safe = refl; marks = refl })
        (Marks-append 0 _ ", " _ (record { safe = refl; marks = refl })
          (placeholder_list-Marks next items)))
