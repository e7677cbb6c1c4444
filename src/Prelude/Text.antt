-- ===== src/Prelude/Text.antt =====
-- Texts that are put together from parts, and what each of their characters satisfies.
use Prim.Native.Nat.{ℕ, suc, ◌+◌}
use Prim.Native.Char.{code}
use Prim.Native.String.{String, ◌++◌ as str_append}
use text.Mathlib.TextLemmas.{nil-append, cons-append}
use mathlib.Core.Path.{◌≡◌, refl, ap}
use mathlib.Core.Bool.{Bool, true, false, ◌&&◌}
use mathlib.Core.List.{List, [], ◌∷◌}
use native.Mathlib.Omega.{arith}
use velocity_engine_backend.Prelude.Tests.{if◌then◌else◌, nat_beq, nat_beq_iff}

-- strings.Join, and the parts without a separator.
abbrev pub join : String → List String → String
join sep [] = ""
join sep (s ∷ []) = s
join sep (s ∷ t ∷ rest) = str_append s (str_append sep (join sep (t ∷ rest)))

abbrev pub concat : List String → String
concat [] = ""
concat (s ∷ rest) = str_append s (concat rest)

-- Whether a test holds of every code point.
unfoldable pub every : (ℕ → Bool) → String → Bool
every p String.[] = true
every p (String.◌∷◌ c s) = p (code c) && every p s

-- How often a code point stands in a text.
unfoldable pub occurrences : ℕ → String → ℕ
occurrences k String.[] = 0
occurrences k (String.◌∷◌ c s) =
    let rest = occurrences k s in if nat_beq (code c) k then suc rest else rest

pub every-append :
    (p : ℕ → Bool) (s t : String) → every p (str_append s t) ≡ (every p s && every p t)
unfolding every
every-append p String.[] t = rw nil-append refl
every-append p (String.◌∷◌ c s) t = rw cons-append (ground (arith, every-append p s t))

pub occurrences-append :
    (k : ℕ) (s t : String) → occurrences k (str_append s t) ≡ occurrences k s + occurrences k t
unfolding occurrences
occurrences-append k String.[] t = rw nil-append (omega arith)
occurrences-append k (String.◌∷◌ c s) t = rw cons-append (ground (arith, occurrences-append k s t))

-- A test that a code point fails leaves that code point out.
pub occurrences-every :
    (p : ℕ → Bool) (k : ℕ) (s : String) → p k ≡ false → every p s ≡ true → occurrences k s ≡ 0
unfolding occurrences every
occurrences-every p k String.[] n h = refl
occurrences-every p k (String.◌∷◌ c s) n h =
    ground (arith, nat_beq_iff (code c) k, ap p {x = code c} {y = k}, occurrences-every p k s n)

-- How often a code point stands in several texts.
abbrev pub total : ℕ → List String → ℕ
total k [] = 0
total k (s ∷ rest) = occurrences k s + total k rest

pub occurrences-concat :
    (k : ℕ) (parts : List String) → occurrences k (concat parts) ≡ total k parts
unfolding occurrences
occurrences-concat k [] = refl
occurrences-concat k (s ∷ rest) =
    omega (arith, occurrences-append k s (concat rest), occurrences-concat k rest)

-- Separators without the code point add nothing.
pub occurrences-join :
    (k : ℕ) (sep : String) (parts : List String)
    → occurrences k sep ≡ 0
    → occurrences k (join sep parts) ≡ total k parts
unfolding occurrences
occurrences-join k sep [] h = refl
occurrences-join k sep (s ∷ []) h = omega arith
occurrences-join k sep (s ∷ t ∷ rest) h = omega (
  arith,
  occurrences-append k s (str_append sep (join sep (t ∷ rest))),
  occurrences-append k sep (join sep (t ∷ rest)),
  occurrences-join k sep (t ∷ rest) h,
)
