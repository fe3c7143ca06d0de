-- ===== src/Alert/Csv.antt =====
-- splitCSV, trimSpace and containsCSV of internal/alert/engine.go, over the bytes of a text.
pub mod RoundTrip
use Prim.Native.Char.{code}
use Prim.Native.String.{String}
use pulseboard.Common.{
  ℕ, Bool, true, false, ◌&&◌, List, [], ◌∷◌, ◌++◌, ◌≡◌, ◌↔◌, arith, Comparable, ◌==◌, eqb, contains,
  if◌then◌else◌,
}

-- The code points of a text. The two bytes that the code looks for are ASCII, and no byte of a
-- longer UTF-8 sequence equals them.
abbrev pub codes : String → List ℕ
codes (String.◌∷◌ first rest) = let tail = codes rest in code first ∷ tail
codes String.[] = []

abbrev bytes_beq : List ℕ → List ℕ → Bool
bytes_beq [] [] = true
bytes_beq [] (y ∷ ys) = false
bytes_beq (x ∷ xs) [] = false
bytes_beq (x ∷ xs) (y ∷ ys) = eqb x y && bytes_beq xs ys

pub bytes_beq_iff : (xs ys : List ℕ) → (bytes_beq xs ys ≡ true) ↔ (xs ≡ ys)
bytes_beq_iff [] [] = ground arith
bytes_beq_iff [] (y ∷ ys) = ground arith
bytes_beq_iff (x ∷ xs) [] = ground arith
bytes_beq_iff (x ∷ xs) (y ∷ ys) = ground (arith, bytes_beq_iff xs ys)

instance abbrev pub bytes_eq : Comparable (List ℕ)
bytes_eq = record { same = bytes_beq; same_iff = bytes_beq_iff }

abbrev pub is_empty : List ℕ → Bool
is_empty [] = true
is_empty (c ∷ s) = false

-- The first loop of trimSpace.
pub trim_left : List ℕ → List ℕ
trim_left [] = []
trim_left (c ∷ s) = let rest = trim_left s in if eqb c b' ' then rest else c ∷ s

-- The second loop of trimSpace: a space goes if only spaces follow it.
pub trim_right : List ℕ → List ℕ
trim_right [] = []
trim_right (c ∷ s) = let rest = trim_right s in if is_empty rest && eqb c b' ' then [] else c ∷ rest

pub trim_space : List ℕ → List ℕ
trim_space s = trim_right (trim_left s)

-- `if item != "" { result = append(result, item) }`
pub keep_item : List ℕ → List (List ℕ) → List (List ℕ)
keep_item item result = if is_empty item then result else item ∷ result

-- The loop of splitCSV: `item` is s[start:i].
pub split_from : List ℕ → List ℕ → List (List ℕ)
split_from item [] = keep_item (trim_space item) []
split_from item (c ∷ s) =
    let next = keep_item (trim_space item) (split_from [] s) in
    let more = split_from (item ++ c ∷ []) s in if eqb c b',' then next else more

pub split_csv : List ℕ → List (List ℕ)
split_csv s = split_from [] s

unfoldable pub contains_csv : List ℕ → List ℕ → Bool
unfolding split_csv split_from keep_item trim_space trim_left trim_right
contains_csv csv value = contains (split_csv csv) value
