-- ===== src/Alert/Csv/RoundTrip.antt =====
-- What splitCSV returns, and that it reads back what a form writes.
use pulseboard.Common.{
  ℕ, zero, suc, Bool, true, false, ◌&&◌, List, [], ◌∷◌, ◌++◌, ◌≡◌, refl, sym, ap, ◌∙◌, arith, eqb,
  contains, if◌then◌else◌, Bool-cases, inl, inr, All,
}
use mathlib.Core.List.{append_assoc, append-nil}
use pulseboard.Alert.Csv.{
  bytes_eq, is_empty, trim_left, trim_right, trim_space, keep_item, split_from, split_csv,
  contains_csv,
}

-- The last byte is no space.
abbrev pub ends_well : List ℕ → Bool
ends_well [] = true
ends_well (c ∷ []) = if eqb c b' ' then false else true
ends_well (c ∷ d ∷ s) = ends_well (d ∷ s)

abbrev pub starts_well : List ℕ → Bool
starts_well [] = true
starts_well (c ∷ s) = if eqb c b' ' then false else true

abbrev pub no_comma : List ℕ → Bool
no_comma [] = true
no_comma (c ∷ s) = (if eqb c b',' then false else true) && no_comma s

-- An item of a list of values: not empty, no comma, no space at either end.
pub record IsItem (s : List ℕ) : Type 0 where
  pub filled : is_empty s ≡ false
  pub starts : starts_well s ≡ true
  pub ends : ends_well s ≡ true
  pub single : no_comma s ≡ true

trim_left-starts_well : (s : List ℕ) → starts_well (trim_left s) ≡ true
unfolding trim_left
trim_left-starts_well [] = refl
trim_left-starts_well (c ∷ s) = ground (arith, trim_left-starts_well s)

trim_left-no_comma : (s : List ℕ) → no_comma s ≡ true → no_comma (trim_left s) ≡ true
unfolding trim_left
trim_left-no_comma [] h = refl
trim_left-no_comma (c ∷ s) h = ground (arith, trim_left-no_comma s)

trim_right-no_comma : (s : List ℕ) → no_comma s ≡ true → no_comma (trim_right s) ≡ true
unfolding trim_right
trim_right-no_comma [] h = refl
trim_right-no_comma (c ∷ s) h = ground (arith, trim_right-no_comma s)

trim_right-starts_well : (s : List ℕ) → starts_well s ≡ true → starts_well (trim_right s) ≡ true
unfolding trim_right
trim_right-starts_well [] h = refl
trim_right-starts_well (c ∷ s) h = ground arith

ends_well-cons :
    (c : ℕ) (s : List ℕ)
    → ends_well s ≡ true
    → (is_empty s && eqb c b' ') ≡ false
    → ends_well (c ∷ s) ≡ true
ends_well-cons c [] h k = ground arith
ends_well-cons c (d ∷ s) h k = h

trim_right-ends_well : (s : List ℕ) → ends_well (trim_right s) ≡ true
unfolding trim_right
trim_right-ends_well [] = refl
trim_right-ends_well (c ∷ s) =
    ground (arith, trim_right-ends_well s, ends_well-cons c (trim_right s))

keep_item-IsItem :
    (s : List ℕ) (r : List (List ℕ))
    → no_comma s ≡ true
    → All IsItem r
    → All IsItem (keep_item (trim_space s) r)
unfolding keep_item trim_space
keep_item-IsItem s r n h = elim (Bool-cases (is_empty (trim_right (trim_left s)))) [
  | inl e ↦ rw e h
  | inr e ↦ rw e (
    record {
      filled = e;
      starts = trim_right-starts_well (trim_left s) (trim_left-starts_well s);
      ends = trim_right-ends_well (trim_left s);
      single = trim_right-no_comma (trim_left s) (trim_left-no_comma s n);
    },
    h,
  )
]

no_comma-append : (s t : List ℕ) → no_comma s ≡ true → no_comma t ≡ true → no_comma (s ++ t) ≡ true
no_comma-append [] t h k = k
no_comma-append (c ∷ s) t h k = ground (arith, no_comma-append s t)

split_from-IsItem : (item s : List ℕ) → no_comma item ≡ true → All IsItem (split_from item s)
unfolding split_from
split_from-IsItem item [] n = keep_item-IsItem item [] n tt
split_from-IsItem item (c ∷ s) n = elim (Bool-cases (eqb c b',')) [
  | inl e ↦ rw e (keep_item-IsItem item (split_from [] s) n (split_from-IsItem [] s refl))
  | inr e ↦
      rw e (split_from-IsItem (item ++ c ∷ []) s (no_comma-append item (c ∷ []) n (ground arith)))
]

-- Every value that splitCSV returns, whatever the text, is not empty, holds no comma, and neither
-- begins nor ends with a space.
pub split_csv-IsItem : (s : List ℕ) → All IsItem (split_csv s)
unfolding split_csv
split_csv-IsItem s = split_from-IsItem [] s refl

pub spaces : ℕ → List ℕ
spaces zero = []
spaces (suc n) = b' ' ∷ spaces n

-- The text of a list of values: a comma between two, and `pad` spaces behind each comma.
pub join_csv : ℕ → List (List ℕ) → List ℕ
join_csv pad [] = []
join_csv pad (x ∷ []) = x
join_csv pad (x ∷ y ∷ r) = x ++ b',' ∷ (spaces pad ++ join_csv pad (y ∷ r))

trim_left-spaces : (n : ℕ) (s : List ℕ) → starts_well s ≡ true → trim_left (spaces n ++ s) ≡ s
unfolding spaces trim_left
trim_left-spaces zero [] h = refl
trim_left-spaces zero (c ∷ s) h = ground arith
trim_left-spaces (suc n) s h = trim_left-spaces n s h

trim_right-ends_well_eq : (s : List ℕ) → ends_well s ≡ true → trim_right s ≡ s
unfolding trim_right
trim_right-ends_well_eq [] h = refl
trim_right-ends_well_eq (c ∷ []) h = ground arith
trim_right-ends_well_eq (c ∷ d ∷ s) h = rw (trim_right-ends_well_eq (d ∷ s) h)

trim_space-IsItem : (n : ℕ) (s : List ℕ) → IsItem s → trim_space (spaces n ++ s) ≡ s
unfolding trim_space
trim_space-IsItem n s h = rw (trim_left-spaces n s h.starts) (trim_right-ends_well_eq s h.ends)

trim_space-spaces : (n : ℕ) → trim_space (spaces n) ≡ []
unfolding trim_space trim_right
trim_space-spaces n =
    ap (λ t. trim_right (trim_left t)) (sym (append-nil (spaces n)))
    ∙ ap trim_right (trim_left-spaces n [] refl)

spaces-no_comma : (n : ℕ) → no_comma (spaces n) ≡ true
unfolding spaces
spaces-no_comma zero = refl
spaces-no_comma (suc n) = spaces-no_comma n

split_from-append :
    (item x s : List ℕ) → no_comma x ≡ true → split_from item (x ++ s) ≡ split_from (item ++ x) s
unfolding split_from
split_from-append item [] s h = rw append-nil
split_from-append item (c ∷ x) s h = elim (Bool-cases (eqb c b',')) [
  | inl e ↦ ground arith
  | inr e ↦ rw e (split_from-append (item ++ c ∷ []) x s (ground arith) ∙ rw append_assoc)
]

keep_item-IsItem_eq :
    (n : ℕ) (x : List ℕ) (r : List (List ℕ))
    → IsItem x
    → keep_item (trim_space (spaces n ++ x)) r ≡ x ∷ r
unfolding keep_item
keep_item-IsItem_eq n x r h = rw (trim_space-IsItem n x h) (rw h.filled)

-- One value and its comma are read off.
split_from-item :
    (n : ℕ) (x s : List ℕ) → IsItem x → split_from (spaces n) (x ++ b',' ∷ s) ≡ x ∷ split_from [] s
unfolding split_from
split_from-item n x s h =
    split_from-append (spaces n) x (b',' ∷ s) h.single ∙ keep_item-IsItem_eq n x (split_from [] s) h

split_from-join_csv :
    (n pad : ℕ) (items : List (List ℕ))
    → All IsItem items
    → split_from (spaces n) (join_csv pad items) ≡ items
unfolding join_csv
split_from-join_csv n pad [] h = unfold split_from keep_item in rw (trim_space-spaces n)
split_from-join_csv n pad (x ∷ []) h =
    ap (split_from (spaces n)) (sym (append-nil x))
    ∙ split_from-append (spaces n) x [] h.0.single
    ∙ (unfold split_from in keep_item-IsItem_eq n x [] h.0)
split_from-join_csv n pad (x ∷ y ∷ r) h =
    split_from-item n x _ h.0
    ∙ ap (λ t. x ∷ t)
        (split_from-append [] (spaces pad) _ (spaces-no_comma pad)
          ∙ split_from-join_csv pad pad (y ∷ r) h.1)

-- A text that holds well-formed values, with any number of spaces behind each comma, is read back
-- as those values: splitCSV returns them in order, and containsCSV finds exactly them.
pub contains_csv-join_csv :
    (pad : ℕ) (items : List (List ℕ)) (value : List ℕ)
    → All IsItem items
    → (split_csv (join_csv pad items) ≡ items)
      × (contains_csv (join_csv pad items) value ≡ contains items value)
unfolding split_csv contains_csv spaces
contains_csv-join_csv pad items value h =
    let e = split_from-join_csv 0 pad items h in (e, ap (λ l. contains l value) e)
