-- ===== src/Alert/Routing/Distinct.antt =====
-- Lists of channels: what a selection keeps, and lists that name no channel twice.
use pulseboard.Common.{
  String, string_eq, Bool, true, false, ◌&&◌, List, [], ◌∷◌, ◌++◌, ◌≡◌, refl, ap, arith, ◌==◌,
  eq_iff, contains, contains-append, distinct, select, ==→≡, Bool-cases, inl, inr,
}

pub select-append :
    (p : String → Bool) (xs ys : List String) → select p (xs ++ ys) ≡ select p xs ++ select p ys
select-append p [] ys = refl
select-append p (x ∷ xs) ys = ground (arith, select-append p xs ys)

pub contains-select :
    (p : String → Bool) (xs : List String) (c : String)
    → contains (select p xs) c ≡ (contains xs c && p c)
contains-select p [] c = refl
contains-select p (x ∷ xs) c = elim (Bool-cases (x == c)) [
  | inl e ↦
      let same : p x ≡ p c = ap p (==→≡ x c e) in
      ground (arith, same, e, eq_iff x c, contains-select p xs c)
  | inr f ↦ ground (arith, f, eq_iff x c, contains-select p xs c)
]

pub distinct-select :
    (p : String → Bool) (xs : List String) → distinct xs ≡ true → distinct (select p xs) ≡ true
distinct-select p [] h = refl
distinct-select p (x ∷ xs) h = ground (arith, h, distinct-select p xs, contains-select p xs x)

pub distinct-append_one :
    (xs : List String) (a : String)
    → distinct xs ≡ true
    → contains xs a ≡ false
    → distinct (xs ++ a ∷ []) ≡ true
distinct-append_one [] a h k = refl
distinct-append_one (x ∷ xs) a h k =
    ground (arith, distinct-append_one xs a, contains-append xs (a ∷ []) x, eq_iff x a, eq_iff a x)
