-- ===== src/Spool/Drain/Rising.antt =====
-- Rows in the order of their numbers, and what a test of all of them keeps.
use pulseboard.Common.{
  ℕ, zero, suc, ◌+◌, ◌≤◌, ◌<◌, Bool, true, false, ◌||◌, List, [], ◌∷◌, ◌++◌, ◌≡◌, refl, arith, ltb,
  eqb, all, length, select, Bool-cases, inl, inr,
}
use pulseboard.Spool.Model.{PendingEvent, SpooledEvent}
use pulseboard.Spool.Queue.{numbered, delete_oldest_bytes}
use pulseboard.Spool.Drain.{take}

-- Every number is above `lo` and at most `hi`, and each is above the one before.
abbrev pub Rising : ℕ → ℕ → List SpooledEvent → Type 0
Rising lo hi [] = Unit
Rising lo hi (r ∷ rows) = (lo < r.seq) × (r.seq ≤ hi) × Rising r.seq hi rows

abbrev pub has_seq : List SpooledEvent → ℕ → Bool
has_seq [] n = false
has_seq (r ∷ rows) n = eqb r.seq n || has_seq rows n

-- The last number of a batch, or the cursor where there is none.
abbrev pub reach : ℕ → List SpooledEvent → ℕ
reach from [] = from
reach from (r ∷ rows) = reach r.seq rows

pub Rising-weaken :
    (lo hi lo' hi' : ℕ) (rows : List SpooledEvent)
    → lo' ≤ lo
    → hi ≤ hi'
    → Rising lo hi rows
    → Rising lo' hi' rows
Rising-weaken lo hi lo' hi' [] a b h = tt
Rising-weaken lo hi lo' hi' (r ∷ rows) a b (l, u, h) =
    (omega arith, omega arith, Rising-weaken r.seq hi r.seq hi' rows (omega arith) b h)

pub Rising-select :
    (p : SpooledEvent → Bool) (lo hi : ℕ) (rows : List SpooledEvent)
    → Rising lo hi rows
    → Rising lo hi (select p rows)
Rising-select p lo hi [] h = tt
Rising-select p lo hi (r ∷ rows) (l, u, h) = elim (Bool-cases (p r)) [
  | inl t ↦ rw t (l, u, Rising-select p r.seq hi rows h)
  | inr f ↦ rw f (
      Rising-weaken r.seq hi lo hi (select p rows) (omega arith) (omega arith)
        (Rising-select p r.seq hi rows h))
]

pub Rising-select_above :
    (send lo hi : ℕ) (rows : List SpooledEvent)
    → Rising lo hi rows
    → Rising send hi (select (λ r. ltb send r.seq) rows)
Rising-select_above send lo hi [] h = tt
Rising-select_above send lo hi (r ∷ rows) (l, u, h) = elim (Bool-cases (ltb send r.seq)) [
  | inl t ↦ rw t (ground (arith, t), u, Rising-select (λ q. ltb send q.seq) r.seq hi rows h)
  | inr f ↦ rw f (Rising-select_above send r.seq hi rows h)
]

pub Rising-take :
    (n lo hi : ℕ) (rows : List SpooledEvent) → Rising lo hi rows → Rising lo hi (take n rows)
Rising-take zero lo hi rows h = tt
Rising-take (suc n) lo hi [] h = tt
Rising-take (suc n) lo hi (r ∷ rows) (l, u, h) = (l, u, Rising-take n r.seq hi rows h)

pub Rising-delete_oldest_bytes :
    (limit freed target lo hi : ℕ) (rows : List SpooledEvent)
    → Rising lo hi rows
    → Rising lo hi (delete_oldest_bytes limit freed target rows)
Rising-delete_oldest_bytes zero freed target lo hi rows h = h
Rising-delete_oldest_bytes (suc limit) freed target lo hi [] h = tt
Rising-delete_oldest_bytes (suc limit) freed target lo hi (r ∷ rows) (l, u, h) =
    elim (Bool-cases (ltb freed target)) [
      | inl t ↦ rw t (
          Rising-weaken r.seq hi lo hi
            (delete_oldest_bytes limit (freed + length r.event.payload) target rows) (omega arith)
            (omega arith)
            (Rising-delete_oldest_bytes limit (freed + length r.event.payload) target r.seq hi rows
              h))
      | inr f ↦ rw f (l, u, h)
    ]

Rising-numbered :
    (lo n : ℕ) (es : List PendingEvent) → lo ≤ n → Rising lo (n + length es) (numbered (suc n) es)
Rising-numbered lo n [] h = tt
Rising-numbered lo n (e ∷ es) h = (
  omega arith,
  omega arith,
  Rising-weaken (suc n) (suc n + length es) (suc n) (n + suc (length es))
      (numbered (suc (suc n)) es) (omega arith) (omega arith)
      (Rising-numbered (suc n) (suc n) es (omega arith)),
)

-- What is appended is numbered above all that stand in the file.
pub Rising-append_numbered :
    (lo n : ℕ) (rows : List SpooledEvent) (es : List PendingEvent)
    → lo ≤ n
    → Rising lo n rows
    → Rising lo (n + length es) (rows ++ numbered (suc n) es)
Rising-append_numbered lo n [] es l h = Rising-numbered lo n es l
Rising-append_numbered lo n (r ∷ rows) es l (a, b, h) =
    (a, omega arith, Rising-append_numbered r.seq n rows es b h)

pub reach_bounds :
    (from hi : ℕ) (rows : List SpooledEvent)
    → from ≤ hi
    → Rising from hi rows
    → (from ≤ reach from rows) × (reach from rows ≤ hi)
reach_bounds from hi [] l h = (omega arith, l)
reach_bounds from hi (r ∷ rows) l (a, b, h) = omega (arith, reach_bounds r.seq hi rows b h)

-- A number in a rising list is above its lower bound.
pub has_seq-lt :
    (lo hi n : ℕ) (rows : List SpooledEvent) → Rising lo hi rows → has_seq rows n ≡ true → lo < n
has_seq-lt lo hi n [] h e = ground arith
has_seq-lt lo hi n (r ∷ rows) (a, b, h) e = ground (arith, has_seq-lt r.seq hi n rows h)

module _ (f : SpooledEvent → Bool) where
  pub all-weaken :
      (g : SpooledEvent → Bool) (rows : List SpooledEvent)
      → ((r : SpooledEvent) → f r ≡ true → g r ≡ true)
      → all f rows ≡ true
      → all g rows ≡ true
  all-weaken g [] w h = refl
  all-weaken g (r ∷ rows) w h = ground (arith, w r, all-weaken g rows w)

  pub all-weaken_both :
      (g k : SpooledEvent → Bool) (rows : List SpooledEvent)
      → ((r : SpooledEvent) → f r ≡ true → g r ≡ true → k r ≡ true)
      → all f rows ≡ true
      → all g rows ≡ true
      → all k rows ≡ true
  all-weaken_both g k [] w h i = refl
  all-weaken_both g k (r ∷ rows) w h i = ground (arith, w r, all-weaken_both g k rows w)

  pub all-append :
      (xs ys : List SpooledEvent) → all f xs ≡ true → all f ys ≡ true → all f (xs ++ ys) ≡ true
  all-append [] ys h k = k
  all-append (x ∷ xs) ys h k = ground (arith, all-append xs ys)

  pub all-select :
      (p : SpooledEvent → Bool) (rows : List SpooledEvent)
      → all f rows ≡ true
      → all f (select p rows) ≡ true
  all-select p [] h = refl
  all-select p (r ∷ rows) h = ground (arith, all-select p rows)

  pub all-delete_oldest_bytes :
      (limit freed target : ℕ) (rows : List SpooledEvent)
      → all f rows ≡ true
      → all f (delete_oldest_bytes limit freed target rows) ≡ true
  all-delete_oldest_bytes zero freed target rows h = h
  all-delete_oldest_bytes (suc limit) freed target [] h = refl
  all-delete_oldest_bytes (suc limit) freed target (r ∷ rows) h =
      ground (arith, all-delete_oldest_bytes limit (freed + length r.event.payload) target rows)

-- Rows above a bound pass a test that only rows up to it can fail.
pub all-Rising :
    (f : SpooledEvent → Bool) (lo hi : ℕ) (rows : List SpooledEvent)
    → ((r : SpooledEvent) → lo < r.seq → f r ≡ true)
    → Rising lo hi rows
    → all f rows ≡ true
all-Rising f lo hi [] w h = refl
all-Rising f lo hi (r ∷ rows) w (a, b, h) =
    ground (arith, w r a, all-Rising f r.seq hi rows (λ q l. w q (omega arith)) h)
