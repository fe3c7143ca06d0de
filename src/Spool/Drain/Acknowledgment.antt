-- ===== src/Spool/Drain/Acknowledgment.antt =====
-- What an acknowledgment deletes.
use pulseboard.Common.{
  ℕ, ◌≤◌, Bool, true, not, ◌||◌, List, [], ◌∷◌, ◌≡◌, refl, arith, ltb, all, min, select, contains,
  nat_eq, Bool-cases, inl, inr,
}
use pulseboard.Spool.Model.{SpoolConfig, SpooledEvent, Spool, StoreAnswers}
use pulseboard.Spool.Drain.{acked, delete_up_to, Op, apply_ops}
use pulseboard.Spool.Drain.Rising.{has_seq, all-weaken, all-weaken_both}
use pulseboard.Spool.Drain.Cursor.{HasCursor}
use pulseboard.Spool.Drain.Passing.{passed_below, apply_ops-HasCursor}

-- A selection holds the rows that pass its test.
has_seq-select :
    (p : SpooledEvent → Bool) (rows : List SpooledEvent)
    → all (λ q. not (p q) || has_seq (select p rows) q.seq) rows ≡ true
has_seq-select p [] = refl
has_seq-select p (r ∷ rows) = elim (Bool-cases (p r)) [
  | inl t ↦ ground (
    arith,
    t,
    all-weaken (λ q. not (p q) || has_seq (select p rows) q.seq)
        (λ q. not (p q) || has_seq (r ∷ select p rows) q.seq) rows (λ q e. ground (arith, e))
        (has_seq-select p rows),
  )
  | inr f ↦ ground (arith, f, has_seq-select p rows)
]

has_seq_self : (rows : List SpooledEvent) → all (λ q. has_seq rows q.seq) rows ≡ true
has_seq_self [] = refl
has_seq_self (r ∷ rows) = ground (
  arith,
  all-weaken (λ q. has_seq rows q.seq) (λ q. has_seq (r ∷ rows) q.seq) rows
      (λ q e. ground (arith, e)) (has_seq_self rows),
)

-- A row is still in the file after an acknowledgment, or the drain has passed it.
abbrev pub is_kept_or_passed : List SpooledEvent → List ℕ → SpooledEvent → Bool
is_kept_or_passed rows handled q = has_seq rows q.seq || contains handled q.seq

module _ (s : Spool) (h : HasCursor s) where
  all_kept : all (is_kept_or_passed s.rows s.handled) s.rows ≡ true
  all_kept =
      all-weaken (λ q. has_seq s.rows q.seq) (is_kept_or_passed s.rows s.handled) s.rows
        (λ q e. ground (arith, e)) (has_seq_self s.rows)

  purged :
      (bound : ℕ)
      → bound ≤ s.send_seq
      → all (is_kept_or_passed (delete_up_to bound s.rows) s.handled) s.rows ≡ true
  purged bound l =
      all-weaken_both (λ q. not (ltb bound q.seq) || has_seq (delete_up_to bound s.rows) q.seq)
        (λ q. ltb s.send_seq q.seq || contains s.handled q.seq)
        (is_kept_or_passed (delete_up_to bound s.rows) s.handled) s.rows
        (λ q a b. ground (arith, a, b)) (has_seq-select (λ r. ltb bound r.seq) s.rows)
        (passed_below s h)

  acked_passes :
      (f : StoreAnswers) (seq : ℕ)
      → all (is_kept_or_passed (acked f seq s).rows s.handled) s.rows ≡ true
  unfolding acked
  acked_passes f seq = ground (arith, all_kept, purged (min seq s.send_seq) (omega arith))

-- Whatever an agent does with its spool (events queued, flushed, purged by age or budget; batches
-- read, rows sent, streams lost, refused and attached, the spool closed or discarded in between), an
-- acknowledgment of any number deletes only rows that the drain has sent on a stream or dropped as
-- unreadable. The spool begins with a cursor that is sound.
pub acked-apply_ops :
    (cfg : SpoolConfig) (ops : List (StoreAnswers × Op)) (s : Spool) (f : StoreAnswers) (seq : ℕ)
    → HasCursor s
    → (let now = apply_ops cfg ops s in
        all (is_kept_or_passed (acked f seq now).rows now.handled) now.rows ≡ true)
acked-apply_ops cfg ops s f seq h =
    acked_passes (apply_ops cfg ops s) (apply_ops-HasCursor cfg ops s h) f seq
