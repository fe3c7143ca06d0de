-- ===== src/Spool/Queue/Conservation.antt =====
-- What a queued event and a flush do to the events of a spool that has its file.
use pulseboard.Common.{
  ℕ, zero, suc, ◌+◌, ◌-◌, ◌≤◌, ◌/◌, true, ◌||◌, Option, none, some, List, [], ◌∷◌, ◌++◌, ◌≡◌, refl,
  sym, ◌∙◌, ap, arith, ltb, leb, length, length-append, if◌then◌else◌, Bool-cases, inl, inr,
}
use mathlib.Core.List.{append-nil, append_assoc}
use pulseboard.Spool.Model.{SpoolConfig, PendingEvent, SpooledEvent, Spool, StoreAnswers}
use pulseboard.Spool.Queue.{
  numbered, delete_oldest_bytes, removed, enforce_size, on_size, enforce_disk_budget, flush, send,
  spool_drop_scan_limit,
}

abbrev pub events_of : List SpooledEvent → List PendingEvent
events_of [] = []
events_of (r ∷ rows) = r.event ∷ events_of rows

-- The events that wait, the oldest first.
abbrev pub waiting : Spool → List PendingEvent
waiting s = events_of s.rows ++ s.buf

abbrev pub drop : ℕ → List PendingEvent → List PendingEvent
drop zero l = l
drop (suc n) [] = []
drop (suc n) (e ∷ l) = drop n l

-- The waiting events of `after` are those of `before` without the `k` oldest, and at most `k` were
-- counted as dropped, exactly `k` if the count is written.
pub record LosesOldest (f : StoreAnswers) (before : List PendingEvent) (counted : ℕ) (after : Spool)
    : Type 0 where
  pub lost : ℕ
  pub kept : waiting after ≡ drop lost before
  pub in_bounds : lost ≤ length before
  pub counts : after.dropped_since_connect ≡ counted + (if f.count_fails then 0 else lost)

events_of-append : (xs ys : List SpooledEvent) → events_of (xs ++ ys) ≡ events_of xs ++ events_of ys
events_of-append [] ys = refl
events_of-append (x ∷ xs) ys = ap (λ l. x.event ∷ l) (events_of-append xs ys)

events_of-numbered : (n : ℕ) (es : List PendingEvent) → events_of (numbered n es) ≡ es
events_of-numbered n [] = refl
events_of-numbered n (e ∷ es) = ap (λ l. e ∷ l) (events_of-numbered (suc n) es)

length-events_of : (rows : List SpooledEvent) → length (events_of rows) ≡ length rows
length-events_of [] = refl
length-events_of (r ∷ rows) = ap suc (length-events_of rows)

delete_oldest_bytes-length :
    (limit freed target : ℕ) (rows : List SpooledEvent)
    → length (delete_oldest_bytes limit freed target rows) ≤ length rows
delete_oldest_bytes-length zero freed target rows = omega arith
delete_oldest_bytes-length (suc limit) freed target [] = omega arith
delete_oldest_bytes-length (suc limit) freed target (r ∷ rows) =
    ground (arith, delete_oldest_bytes-length limit (freed + length r.event.payload) target rows)

drop-suc :
    (r : SpooledEvent) (rows kept : List SpooledEvent)
    → length kept ≤ length rows
    → drop (suc (length rows) - length kept) (r.event ∷ events_of rows)
      ≡ drop (length rows - length kept) (events_of rows)
drop-suc r rows kept h = ap (λ n. drop n (r.event ∷ events_of rows)) split
  where
    split : suc (length rows) - length kept ≡ suc (length rows - length kept)
    split = omega (arith, h)

self-drop :
    (r : SpooledEvent) (rows : List SpooledEvent)
    → r.event ∷ events_of rows
      ≡ drop (suc (length rows) - suc (length rows)) (r.event ∷ events_of rows)
self-drop r rows = ap (λ n. drop n (r.event ∷ events_of rows)) none_lost
  where
    none_lost : 0 ≡ suc (length rows) - suc (length rows)
    none_lost = omega arith

events_of-delete_oldest_bytes :
    (limit freed target : ℕ) (rows : List SpooledEvent)
    → events_of (delete_oldest_bytes limit freed target rows)
      ≡ drop (removed rows (delete_oldest_bytes limit freed target rows)) (events_of rows)
events_of-delete_oldest_bytes zero freed target rows = ap (λ n. drop n (events_of rows)) none_lost
  where
    none_lost : 0 ≡ length rows - length rows
    none_lost = omega arith
events_of-delete_oldest_bytes (suc limit) freed target [] = refl
events_of-delete_oldest_bytes (suc limit) freed target (r ∷ rows) =
    elim (Bool-cases (ltb freed target)) [
      | inl t ↦ simp t (
          events_of-delete_oldest_bytes limit (freed + length r.event.payload) target rows
          ∙ sym (
              drop-suc r rows
                (delete_oldest_bytes limit (freed + length r.event.payload) target rows)
                (delete_oldest_bytes-length limit (freed + length r.event.payload) target rows)))
      | inr u ↦ simp u (self-drop r rows)
    ]

nothing_lost : (f : StoreAnswers) (s : Spool) → LosesOldest f (waiting s) s.dropped_since_connect s
nothing_lost f s = record { lost = 0; kept = refl; in_bounds = omega arith; counts = ground arith }

-- A spool whose buffer has just been written.
abbrev written : Spool → Spool
written s = record s {
  buf = [];
  buf_bytes = 0;
  rows = s.rows ++ numbered (suc s.last_seq) s.buf;
  last_seq = s.last_seq + length s.buf;
}

waiting-written : (s : Spool) → waiting (written s) ≡ waiting s
waiting-written s =
    append-nil (events_of (s.rows ++ numbered (suc s.last_seq) s.buf))
    ∙ events_of-append s.rows (numbered (suc s.last_seq) s.buf)
    ∙ ap (λ l. events_of s.rows ++ l) (events_of-numbered (suc s.last_seq) s.buf)

module _ (cfg : SpoolConfig) (f : StoreAnswers) (size : ℕ) (s : Spool) (b : s.buf ≡ []) where
  abbrev kept_rows : List SpooledEvent
  kept_rows =
      delete_oldest_bytes spool_drop_scan_limit 0
        ((size - cfg.max_disk_bytes) + cfg.max_disk_bytes / 10) s.rows

  no_buffer : (l : List PendingEvent) → l ++ s.buf ≡ l
  no_buffer l = ap (λ r. l ++ r) b ∙ append-nil l

  abbrev trimmed : Spool
  trimmed = record s {
    rows = kept_rows;
    dropped_since_connect =
        if f.count_fails
        then s.dropped_since_connect
        else s.dropped_since_connect + removed s.rows kept_rows;
  }

  trimmed-LosesOldest : LosesOldest f (waiting s) s.dropped_since_connect trimmed
  trimmed-LosesOldest = record {
    lost = removed s.rows kept_rows;
    kept =
        no_buffer (events_of kept_rows)
        ∙ events_of-delete_oldest_bytes spool_drop_scan_limit 0
            ((size - cfg.max_disk_bytes) + cfg.max_disk_bytes / 10) s.rows
        ∙ ap (drop (removed s.rows kept_rows)) (sym (no_buffer (events_of s.rows)));
    in_bounds = omega (arith, length-events_of s.rows, length-append (events_of s.rows) s.buf);
    counts = ground arith;
  }

  enforce_size-LosesOldest :
      LosesOldest f (waiting s) s.dropped_since_connect (enforce_size cfg f size s)
  enforce_size-LosesOldest = elim (Bool-cases (leb size cfg.max_disk_bytes || f.delete_fails)) [
    | inl t ↦ simp t (nothing_lost f s)
    | inr u ↦ simp u trimmed-LosesOldest
  ]

on_size-LosesOldest :
    (cfg : SpoolConfig) (f : StoreAnswers) (size : Option ℕ) (s : Spool)
    → s.buf ≡ []
    → LosesOldest f (waiting s) s.dropped_since_connect (on_size cfg f size s)
on_size-LosesOldest cfg f none s b = nothing_lost f s
on_size-LosesOldest cfg f (some size) s b = enforce_size-LosesOldest cfg f size s b

written-LosesOldest :
    (cfg : SpoolConfig) (f : StoreAnswers) (s : Spool)
    → LosesOldest f (waiting s) s.dropped_since_connect (enforce_disk_budget cfg f (written s))
unfolding enforce_disk_budget
written-LosesOldest cfg f s = simp (← waiting-written s) budget
  where
    budget :
        LosesOldest f
          (waiting (written s))
          s.dropped_since_connect
          (enforce_disk_budget cfg f (written s))
    budget =
        ground
          (arith, nothing_lost f (written s), on_size-LosesOldest cfg f f.size (written s) refl)

flush-LosesOldest :
    (cfg : SpoolConfig) (f : StoreAnswers) (s : Spool)
    → s.has_store ≡ true
    → LosesOldest f (waiting s) s.dropped_since_connect (flush cfg f s)
unfolding flush
flush-LosesOldest cfg f s h = ground (arith, nothing_lost f s, written-LosesOldest cfg f s, h)

-- While the spool has its file, an event that is queued stands behind all that wait, whatever fails,
-- and only the oldest are lost, which are counted if the count can be written.
pub send-LosesOldest :
    (cfg : SpoolConfig) (f : StoreAnswers) (evt : PendingEvent) (s : Spool)
    → s.has_store ≡ true
    → LosesOldest f (waiting s ++ (evt ∷ [])) s.dropped_since_connect (send cfg f evt s)
unfolding send
send-LosesOldest cfg f evt s h = simp (append_assoc (events_of s.rows) s.buf (evt ∷ [])) queued
  where
    behind : Spool
    behind = record s { buf = s.buf ++ (evt ∷ []); buf_bytes = s.buf_bytes + length evt.payload }

    queued :
        LosesOldest f
          (events_of s.rows ++ (s.buf ++ (evt ∷ [])))
          s.dropped_since_connect
          (if leb cfg.max_memory_bytes behind.buf_bytes then flush cfg f behind else behind)
    queued = ground (arith, nothing_lost f behind, flush-LosesOldest cfg f behind h)
