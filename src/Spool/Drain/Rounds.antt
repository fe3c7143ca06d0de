-- ===== src/Spool/Drain/Rounds.antt =====
-- The drain ends, and what it leaves behind is passed.
use pulseboard.Common.{
  ℕ, zero, suc, ◌≤◌, ◌<◌, Bool, true, false, not, ◌||◌, Option, some, sym, List, [], ◌∷◌, ◌≡◌, refl,
  ◌∙◌, ap, arith, ltb, eqb, all, length, select, contains, nat_eq, if◌then◌else◌, Bool-cases, inl,
  inr,
}
use mathlib.Core.Path.{subst}
use pulseboard.Spool.Model.{SpoolConfig, StoreAnswers, SpooledEvent, Spool}
use pulseboard.Spool.Queue.{flush, flush_fails}
use pulseboard.Spool.Drain.Flushed.{flush-SameDrain, flush-empty}
use pulseboard.Spool.Drain.{
  take, read_from, read_batch, spool_drain_batch, SendOutcome, is_stopped, pass_rows, DrainEnd,
  idle, stopped_at_row, drain_rounds, drain_once,
}
use pulseboard.Spool.Drain.Cursor.{HasCursor, flush-HasCursor}
use pulseboard.Spool.Drain.Passing.{passed_below, passed-HasCursor, read_batch-HasCursor}
use pulseboard.Spool.Drain.Rising.{
  Rising, reach, reach_bounds, Rising-take, Rising-select_above, all-weaken_both,
}

-- How many rows lie beyond a number.
abbrev pub rows_above : ℕ → List SpooledEvent → ℕ
rows_above n rows = length (select (λ r. ltb n r.seq) rows)

rows_above-le : (n m : ℕ) (rows : List SpooledEvent) → n ≤ m → rows_above m rows ≤ rows_above n rows
rows_above-le n m [] l = omega arith
rows_above-le n m (r ∷ rows) l = ground (arith, rows_above-le n m rows l)

-- A cursor that moves past a row has fewer before it.
rows_above-lt :
    (n m : ℕ) (rows : List SpooledEvent) (first : SpooledEvent) (rest : List SpooledEvent)
    → n ≤ m
    → select (λ r. ltb n r.seq) rows ≡ first ∷ rest
    → first.seq ≤ m
    → rows_above m rows < rows_above n rows
rows_above-lt n m [] first rest l e k = ground arith
rows_above-lt n m (r ∷ rows) first rest l e k = elim (Bool-cases (ltb n r.seq)) [
  | inl t ↦ ground (arith, t, e, k, rows_above-le n m rows l)
  | inr f ↦ ground (arith, f, e, k, rows_above-lt n m rows first rest l)
]

not_zero : (n : ℕ) → eqb (suc n) 0 ≡ false
not_zero n = ground arith

-- The stream is there, the file is open, and no pause runs.
pub record CanDrain (now : ℕ) (s : Spool) : Type 0 where
  pub attached : s.attached ≡ true
  pub stored : s.has_store ≡ true
  pub unpaused : ltb now s.paused_until ≡ false

module _ (outcome : SpooledEvent → SendOutcome)
    (runs : (r : SpooledEvent) → is_stopped (outcome r) ≡ false) (read_fails : ℕ → Bool)
    (reads : (n : ℕ) → read_fails n ≡ false) where
  -- The loop over a batch puts the cursor on its last row, and empties it.
  pass_rows-reach :
      (b : List SpooledEvent) (s : Spool)
      → s.batch ≡ b
      → (let (after, is_over) = pass_rows outcome b s in
          (is_over ≡ false)
          × (after.send_seq ≡ reach s.send_seq b)
          × (after.rows ≡ s.rows)
          × (after.batch ≡ [])
          × (after.attached ≡ s.attached)
          × (after.has_store ≡ s.has_store)
          × (after.paused_until ≡ s.paused_until)
          × (after.buf ≡ s.buf))
  unfolding pass_rows
  pass_rows-reach [] s e = (refl, refl, refl, e, refl, refl, refl, refl)
  pass_rows-reach (r ∷ rest) s e = ground (
    arith,
    runs r,
    pass_rows-reach rest (record s { send_seq = r.seq; batch = rest; handled = r.seq ∷ s.handled })
        refl,
  )

  pass_rows-HasCursor :
      (b : List SpooledEvent) (s : Spool)
      → s.batch ≡ b
      → HasCursor s
      → HasCursor (pass_rows outcome b s).0
  unfolding pass_rows
  pass_rows-HasCursor [] s e h = h
  pass_rows-HasCursor (r ∷ rest) s e h = ground (
    arith,
    runs r,
    pass_rows-HasCursor rest
        (record s { send_seq = r.seq; batch = rest; handled = r.seq ∷ s.handled }) refl
        (passed-HasCursor s h r rest e),
  )

  all-select_none :
      (p : SpooledEvent → Bool) (rows : List SpooledEvent)
      → select p rows ≡ []
      → all (λ q. not (p q)) rows ≡ true
  all-select_none p [] e = refl
  all-select_none p (r ∷ rows) e = elim (Bool-cases (p r)) [
    | inl t ↦ ground (arith, t, e)
    | inr f ↦ ground (arith, f, e, all-select_none p rows)
  ]

  read_batch-eq :
      (now : ℕ) (s : Spool)
      → CanDrain now s
      → s.batch ≡ []
      → read_batch now s ≡ record s { batch = read_from s.send_seq spool_drain_batch s.rows }
  unfolding read_batch
  read_batch-eq now s c e = ground (arith, c.attached, c.stored, c.unpaused, e)

  abbrev read : Spool → Spool
  read s = record s { batch = read_from s.send_seq spool_drain_batch s.rows }

  abbrev round : Spool → Spool
  round s = (pass_rows outcome (read_from s.send_seq spool_drain_batch s.rows) (read s)).0

  round-CanDrain : (now : ℕ) (s : Spool) → CanDrain now s → CanDrain now (round s)
  round-CanDrain now s c =
      let p = pass_rows-reach (read_from s.send_seq spool_drain_batch s.rows) (read s) refl in
      record {
        attached = p.4 ∙ c.attached;
        stored = p.5 ∙ c.stored;
        unpaused = ap (λ t. ltb now t) p.6 ∙ c.unpaused;
      }

  round-HasCursor :
      (now : ℕ) (s : Spool) → CanDrain now s → s.batch ≡ [] → HasCursor s → HasCursor (round s)
  round-HasCursor now s c e h =
      pass_rows-HasCursor (read_from s.send_seq spool_drain_batch s.rows) (read s) refl
        (subst HasCursor (read_batch-eq now s c e) (read_batch-HasCursor s h now))

  -- A round that finds a row leaves fewer beyond the cursor.
  round-lt :
      (s : Spool) (first : SpooledEvent) (rest : List SpooledEvent)
      → HasCursor s
      → select (λ r. ltb s.send_seq r.seq) s.rows ≡ first ∷ rest
      → rows_above (round s).send_seq (round s).rows < rows_above s.send_seq s.rows
  round-lt s first rest h e =
      let p = pass_rows-reach (read_from s.send_seq spool_drain_batch s.rows) (read s) refl in
      let above : Rising s.send_seq s.last_seq (first ∷ rest) =
        subst (λ l. Rising s.send_seq s.last_seq l) e
          (Rising-select_above s.send_seq 0 s.last_seq s.rows h.rows_rising) in
      let b =
        reach_bounds first.seq s.last_seq (take 199 rest) above.1
          (Rising-take 199 first.seq s.last_seq rest above.2) in
      let at_reach : reach s.send_seq (read_from s.send_seq spool_drain_batch s.rows)
          ≡ reach first.seq (take 199 rest) =
        ap (λ l. reach s.send_seq (take spool_drain_batch l)) e in
      rw (p.1, p.2, at_reach)
        (rows_above-lt s.send_seq (reach first.seq (take 199 rest)) s.rows first rest
          (omega (arith, above.0, b.0)) e b.0)

  -- What a round does with the spool that has read its batch.
  abbrev go_on : ℕ → ℕ → Spool → Option (Spool × DrainEnd)
  go_on fuel now r =
      if eqb (length r.batch) 0
      then some ((pass_rows outcome r.batch r).0, idle)
      else if (pass_rows outcome r.batch r).1
      then some ((pass_rows outcome r.batch r).0, stopped_at_row)
      else drain_rounds read_fails fuel now outcome (pass_rows outcome r.batch r).0

  drain_rounds-go_on :
      (fuel now : ℕ) (s : Spool)
      → CanDrain now s
      → s.batch ≡ []
      → drain_rounds read_fails (suc fuel) now outcome s ≡ go_on fuel now (read s)
  unfolding drain_rounds
  drain_rounds-go_on fuel now s c b =
      simp (reads s.send_seq) (ap (go_on fuel now) (read_batch-eq now s c b))

  go_on_empty :
      (fuel now : ℕ) (s : Spool)
      → select (λ r. ltb s.send_seq r.seq) s.rows ≡ []
      → go_on fuel now (read s) ≡ some (record s { batch = [] }, idle)
  unfolding pass_rows
  go_on_empty fuel now s e =
      ap (λ l. go_on fuel now (record s { batch = take spool_drain_batch l })) e

  go_on-round :
      (fuel now : ℕ) (s : Spool) (first : SpooledEvent) (rest : List SpooledEvent)
      → select (λ r. ltb s.send_seq r.seq) s.rows ≡ first ∷ rest
      → go_on fuel now (read s) ≡ drain_rounds read_fails fuel now outcome (round s)
  go_on-round fuel now s first rest e = simp (some_row, p.0)
    where
      p :
          ((pass_rows outcome (read s).batch (read s)).1 ≡ false)
          × ((pass_rows outcome (read s).batch (read s)).0.batch ≡ [])
      p = let q = pass_rows-reach (read s).batch (read s) refl in (q.0, q.3)

      some_row : eqb (length (read s).batch) 0 ≡ false
      some_row =
          ap (λ l. eqb (length (take spool_drain_batch l)) 0) e ∙ not_zero (length (take 199 rest))

  -- The rounds of the drain from a spool with `rows_above` rows to send.
  drain_from :
      (fuel now : ℕ) (s : Spool) (found : List SpooledEvent)
      → select (λ r. ltb s.send_seq r.seq) s.rows ≡ found
      → CanDrain now s
      → s.batch ≡ []
      → HasCursor s
      → rows_above s.send_seq s.rows < fuel
      → (after : Spool) × (drain_rounds read_fails fuel now outcome s ≡ some (after, idle))
        × (after.buf ≡ s.buf)
        × (after.rows ≡ s.rows)
        × (all (λ q. contains after.handled q.seq) after.rows ≡ true)
  drain_from zero now s found e c b h l = absurd (omega (arith, l))
  drain_from (suc fuel) now s [] e c b h l = (
    record s { batch = [] },
    drain_rounds-go_on fuel now s c b ∙ go_on_empty fuel now s e,
    refl,
    refl,
    all-weaken_both (λ q. not (ltb s.send_seq q.seq))
        (λ q. ltb s.send_seq q.seq || contains s.handled q.seq) (λ q. contains s.handled q.seq)
        s.rows (λ q x y. ground (arith, x, y))
        (all-select_none (λ r. ltb s.send_seq r.seq) s.rows e) (passed_below s h),
  )
  drain_from (suc fuel) now s (first ∷ rest) e c b h l =
      let p = pass_rows-reach (read_from s.send_seq spool_drain_batch s.rows) (read s) refl in
      let (after, done, buf, rows, passed) =
        drain_from fuel now (round s) (select (λ r. ltb (round s).send_seq r.seq) (round s).rows)
          refl (round-CanDrain now s c) p.3 (round-HasCursor now s c b h)
          (omega (arith, l, round-lt s first rest h e)) in
      (
        after,
        drain_rounds-go_on fuel now s c b ∙ go_on-round fuel now s first rest e ∙ done,
        buf ∙ p.7,
        rows ∙ p.2,
        passed,
      )

-- If the stream is there, the file is open and no pause runs, if no batch is under way and the cursor
-- is sound, if the flush and the reads return no error, no send fails and nothing comes between, then
-- a drain ends with nothing left to do, after at most one round more than there are rows beyond its
-- cursor once the buffer is flushed: the buffer is empty, and every row of the file, which the rounds
-- leave as the flush wrote it, has been passed.
pub drain_once-ends :
    (cfg : SpoolConfig) (f : StoreAnswers) (read_fails : ℕ → Bool) (fuel now : ℕ)
    (outcome : SpooledEvent → SendOutcome) (s : Spool)
    → flush_fails cfg f s ≡ false
    → ((n : ℕ) → read_fails n ≡ false)
    → ((r : SpooledEvent) → is_stopped (outcome r) ≡ false)
    → CanDrain now s
    → s.batch ≡ []
    → HasCursor s
    → rows_above s.send_seq (flush cfg f s).rows < fuel
    → (after : Spool) × (drain_once cfg f read_fails fuel now outcome s ≡ some (after, idle))
      × (after.buf ≡ [])
      × (after.rows ≡ (flush cfg f s).rows)
      × (all (λ q. contains after.handled q.seq) after.rows ≡ true)
unfolding drain_once
drain_once-ends cfg f read_fails fuel now outcome s works reads runs c b h l =
    let t = flush cfg f s in
    let (attached, stored, paused, batch, cursor) = flush-SameDrain cfg f s in
    let (after, done, buf, rows, passed) =
      drain_from outcome runs read_fails reads fuel now t
        (select (λ r. ltb t.send_seq r.seq) t.rows) refl
        (record {
          attached = attached ∙ c.attached;
          stored = stored ∙ c.stored;
          unpaused = ap (λ u. ltb now u) paused ∙ c.unpaused;
        })
        (batch ∙ b) (flush-HasCursor cfg f s h)
        (subst (λ n. rows_above n t.rows < fuel) (sym cursor) l) in
    (after, simp works done, buf ∙ flush-empty cfg f s c.stored works, rows, passed)
