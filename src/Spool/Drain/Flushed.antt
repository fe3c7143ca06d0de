-- ===== src/Spool/Drain/Flushed.antt =====
-- What a flush leaves to the drain.
use pulseboard.Common.{
  ℕ, true, false, Option, none, some, List, [], ◌∷◌, ◌≡◌, refl, arith, eqb, length, Bool-cases, inl,
  inr,
}
use pulseboard.Spool.Model.{SpoolConfig, PendingEvent, StoreAnswers, Spool}
use pulseboard.Spool.Queue.{
  on_size, enforce_disk_budget, trim_memory_locked, appended, flush, flush_fails,
}

-- What a flush leaves alone.
abbrev pub SameDrain : Spool → Spool → Type 0
SameDrain after s =
    (after.attached ≡ s.attached)
    × (after.has_store ≡ s.has_store)
    × (after.paused_until ≡ s.paused_until)
    × (after.batch ≡ s.batch)
    × (after.send_seq ≡ s.send_seq)

module _ (cfg : SpoolConfig) (f : StoreAnswers) (s : Spool) where
  on_size-SameDrain :
      (o : Option ℕ) → SameDrain (on_size cfg f o s) s × ((on_size cfg f o s).buf ≡ s.buf)
  on_size-SameDrain none = ((refl, refl, refl, refl, refl), refl)
  on_size-SameDrain (some size) = ground arith

  enforce_disk_budget-SameDrain :
      SameDrain (enforce_disk_budget cfg f s) s × ((enforce_disk_budget cfg f s).buf ≡ s.buf)
  unfolding enforce_disk_budget
  enforce_disk_budget-SameDrain = ground (arith, on_size-SameDrain f.size)

module _ (cfg : SpoolConfig) (f : StoreAnswers) (s : Spool) where
  pub flush-SameDrain : SameDrain (flush cfg f s) s
  unfolding flush trim_memory_locked
  flush-SameDrain = ground (arith, enforce_disk_budget-SameDrain cfg f (appended s))

  no_events : (es : List PendingEvent) → eqb (length es) 0 ≡ true → es ≡ []
  no_events [] h = refl
  no_events (e ∷ es) h = absurd (ground (arith, h))

  pub flush-empty : s.has_store ≡ true → flush_fails cfg f s ≡ false → (flush cfg f s).buf ≡ []
  unfolding flush flush_fails
  flush-empty h e = elim (Bool-cases (eqb (length s.buf) 0)) [
    | inl n ↦ ground (arith, n, no_events s.buf n)
    | inr n ↦ ground (arith, n, h, e, enforce_disk_budget-SameDrain cfg f (appended s))
  ]
