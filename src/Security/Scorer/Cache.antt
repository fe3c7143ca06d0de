-- ===== src/Security/Scorer/Cache.antt =====
-- How old a score from the cache can be, with calls that run side by side.
use mathlib.Core.Path.{subst}
use mathlib.Core.Option.{some-injective}
use pulseboard.Common.{
  ℕ, zero, suc, ◌+◌, ◌<◌, String, string_eq, false, Option, none, some, List, [], ◌∷◌, ◌==◌, ◌≡◌,
  refl, sym, ap, ◌∙◌, arith, ltb, get_elem?, All, Bool-cases, ==→≡, inl, inr,
}
use pulseboard.Common.Assoc.{lookup, lookup-insert, lookup-delete}
use pulseboard.Security.Categories.{World, Result, err, ok, SecurityScore}
use pulseboard.Security.Scorer.{
  compute_container_score, CachedScore, unexpired, remember, invalidate_cache, InFlight, Calls,
  begin_score, end_score, begun, ended, without,
}

-- What can happen to the cache: each part of a call is taken under the lock, or touches nothing that
-- is shared, so the parts of several calls and the invalidations come in some order.
pub data Op : Type 0 where
  begins : World → ℕ → String → String → String → Op
  ends : ℕ → ℕ → Op
  invalidated : String → Op

unfoldable pub step : Op → Calls → Calls
unfolding begin_score end_score
step (begins w now id ext name) s = (begin_score w now id ext name s).0
step (ends stored i) s = end_score stored i s
step (invalidated id) s = record s { cache = invalidate_cache id s.cache }

-- The state after a history, the last step first.
unfoldable pub after : List Op → Calls
unfolding step
after [] = record { cache = []; running = [] }
after (op ∷ history) = step op (after history)

-- Some call of the history computed this score of the container.
pub data Computed : List Op → String → SecurityScore → Type 0 where
  computed :
      {w : World} {now : ℕ} {id ext name : String} {score : SecurityScore} {history : List Op}
      → compute_container_score w now id ext name ≡ ok (some score)
      → Computed (begins w now id ext name ∷ history) id score
  computed_before :
      {op : Op} {id : String} {score : SecurityScore} {history : List Op}
      → Computed history id score
      → Computed (op ∷ history) id score

-- `Stored history id score t`: a call that was under way with this score of the container stored it
-- at t, and nothing has invalidated the container since.
pub data Stored : List Op → String → SecurityScore → ℕ → Type 0 where
  stored :
      {i t : ℕ} {id : String} {score : SecurityScore} {history : List Op}
      → get_elem? (after history).running i ≡ some (record { id = id; result = ok (some score) })
      → Stored (ends t i ∷ history) id score t
  before_begin :
      {w : World} {now t : ℕ} {id other ext name : String} {score : SecurityScore}
      {history : List Op}
      → Stored history id score t
      → Stored (begins w now other ext name ∷ history) id score t
  before_end :
      {i now t : ℕ} {id : String} {score : SecurityScore} {history : List Op}
      → Stored history id score t
      → Stored (ends now i ∷ history) id score t
  before_invalidation :
      {t : ℕ} {id other : String} {score : SecurityScore} {history : List Op}
      → (other == id) ≡ false
      → Stored history id score t
      → Stored (invalidated other ∷ history) id score t

-- What a call under way has computed, it has computed in the history.
abbrev WasComputed : List Op → InFlight → Type 0
WasComputed history call =
    (score : SecurityScore) → call.result ≡ ok (some score) → Computed history call.id score

later :
    (op : Op) (history : List Op) (calls : List InFlight)
    → All (WasComputed history) calls
    → All (WasComputed (op ∷ history)) calls
later op history [] h = tt
later op history (call ∷ calls) (h, hs) =
    (λ score e. computed_before (h score e), later op history calls hs)

All-without :
    (P : InFlight → Type 0) (i : ℕ) (calls : List InFlight) → All P calls → All P (without i calls)
All-without P i [] h = tt
All-without P zero (call ∷ calls) (h, hs) = hs
All-without P (suc i) (call ∷ calls) (h, hs) = (h, All-without P i calls hs)

at :
    (P : InFlight → Type 0) (i : ℕ) (calls : List InFlight) (call : InFlight)
    → All P calls
    → get_elem? calls i ≡ some call
    → P call
at P i [] call h e = absurd (ground (arith, e))
at P zero (first ∷ calls) call (h, hs) e = subst P (some-injective _ _ e) h
at P (suc i) (first ∷ calls) call (h, hs) e = at P i calls call hs e

begun-WasComputed :
    (history : List Op) (call : InFlight) (entry : Option SecurityScore) (s : Calls)
    → WasComputed history call
    → All (WasComputed history) s.running
    → All (WasComputed history) (begun call entry s).running
begun-WasComputed history call none s new old = (new, old)
begun-WasComputed history call (some score) s new old = old

ended-WasComputed :
    (history : List Op) (t i : ℕ) (o : Option InFlight) (s : Calls)
    → All (WasComputed history) s.running
    → All (WasComputed history) (ended t i o s).running
ended-WasComputed history t i none s old = old
ended-WasComputed history t i (some call) s old = All-without (WasComputed history) i s.running old

cache-begun :
    (call : InFlight) (entry : Option SecurityScore) (s : Calls)
    → (begun call entry s).cache ≡ s.cache
cache-begun call none s = refl
cache-begun call (some score) s = refl

running-WasComputed : (history : List Op) → All (WasComputed history) (after history).running
unfolding after step begin_score end_score
running-WasComputed [] = tt
running-WasComputed (begins w now id ext name ∷ history) =
    begun-WasComputed (begins w now id ext name ∷ history)
      (record { id = id; result = compute_container_score w now id ext name })
      (unexpired now (lookup id (after history).cache)) (after history) (λ score q. computed q)
      (later (begins w now id ext name) history (after history).running
        (running-WasComputed history))
running-WasComputed (ends t i ∷ history) =
    ended-WasComputed (ends t i ∷ history) t i (get_elem? (after history).running i) (after history)
      (later (ends t i) history (after history).running (running-WasComputed history))
running-WasComputed (invalidated id ∷ history) =
    later (invalidated id) history (after history).running (running-WasComputed history)

abbrev IsBacked : List Op → String → CachedScore → Type 0
IsBacked history id c =
    (t : ℕ) × Stored history id c.score t × Computed history id c.score × (c.expires_at ≡ t + 10)

-- What a call that ends leaves in the cache.
remember-IsBacked :
    (t i : ℕ) (history : List Op) (call : InFlight) (r : Result (Option SecurityScore))
    (id : String) (c : CachedScore)
    → call.result ≡ r
    → get_elem? (after history).running i ≡ some call
    → ((c : CachedScore) → lookup id (after history).cache ≡ some c → IsBacked history id c)
    → lookup id (remember t call.id (after history).cache r).0 ≡ some c
    → IsBacked (ends t i ∷ history) id c
remember-IsBacked t i history call (err e) id c q g h f =
    let (u, s, k, e) = h c f in (u, before_end s, computed_before k, e)
remember-IsBacked t i history call (ok none) id c q g h f =
    let (u, s, k, e) = h c f in (u, before_end s, computed_before k, e)
remember-IsBacked t i history call (ok (some score)) id c q g h f =
    let entry : CachedScore = record { score = score; expires_at = t + 10 } in
    elim (Bool-cases (call.id == id)) [
      | inl e ↦
          let same : some entry ≡ some c =
            ground (arith, e, f, lookup-insert call.id id entry (after history).cache) in
          let there = some-injective _ _ same in
          let at_id : call ≡ record { id = id; result = ok (some score) } =
            ap (λ r. record { id = call.id; result = r }) q
            ∙ ap (λ j. record { id = j; result = ok (some score) }) (==→≡ call.id id e) in
          let known =
            at (WasComputed history) i (after history).running call (running-WasComputed history) g
              score q in
          subst (IsBacked (ends t i ∷ history) id) there (
            t,
            stored (g ∙ ap some at_id),
            computed_before (subst (λ j. Computed history j score) (==→≡ call.id id e) known),
            refl,
          )
      | inr n ↦
          let old : lookup id (after history).cache ≡ some c =
            ground (arith, n, f, lookup-insert call.id id entry (after history).cache) in
          let (u, s, k, x) = h c old in (u, before_end s, computed_before k, x)
    ]

ended-IsBacked :
    (t i : ℕ) (history : List Op) (o : Option InFlight) (id : String) (c : CachedScore)
    → get_elem? (after history).running i ≡ o
    → ((c : CachedScore) → lookup id (after history).cache ≡ some c → IsBacked history id c)
    → lookup id (ended t i o (after history)).cache ≡ some c
    → IsBacked (ends t i ∷ history) id c
ended-IsBacked t i history none id c g h f =
    let (u, s, k, e) = h c f in (u, before_end s, computed_before k, e)
ended-IsBacked t i history (some call) id c g h f =
    remember-IsBacked t i history call call.result id c refl g h f

cache-IsBacked :
    (history : List Op) (id : String) (c : CachedScore)
    → lookup id (after history).cache ≡ some c
    → IsBacked history id c
unfolding after step begin_score end_score lookup invalidate_cache
cache-IsBacked [] id c f = absurd (ground (arith, f))
cache-IsBacked (begins w now j ext name ∷ history) id c f =
    let same =
      cache-begun (record { id = j; result = compute_container_score w now j ext name })
        (unexpired now (lookup j (after history).cache)) (after history) in
    let (t, s, k, e) = cache-IsBacked history id c (sym (ap (lookup id) same) ∙ f) in
    (t, before_begin s, computed_before k, e)
cache-IsBacked (ends t i ∷ history) id c f =
    ended-IsBacked t i history (get_elem? (after history).running i) id c refl
      (λ c. cache-IsBacked history id c) f
cache-IsBacked (invalidated j ∷ history) id c f =
    let (n, old) : ((j == id) ≡ false) × (lookup id (after history).cache ≡ some c) =
      ground (arith, f, lookup-delete j id (after history).cache) in
    let (t, s, k, e) = cache-IsBacked history id c old in
    (t, before_invalidation n s, computed_before k, e)

abbrev pub IsRecent : List Op → String → SecurityScore → ℕ → Type 0
IsRecent history id score now =
    (t : ℕ) × Stored history id score t × Computed history id score × (now < t + 10)

answer-IsRecent :
    (now : ℕ) (id : String) (history : List Op) (score : SecurityScore) (entry : Option CachedScore)
    → lookup id (after history).cache ≡ entry
    → unexpired now entry ≡ some score
    → IsRecent history id score now
answer-IsRecent now id history score none f e = absurd (ground (arith, e))
answer-IsRecent now id history score (some c) f e =
    let (t, s, k, x) = cache-IsBacked history id c f in
    elim (Bool-cases (ltb now c.expires_at)) [
      | inl l ↦
          let same : c.score ≡ score = some-injective _ _ (ground (arith, l, e)) in
          subst (λ a. IsRecent history id a now) same (t, s, k, ground (arith, l, x))
      | inr g ↦ absurd (ground (arith, g, e))
    ]

-- A score that a call of ScoreContainer answers from the cache was computed for this container by an
-- earlier call, which stored it less than ten seconds before, and nothing has invalidated the
-- container since it was stored: however calls and invalidations, of whichever containers and at
-- whatever times, came between each other. An invalidation between the computation and the storing
-- is not among those that count.
pub begin_score-IsRecent :
    (w : World) (now : ℕ) (id ext name : String) (history : List Op) (score : SecurityScore)
    → (begin_score w now id ext name (after history)).1 ≡ some score
    → IsRecent history id score now
unfolding begin_score
begin_score-IsRecent w now id ext name history score e =
    answer-IsRecent now id history score (lookup id (after history).cache) refl e
