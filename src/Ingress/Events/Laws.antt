-- ===== src/Ingress/Events/Laws.antt =====
-- The results of a batch of events.
use goster_io_t.Common.{
  ℕ, suc, ◌≡◌, refl, ap, Bool, true, false, ◌||◌, Option, List, [], ◌∷◌, length,
}
use goster_io_t.Common.{if◌then◌else◌}
use goster_io_t.Downlink.Service.{CommandRepository, DeviceCommandQueue}
use goster_io_t.Ingress.Events.{
  Event, EventResult, Telemetry, ingest_events, event_result, next_events,
}

-- Every result but the last is a success.
abbrev pub StopsAtFailure : List EventResult → Type 0
StopsAtFailure [] = Unit {0}
StopsAtFailure (r ∷ []) = Unit {0}
StopsAtFailure (r ∷ s ∷ rest) = (r.success ≡ true) × StopsAtFailure (s ∷ rest)

StopsAtFailure-cons :
    (r : EventResult) (rest : List EventResult)
    → r.success ≡ true
    → StopsAtFailure rest
    → StopsAtFailure (r ∷ rest)
StopsAtFailure-cons r [] done h = tt
StopsAtFailure-cons r (s ∷ rest) done h = (done, h)

or_true : (b : Bool) → (b || true) ≡ true
or_true true = refl
or_true false = refl

or_false : (b : Bool) → (b || false) ≡ true → b ≡ true
or_false true h = refl
or_false false h = h

length-goes_on :
    {U : Type 0} (c : Bool)
    → c ≡ true
    → (st : U) (r : EventResult) (x : U × List EventResult) (n : ℕ) → length x.1 ≡ n
    → length (if◌then◌else◌ {A = U × List EventResult} c (x.0, r ∷ x.1) (st, r ∷ [])).1 ≡ suc n
length-goes_on true e st r x n h = ap suc h
length-goes_on false e st r x n h = cc

StopsAtFailure-if :
    {U : Type 0} (c : Bool) (r : EventResult)
    → (c ≡ true → r.success ≡ true)
    → (st : U) (x : U × List EventResult) → StopsAtFailure x.1
    → StopsAtFailure (if◌then◌else◌ {A = U × List EventResult} c (x.0, r ∷ x.1) (st, r ∷ [])).1
StopsAtFailure-if true r e st x h = StopsAtFailure-cons r x.1 (e refl) h
StopsAtFailure-if false r e st x h = tt

module _ {S Q T : Type 0} (repo : CommandRepository S) (queue : DeviceCommandQueue Q)
    (telemetry : Telemetry T) where
  next-length :
      (rest : T × (S × Q) → (T × (S × Q)) × List EventResult) (x : (T × (S × Q)) × EventResult)
      (n : ℕ)
      → ((st : T × (S × Q)) → length (rest st).1 ≡ n)
      → length (next_events repo queue telemetry true rest x).1 ≡ suc n
  next-length rest (st, r) n h =
      length-goes_on (r.success || true) (or_true r.success) st r (rest st) n (h st)

  next-StopsAtFailure :
      (rest : T × (S × Q) → (T × (S × Q)) × List EventResult) (x : (T × (S × Q)) × EventResult)
      → ((st : T × (S × Q)) → StopsAtFailure (rest st).1)
      → StopsAtFailure (next_events repo queue telemetry false rest x).1
  next-StopsAtFailure rest (st, r) h =
      StopsAtFailure-if (r.success || false) r (or_false r.success) st (rest st) (h st)

  -- A batch that tolerates failures is answered with one result for each event.
  pub length-ingest_events :
      (st : T × (S × Q)) (events : List (Option Event))
      → length (ingest_events repo queue telemetry true st events).1 ≡ length events
  unfolding ingest_events
  length-ingest_events st [] = refl
  length-ingest_events st (event ∷ events) =
      next-length (λ st'. ingest_events repo queue telemetry true st' events)
        (event_result repo queue telemetry st event) (length events)
        (λ st'. length-ingest_events st' events)

  -- A batch that tolerates no failure ends at the first: every result but the last is a success.
  pub ingest_events-StopsAtFailure :
      (st : T × (S × Q)) (events : List (Option Event))
      → StopsAtFailure (ingest_events repo queue telemetry false st events).1
  unfolding ingest_events
  ingest_events-StopsAtFailure st [] = tt
  ingest_events-StopsAtFailure st (event ∷ events) =
      next-StopsAtFailure (λ st'. ingest_events repo queue telemetry false st' events)
        (event_result repo queue telemetry st event)
        (λ st'. ingest_events-StopsAtFailure st' events)
