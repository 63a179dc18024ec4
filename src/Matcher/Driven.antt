-- ===== src/Matcher/Driven.antt =====
-- libs/routers_transition/src/matcher/{entity,trip}.rs: the trips that a matcher drives from the empty one.
use routers.Common.{
  ℕ, ◌+◌, ◌-◌, ◌<◌, ◌≡◌, refl, ◌∙◌, if◌then◌else◌, sym, subst, List, Option, none, some, Bool, true,
  false, arith, length, drop, u32_mod, leb, ◌==◌,
}
use mathlib.Core.Option.{some-injective}
use routers.Common.Maybe.{◌>>=◌}
use routers.Common.Outcome.{Outcome, ok, err, panic, expect}
use routers.Trellis.Types.{LayerId, FoundPath, TrellisError}
use routers.Trellis.Graph.{Trellis}
use routers.Trellis.Edit.{last}
use routers.Trip.Phase.{TripState, empty, building, solved, tail_state}
use routers.Trip.Store.{Candidate, store_tail}
use routers.Trip.State.{Origin, Trip, new_trip, tail}
use routers.Trip.Aligned.{IsAligned}
use routers.Trip.Cut.{tail-IsAligned}
use routers.Matcher.Error.{MatchError}
use routers.Matcher.Weigh.{Weigher}
use routers.Matcher.Run.{push, extend, solve}
use routers.Matcher.Sound.{IsSound, IsCertified, new_trip-IsSound}
use routers.Matcher.Batch.{PushAnswer, push-PushAnswer, ExtendAnswer, extend-ExtendAnswer}
use routers.Matcher.Solves.{SolveAnswer, solve-SolveAnswer}

-- A cut leaves no solved state behind.
expect-IsCertified :
    (r : Outcome TrellisError Trellis) (after : TripState)
    → (expect r >>= λ u. some (building u)) ≡ some after
    → IsCertified after
expect-IsCertified (ok u) after q = subst IsCertified (some-injective (building u) after q) tt
expect-IsCertified (err x) after q = absurd (ground arith)
expect-IsCertified panic after q = absurd (ground arith)

tail_state-IsCertified :
    (n : ℕ) (state after : TripState) → tail_state n state ≡ some after → IsCertified after
tail_state-IsCertified n empty after e = subst IsCertified (some-injective empty after e) tt
tail_state-IsCertified n (building t) after e = expect-IsCertified (last n t) after e
tail_state-IsCertified n (solved s) after e = expect-IsCertified (last n s.trellis) after e

module _ {Edge Point : Type 0} where
  tail-IsCertified :
      (n : ℕ) (trip after : Trip Edge Point)
      → IsCertified trip.state
      → tail n trip ≡ some after
      → IsCertified after.state
  unfolding tail
  tail-IsCertified n trip after c e = of_test (leb (length trip.origins) n) (n == 0) e
    where
      cut_trip : TripState → Trip Edge Point
      cut_trip state = record {
        origins = drop (length trip.origins - n) trip.origins;
        candidates = store_tail n trip.candidates;
        state = state;
      }

      of_state :
          (o : Option TripState)
          → tail_state n trip.state ≡ o
          → (o >>= λ state. some (cut_trip state)) ≡ some after
          → IsCertified after.state
      of_state none p q = absurd (ground arith)
      of_state (some state) p q =
          subst (λ (x : Trip Edge Point). IsCertified x.state)
            (some-injective (cut_trip state) after q) (tail_state-IsCertified n trip.state state p)

      of_test :
          (all nothing : Bool)
          → (if all
              then some trip
              else if nothing
              then some new_trip
              else (tail_state n trip.state >>= λ state. some (cut_trip state)))
            ≡ some after
          → IsCertified after.state
      of_test true nothing q =
          subst (λ (x : Trip Edge Point). IsCertified x.state) (some-injective trip after q) c
      of_test false true q =
          subst (λ (x : Trip Edge Point). IsCertified x.state) (some-injective new_trip after q) tt
      of_test false false q = of_state (tail_state n trip.state) refl q

module _ {Edge Point Reachable : Type 0}
    (candidates : Point → LayerId → List (Candidate Edge Point))
    (words : (p : Point) (l : LayerId) → length (candidates p l) < u32_mod) (default : Point)
    (w : Weigher Edge Point Reachable) where
  -- One call on a trip of fewer than 2^32 layers, with what it leaves of the trip, errors included.
  pub data Step : Trip Edge Point → Trip Edge Point → Type 0 where
    pushed :
        {trip after : Trip Edge Point} (origin : Origin Point) (id : LayerId)
        → push candidates origin trip ≡ ok (id, after)
        → Step trip after
    push_failed :
        {trip after : Trip Edge Point} (origin : Origin Point) (e : MatchError Point)
        → push candidates origin trip ≡ err (e, after)
        → Step trip after
    extended :
        {trip after : Trip Edge Point} (origins : List (Origin Point))
        → length trip.origins + length origins < u32_mod
        → extend candidates origins trip ≡ ok after
        → Step trip after
    extend_failed :
        {trip after : Trip Edge Point} (origins : List (Origin Point)) (e : MatchError Point)
        → length trip.origins + length origins < u32_mod
        → extend candidates origins trip ≡ err (e, after)
        → Step trip after
    solved_to :
        {trip after : Trip Edge Point} (path : FoundPath)
        → solve default w trip ≡ ok (path, after)
        → Step trip after
    solve_failed :
        {trip after : Trip Edge Point} (e : MatchError Point)
        → solve default w trip ≡ err (e, after)
        → Step trip after
    cut : {trip after : Trip Edge Point} (n : ℕ) → tail n trip ≡ some after → Step trip after

  -- The trips that calls lead to.
  pub data Driven : Trip Edge Point → Type 0 where
    begun : Driven new_trip
    stepped :
        {trip after : Trip Edge Point}
        → Driven trip
        → length trip.origins < u32_mod
        → Step trip after
        → Driven after

  -- A call keeps a trip sound.
  Step-IsSound :
      {trip after : Trip Edge Point}
      → IsSound trip
      → length trip.origins < u32_mod
      → Step trip after
      → IsSound after
  Step-IsSound {trip} {after} s small (pushed origin id e) =
      (subst (PushAnswer candidates words origin trip) e
        (push-PushAnswer candidates words origin trip s small)).1.sound
  Step-IsSound {trip} {after} s small (push_failed origin x e) =
      subst IsSound
        (sym
          (subst (PushAnswer candidates words origin trip) e
            (push-PushAnswer candidates words origin trip s small)).1)
        s
  Step-IsSound {trip} {after} s small (extended origins fits e) =
      (subst (ExtendAnswer candidates words origins trip) e
        (extend-ExtendAnswer candidates words origins trip s fits)).0
  Step-IsSound {trip} {after} s small (extend_failed origins x fits e) =
      subst IsSound
        (sym
          (subst (ExtendAnswer candidates words origins trip) e
            (extend-ExtendAnswer candidates words origins trip s fits)).0)
        s
  Step-IsSound {trip} {after} s small (solved_to path e) =
      (subst (SolveAnswer default w trip) e (solve-SolveAnswer default w trip s small)).sound
  Step-IsSound {trip} {after} s small (solve_failed x e) =
      (subst (SolveAnswer default w trip) e (solve-SolveAnswer default w trip s small)).sound
  Step-IsSound {trip} {after} s small (cut n e) =
      let (found, found_eq, aligned, _) = tail-IsAligned n trip s.aligned small in
      record {
        aligned = subst IsAligned (some-injective found after (sym found_eq ∙ e)) aligned;
        certified = tail-IsCertified n trip after s.certified e;
      }

  -- Every trip that pushes, batches, solves and cuts lead to from the empty one, failed calls included, is
  -- sound: its observations, candidates and trellis speak of the same layers, the trellis is valid, and a
  -- path it holds is a cheapest one. Each call is on a trip of fewer than 2^32 layers, and a batch does not
  -- take it to 2^32.
  pub Driven-IsSound : {trip : Trip Edge Point} → Driven trip → IsSound trip
  Driven-IsSound begun = new_trip-IsSound
  Driven-IsSound (stepped before small step) = Step-IsSound (Driven-IsSound before) small step
