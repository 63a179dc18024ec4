-- ===== src/Matcher/Whole.antt =====
-- libs/routers_transition/src/matcher/entity.rs: what `match` answers for a whole trajectory.
use routers.Common.{
  ℕ, zero, suc, ◌+◌, ◌<◌, ◌≡◌, refl, ap, ◌∙◌, sym, subst, List, [], ◌∷◌, map, some, arith, length,
  length-map, u32_mod, ap₂, get_elem?, lt_of_get_elem?, as_u32,
}
use mathlib.Core.Option.{some-injective}
use routers.Common.Outcome.{Outcome, ok, err, panic, ◌>>=◌}
use routers.Trellis.Types.{LayerId, NodeId, FoundPath, TrellisError}
use routers.Trellis.Graph.{Trellis}
use routers.Trip.Solved.{Solved}
use routers.Trip.Certificate.{IsCertificate}
use routers.Trip.Phase.{TripState, empty, building, solved, map_err}
use routers.Trip.Store.{Candidate, CandidateStore}
use routers.Trip.State.{Origin, Trip, new_trip}
use routers.Trip.Aligned.{Mirrors, StateMirrors}
use routers.Matcher.Error.{
  Unanchored, Disconnected, MatchError, unanchored, disconnected, trellis_error,
}
use routers.Matcher.Weigh.{Weigher}
use routers.Matcher.Run.{generate, unanchored_from, extend, solve, break_at, or_default}
use routers.Matcher.Route.{
  route_from, route_of, numbered_origins, interpolate, collapse, match_line, CollapsedPath,
  Collapse,
}
use routers.Matcher.Sound.{IsSound, new_trip-IsSound}
use routers.Matcher.Batch.{ExtendAnswer, extend-ExtendAnswer}
use routers.Matcher.Solves.{SolveAnswer, solve-SolveAnswer, IsSolved, IsGap, FailsWith, ComesFrom}
use routers.Matcher.Weighed.{Weighed}
use routers.Matcher.Laid.{StateBlank}
use routers.Matcher.Fresh.{IsFresh, IsLaid, new_trip-IsLaid, push_each-IsLaid, IsFresh-of_laid}
use mathlib.Core.Option
use routers.Matcher.Numbered.{
  length-route_from, route_from-get_elem?, length-numbered_origins, points-numbered_origins,
}

module _ {Edge Point Reachable : Type 0}
    (candidates : Point → LayerId → List (Candidate Edge Point))
    (words : (p : Point) (l : LayerId) → length (candidates p l) < u32_mod) (default : Point)
    (w : Weigher Edge Point Reachable) where
  -- A gap behind a layer, with the points on either side.
  abbrev pub gap_at : List Point → LayerId → Disconnected Point
  gap_at points g = record {
    from_layer = g;
    to_layer = g + 1;
    from_origin = or_default default (get_elem? points g);
    to_origin = or_default default (get_elem? points (as_u32 (g + 1)));
  }

  -- Why a trajectory is not matched.
  pub data Unmatched (points : List Point) : MatchError Point → Type 0 where
    no_points : points ≡ [] → Unmatched points (trellis_error TrellisError.empty)
    off_road :
        (u : Unanchored Point) (us : List (Unanchored Point))
        → unanchored_from 0 (generate candidates 0 0 points) points ≡ u ∷ us
        → Unmatched points (unanchored (u ∷ us))
    broken :
        (s : CandidateStore Edge Point) (fresh t : Trellis) (gaps : List LayerId)
        → IsFresh candidates points s fresh
        → Weighed w s fresh t
        → IsGap t gaps
        → Unmatched points (disconnected (map (gap_at points) gaps))

  -- A match: a cheapest path through the trellis of the points' candidates as it is weighed, with one candidate
  -- for each point.
  pub record IsMatched (points : List Point) (p : CollapsedPath Edge Point Reachable) : Type 0 where
    pub fresh : Trellis
    pub is_fresh : IsFresh candidates points p.candidates fresh
    pub held : Solved
    pub weighed : Weighed w p.candidates fresh held.trellis
    pub certificate : IsCertificate held
    pub cost_eq : p.collapse.cost ≡ held.path.cost
    pub chosen :
        (i : ℕ) {n : NodeId}
        → get_elem? held.path.nodes i ≡ some n
        → get_elem? p.collapse.route i ≡ some (record { layer = i; node = n })
    pub interpolated_eq :
        p.collapse.interpolated ≡ interpolate default w p.candidates p.collapse.route
    pub spans : length p.collapse.route ≡ length points

  abbrev pub MatchAnswer :
      List Point → Outcome (MatchError Point) (CollapsedPath Edge Point Reachable) → Type 0
  MatchAnswer points (ok p) = IsMatched points p
  MatchAnswer points (err e) = Unmatched points e
  MatchAnswer points panic = ⊥

  abbrev points_of : List (Origin Point) → List Point
  points_of origins = map (λ (o : Origin Point). o.point) origins

  get_elem?-points_of :
      (origins : List (Origin Point)) (i : ℕ)
      → Option.map (λ (o : Origin Point). o.point) (get_elem? origins i)
        ≡ get_elem? (points_of origins) i
  get_elem?-points_of [] i = refl
  get_elem?-points_of (o ∷ os) zero = refl
  get_elem?-points_of (o ∷ os) (suc i) = get_elem?-points_of os i

  gaps_of :
      (trip : Trip Edge Point) (gaps : List LayerId)
      → map (break_at default trip) gaps ≡ map (gap_at (points_of trip.origins)) gaps
  gaps_of trip [] = refl
  gaps_of trip (g ∷ gs) =
      ap₂ ◌∷◌
        (ap₂
          (λ a b. record {
            from_layer = g;
            to_layer = g + 1;
            from_origin = or_default default a;
            to_origin = or_default default b;
          })
          (get_elem?-points_of trip.origins g) (get_elem?-points_of trip.origins (as_u32 (g + 1))))
        (gaps_of trip gs)

  -- The trellis of a solve after a batch on a new trip is the fresh one, weighed.
  IsFresh-of_state :
      (points : List Point) (trip after : Trip Edge Point) (state : TripState) (u : Trellis)
      → IsSound trip
      → IsLaid candidates trip
      → points_of trip.origins ≡ points
      → after.candidates ≡ trip.candidates
      → trip.state ≡ state
      → ComesFrom default w trip state u
      → (fresh : Trellis) × IsFresh candidates points after.candidates fresh
        × Weighed w after.candidates fresh u
  IsFresh-of_state points trip after empty u s laid same kept e from = absurd from
  IsFresh-of_state points trip after (building t) u s laid same kept e from = (
    t,
    subst (λ ps. IsFresh candidates ps after.candidates t) same
        (subst (λ c. IsFresh candidates (points_of trip.origins) c t) (sym kept)
          (IsFresh-of_laid candidates trip t s.aligned laid e)),
    subst (λ c. Weighed w c t u) (sym kept) from,
  )
  IsFresh-of_state points trip after (solved held) u s laid same kept e from =
      absurd (subst (λ st. StateBlank st trip.candidates.layers) e laid.blank)

  -- The end of a match: what follows the batch.
  abbrev finish :
      Trip Edge Point
      → Outcome (MatchError Point × Trip Edge Point) (CollapsedPath Edge Point Reachable)
  finish trip = collapse default w trip >>= λ (c, after).
      ok (record { collapse = c; candidates = after.candidates })

  zero_plus : (i : ℕ) → 0 + i ≡ i
  zero_plus i = omega arith

  IsMatched-of_solved :
      (points : List Point) (trip after : Trip Edge Point) (path : FoundPath)
      → IsSound trip
      → IsLaid candidates trip
      → points_of trip.origins ≡ points
      → length trip.origins ≡ length points
      → length points < u32_mod
      → IsSolved default w trip after path
      → IsMatched points (record {
        collapse = record {
          cost = path.cost;
          route = route_of path;
          interpolated = interpolate default w after.candidates (route_of path);
        };
        candidates = after.candidates;
      })
  unfolding route_of
  IsMatched-of_solved points trip after path sound laid same size small s =
      let (fresh, is_fresh, weighed) =
        IsFresh-of_state points trip after trip.state s.held.trellis sound laid same s.candidates_eq
          refl s.origin in
      let mirrors : Mirrors s.held.trellis after.candidates.layers =
        subst (λ st. StateMirrors st after.candidates.layers) s.state_eq s.sound.aligned.mirrored in
      record {
        fresh = fresh;
        is_fresh = is_fresh;
        held = s.held;
        weighed = weighed;
        certificate = s.certificate;
        cost_eq = ap (λ (p : FoundPath). p.cost) (sym s.path_eq);
        chosen = λ i {n} e.
            let size : length s.held.path.nodes ≡ length points =
              s.certificate.best.spans
              ∙ ap length mirrors.widths_eq
              ∙ length-map length after.candidates.layers
              ∙ s.sound.aligned.paired
              ∙ ap length s.origins_eq
              ∙ size in
            ap (λ (q : FoundPath). get_elem? (route_from 0 q.nodes) i) (sym s.path_eq)
            ∙ route_from-get_elem? 0 i s.held.path.nodes
                (omega (arith, lt_of_get_elem? s.held.path.nodes i e)) e
            ∙ ap (λ l. some (record { layer = l; node = n })) (zero_plus i);
        interpolated_eq = refl;
        spans =
            length-route_from 0 path.nodes
            ∙ ap (λ (p : FoundPath). length p.nodes) (sym s.path_eq)
            ∙ s.certificate.best.spans
            ∙ ap length mirrors.widths_eq
            ∙ length-map length after.candidates.layers
            ∙ s.sound.aligned.paired
            ∙ ap length s.origins_eq
            ∙ size;
      }

  nil_of_length : (points : List Point) → length points ≡ 0 → points ≡ []
  nil_of_length [] e = refl
  nil_of_length (p ∷ ps) e = absurd (omega arith)

  Unmatched-of_failed :
      (points : List Point) (trip : Trip Edge Point) (before after : TripState)
      (e : MatchError Point)
      → length trip.origins ≡ length points
      → IsSound trip
      → IsLaid candidates trip
      → points_of trip.origins ≡ points
      → trip.state ≡ before
      → FailsWith default w trip before after e
      → Unmatched points e
  Unmatched-of_failed points trip empty empty e size s laid same at why =
      let none_there : trip.candidates.layers ≡ [] =
        subst (λ st. StateMirrors st trip.candidates.layers) at s.aligned.mirrored in
      subst (Unmatched points) (sym why)
        (no_points (nil_of_length points (sym size ∙ sym s.aligned.paired ∙ ap length none_there)))
  Unmatched-of_failed points trip (building t) (building u) e size s laid same at
        (h, gaps, said, gap) =
      subst (Unmatched points)
        (ap disconnected (ap (λ ps. map (gap_at ps) gaps) (sym same) ∙ sym (gaps_of trip gaps))
          ∙ sym said)
        (broken trip.candidates t u gaps
          (subst (λ ps. IsFresh candidates ps trip.candidates t) same
            (IsFresh-of_laid candidates trip t s.aligned laid at))
          h gap)
  Unmatched-of_failed points trip empty (building u) e size s laid same at why = absurd why
  Unmatched-of_failed points trip empty (solved u) e size s laid same at why = absurd why
  Unmatched-of_failed points trip (building t) empty e size s laid same at why = absurd why
  Unmatched-of_failed points trip (building t) (solved u) e size s laid same at why = absurd why
  Unmatched-of_failed points trip (solved t) after e size s laid same at why = absurd why

  finish-MatchAnswer :
      (points : List Point) (trip : Trip Edge Point)
      → IsSound trip
      → IsLaid candidates trip
      → points_of trip.origins ≡ points
      → length trip.origins ≡ length points
      → length points < u32_mod
      → MatchAnswer points (map_err (λ (r : MatchError Point × Trip Edge Point). r.0) (finish trip))
  unfolding collapse
  finish-MatchAnswer points trip s laid same size small =
      of_answer (solve default w trip) (solve-SolveAnswer default w trip s (omega (arith, size)))
    where
      of_answer :
          (r : Outcome (MatchError Point × Trip Edge Point) (FoundPath × Trip Edge Point))
          → SolveAnswer default w trip r
          → MatchAnswer points (
              map_err
                (λ (q : MatchError Point × Trip Edge Point). q.0)
                ((r >>= λ (x : FoundPath × Trip Edge Point). ok (
                  record {
                    cost = x.0.cost;
                    route = route_of x.0;
                    interpolated = interpolate default w x.1.candidates (route_of x.0);
                  },
                  x.1,
                ))
                  >>= λ (c : Collapse Reachable × Trip Edge Point).
                      ok (record { collapse = c.0; candidates = c.1.candidates })))
      of_answer (ok (path, after)) h =
          IsMatched-of_solved points trip after path s laid same size small h
      of_answer (err (e, after)) h =
          Unmatched-of_failed points trip trip.state after.state e size s laid same refl h.reason
      of_answer panic h = absurd h

  -- `match` on fewer than 2^32 points, each with fewer than 2^32 candidates, does not panic. It starts from the
  -- trellis of the points' candidates, with their emissions and all boundaries pending. It gives a cheapest
  -- path through that trellis as it is weighed, with one candidate for each point; or it fails because there is
  -- no point, because some points have no candidate, which it names, or because that trellis as it is weighed
  -- has a gap, with the points at each gap.
  pub match_line-MatchAnswer :
      (points : List Point)
      → length points < u32_mod
      → MatchAnswer points (match_line default w candidates points)
  unfolding match_line
  match_line-MatchAnswer points small =
      of_answer (extend candidates (numbered_origins 0 points) new_trip) (
        extend-ExtendAnswer candidates words (numbered_origins 0 points) new_trip new_trip-IsSound
          (omega (arith, length-numbered_origins 0 points)))
    where
      of_answer :
          (r : Outcome (MatchError Point × Trip Edge Point) (Trip Edge Point))
          → ExtendAnswer candidates words (numbered_origins 0 points) new_trip r
          → MatchAnswer points (
              map_err (λ (q : MatchError Point × Trip Edge Point). q.0) (r >>= λ trip. finish trip))
      of_answer (ok trip) h =
          finish-MatchAnswer points trip h.0
            (push_each-IsLaid candidates words (numbered_origins 0 points) new_trip trip
              new_trip-IsSound (new_trip-IsLaid candidates)
              (omega (arith, length-numbered_origins 0 points)) h.2)
            (ap points_of h.1 ∙ points-numbered_origins 0 points)
            (ap length h.1 ∙ length-numbered_origins 0 points) small
      of_answer (err (e, after)) (same, u, us, said, found) = subst (Unmatched points) (sym said) (
          off_road u us (
            subst (λ ps. unanchored_from 0 (generate candidates 0 0 ps) ps ≡ u ∷ us)
              (points-numbered_origins 0 points) found))
      of_answer panic h = absurd h
