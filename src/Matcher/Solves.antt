-- ===== src/Matcher/Solves.antt =====
-- libs/routers_transition/src/matcher/entity.rs: what `solve` answers on a sound trip.
use routers.Common.{
  ℕ, suc, ◌≤◌, ◌<◌, ◌≡◌, ◌≢◌, refl, ap, ◌∙◌, sym, subst, ◌⊎◌, inl, inr, List, [], ◌∷◌, map, none,
  some, arith, length, length-map, u32_mod, not,
}
use routers.Common.Outcome.{Outcome, ok, err, panic}
use routers.Trellis.Types.{
  LayerId, NodeId, TrellisError, SolveError, not_resolved, unreachable, FoundPath, Transition,
  pending, resolved, is_resolved, inf_w,
}
use routers.Trellis.Graph.{
  Trellis, layers, disconnections, disconnected_from, first_pending, position_from,
}
use routers.Trellis.Cost.{path_cost}
use routers.Trellis.Shape.{IsShaped-length}
use routers.Solver.Correct.{solve-Answers}
use routers.Solver.Viterbi.{solve as viterbi}
use routers.Trip.Solved.{Solved, solve_with}
use routers.Trip.Certificate.{Solver, IsCertificate, Certified, solve_with-Certified}
use routers.Trip.Phase.{TripState, empty, building, solved}
use routers.Trip.State.{Trip, restore}
use routers.Trip.Aligned.{Mirrors, StateMirrors}
use routers.Matcher.Error.{MatchError, disconnected, trellis_error}
use routers.Matcher.Weigh.{Weigher}
use routers.Matcher.Weighed.{Weighed, weigh-Weighed}
use routers.Matcher.Collapse.{Diagnosed, frontier_collapse-Diagnosed}
use routers.Matcher.Run.{break_at, solve, solve_taken, solve_weighed, settle, disconnected_at}
use routers.Matcher.Sound.{IsSound, IsCertified}

-- A trellis without disconnections has no pending boundary.
no_pending :
    (k : ℕ) (ts : List Transition)
    → disconnected_from k ts ≡ []
    → position_from k (λ x. not (is_resolved x)) ts ≡ none
unfolding disconnected_from position_from
no_pending k [] e = refl
no_pending k (pending ∷ ts) e = absurd (omega (arith, ap length e))
no_pending k (resolved ws ∷ ts) e = no_pending (suc k) ts e

complete_of_connected : (t : Trellis) → disconnections t ≡ [] → first_pending t ≡ none
unfolding disconnections first_pending
complete_of_connected t e = rw (no_pending 0 t.transitions e) refl

abbrev pub viterbi_solver : Solver
viterbi_solver = record { run = viterbi; answers = solve-Answers }

-- Why a weighed trellis has no path: boundaries that are pending, or, all being resolved, a cost at or above
-- the infinity for every path, with the breaks that `frontier_collapse` names.
abbrev pub IsGap : Trellis → List LayerId → Type 0
IsGap t gaps =
    ((gaps ≡ disconnections t) × (gaps ≢ []))
    ⊎ ((first_pending t ≡ none)
        × ((ns : List NodeId) (c : ℕ) → length ns ≡ layers t → path_cost t ns ≡ some c → inf_w ≤ c)
        × Diagnosed t (length t.transitions) gaps)

module _ {Edge Point Reachable : Type 0} (default : Point) (w : Weigher Edge Point Reachable) where
  -- Where the trellis of a solve comes from: it was solved before, or it was weighed.
  abbrev pub ComesFrom : Trip Edge Point → TripState → Trellis → Type 0
  ComesFrom trip empty u = ⊥
  ComesFrom trip (building t) u = Weighed w trip.candidates t u
  ComesFrom trip (solved s) u = u ≡ s.trellis

  -- A solve that succeeds: a sound trip that holds a solution, with the same observations and candidates.
  pub record IsSolved (trip after : Trip Edge Point) (path : FoundPath) : Type 0 where
    pub sound : IsSound after
    pub origins_eq : after.origins ≡ trip.origins
    pub candidates_eq : after.candidates ≡ trip.candidates
    pub held : Solved
    pub state_eq : after.state ≡ solved held
    pub path_eq : held.path ≡ path
    pub certificate : IsCertificate held
    pub origin : ComesFrom trip trip.state held.trellis

  -- Why a solve fails, and in what state it leaves the trip: an empty trip, or a trellis that is weighed and
  -- has a gap.
  abbrev pub FailsWith : Trip Edge Point → TripState → TripState → MatchError Point → Type 0
  FailsWith trip empty empty e = e ≡ trellis_error TrellisError.empty
  FailsWith trip (building t) (building u) e =
      Weighed w trip.candidates t u
      × (gaps : List LayerId) × (e ≡ disconnected (map (break_at default trip) gaps))
      × IsGap u gaps
  FailsWith trip _ _ e = ⊥

  pub record IsFailed (trip after : Trip Edge Point) (e : MatchError Point) : Type 0 where
    pub sound : IsSound after
    pub origins_eq : after.origins ≡ trip.origins
    pub candidates_eq : after.candidates ≡ trip.candidates
    pub reason : FailsWith trip trip.state after.state e

  abbrev pub SolveAnswer :
      Trip Edge Point
      → Outcome (MatchError Point × Trip Edge Point) (FoundPath × Trip Edge Point)
      → Type 0
  SolveAnswer trip (ok (path, after)) = IsSolved trip after path
  SolveAnswer trip (err (e, after)) = IsFailed trip after e
  SolveAnswer trip panic = ⊥

  IsFailed-restore :
      (trip : Trip Edge Point) (t u : Trellis) (gaps : List LayerId)
      → IsSound trip
      → trip.state ≡ building t
      → Weighed w trip.candidates t u
      → IsGap u gaps
      → IsFailed trip (restore (building u) trip) (disconnected (map (break_at default trip) gaps))
  IsFailed-restore trip t u gaps s e h gap = record {
    sound = record {
      aligned = record { paired = s.aligned.paired; mirrored = h.mirrors };
      certified = tt;
    };
    origins_eq = refl;
    candidates_eq = refl;
    reason =
        subst
          (λ st. FailsWith trip st (building u) (disconnected (map (break_at default trip) gaps)))
          (sym e) (h, gaps, refl, gap);
  }

  settle-SolveAnswer :
      (trip : Trip Edge Point) (t u : Trellis) (r : Outcome (Trellis × SolveError) Solved)
      → IsSound trip
      → trip.state ≡ building t
      → Weighed w trip.candidates t u
      → length u.transitions ≤ u32_mod
      → first_pending u ≡ none
      → Certified u r
      → SolveAnswer trip (settle default (restore empty trip) r)
  unfolding settle
  settle-SolveAnswer trip t u (ok held) s e h small complete (same, certificate) = record {
    sound = record {
      aligned = record {
        paired = s.aligned.paired;
        mirrored = subst (λ x. Mirrors x trip.candidates.layers) (sym same) h.mirrors;
      };
      certified = certificate;
    };
    origins_eq = refl;
    candidates_eq = refl;
    held = held;
    state_eq = refl;
    path_eq = refl;
    certificate = certificate;
    origin =
        subst (λ st. ComesFrom trip st held.trellis) (sym e)
          (subst (Weighed w trip.candidates t) (sym same) h);
  }
  settle-SolveAnswer trip t u (err (v, unreachable)) s e h small complete (same, said) =
      let (breaks, found, diagnosed) = frontier_collapse-Diagnosed u h.mirrors.valid small in
      subst (λ x. SolveAnswer trip (settle default (restore empty trip) (err (x, unreachable))))
        (sym same)
        (rw found (IsFailed-restore trip t u breaks s e h (inr (complete, said.1, diagnosed))))
  settle-SolveAnswer trip t u (err (v, not_resolved l)) s e h small complete (same, said) =
      absurd (none_some l (sym complete ∙ said))
    where
      none_some : (n : ℕ) → none ≡ some n → ⊥
      none_some n q = absurd (ground arith)
  settle-SolveAnswer trip t u panic s e h small complete certified = absurd certified

  solve_weighed-SolveAnswer :
      (trip : Trip Edge Point) (t u : Trellis)
      → IsSound trip
      → length trip.origins < u32_mod
      → trip.state ≡ building t
      → Weighed w trip.candidates t u
      → SolveAnswer trip (solve_weighed default (restore empty trip) (ok u))
  unfolding solve_weighed
  solve_weighed-SolveAnswer trip t u s small e h = of_gaps (disconnections u) refl
    where
      count : length u.widths ≡ length trip.origins
      count =
          ap length h.mirrors.widths_eq
          ∙ length-map length trip.candidates.layers
          ∙ s.aligned.paired

      of_gaps :
          (gaps : List LayerId)
          → disconnections u ≡ gaps
          → SolveAnswer trip (elim gaps [
            | [] ↦ settle default (restore empty trip) (solve_with viterbi u)
            | g ∷ gs ↦
                err
                  (disconnected_at default (restore empty trip) (g ∷ gs), restore (building u) trip)
          ])
      of_gaps [] q =
          settle-SolveAnswer trip t u (solve_with viterbi u) s e h
            (omega (arith, count, IsShaped-length u.widths u.transitions h.mirrors.valid.shape))
            (complete_of_connected u q)
            (solve_with-Certified viterbi_solver u h.mirrors.valid (omega (arith, count)))
      of_gaps (g ∷ gs) q =
          IsFailed-restore trip t u (g ∷ gs) s e h
            (inl (sym q, λ nil. absurd (omega (arith, ap length nil))))

  solve_taken-SolveAnswer :
      (trip : Trip Edge Point) (state : TripState)
      → IsSound trip
      → length trip.origins < u32_mod
      → trip.state ≡ state
      → SolveAnswer trip (solve_taken default w state (restore empty trip))
  unfolding solve_taken
  solve_taken-SolveAnswer trip empty s small e = record {
    sound = record {
      aligned = record {
        paired = s.aligned.paired;
        mirrored = subst (λ st. StateMirrors st trip.candidates.layers) e s.aligned.mirrored;
      };
      certified = tt;
    };
    origins_eq = refl;
    candidates_eq = refl;
    reason = subst (λ st. FailsWith trip st empty (trellis_error TrellisError.empty)) (sym e) refl;
  }
  solve_taken-SolveAnswer trip (building t) s small e =
      let mirrors : Mirrors t trip.candidates.layers =
        subst (λ st. StateMirrors st trip.candidates.layers) e s.aligned.mirrored in
      let (u, weighed, h) =
        weigh-Weighed w trip.candidates t mirrors (omega (arith, s.aligned.paired)) in
      subst (λ r. SolveAnswer trip (solve_weighed default (restore empty trip) r)) (sym weighed)
        (solve_weighed-SolveAnswer trip t u s small e h)
  solve_taken-SolveAnswer trip (solved held) s small e = record {
    sound = record {
      aligned = record {
        paired = s.aligned.paired;
        mirrored = subst (λ st. StateMirrors st trip.candidates.layers) e s.aligned.mirrored;
      };
      certified = subst IsCertified e s.certified;
    };
    origins_eq = refl;
    candidates_eq = refl;
    held = held;
    state_eq = refl;
    path_eq = refl;
    certificate = subst IsCertified e s.certified;
    origin = subst (λ st. ComesFrom trip st held.trellis) (sym e) refl;
  }

  -- On a sound trip of fewer than 2^32 layers `solve` does not panic and keeps the observations and the
  -- candidates. It succeeds with the path of a certificate that the trip then holds, of the trellis as weighed
  -- or as solved before; or it fails, on an empty trip with `Empty`, or with the breaks of a weighed trellis
  -- that has pending boundaries or in which every path costs the infinity or more.
  pub solve-SolveAnswer :
      (trip : Trip Edge Point)
      → IsSound trip
      → length trip.origins < u32_mod
      → SolveAnswer trip (solve default w trip)
  unfolding solve
  solve-SolveAnswer trip s small = solve_taken-SolveAnswer trip trip.state s small refl
