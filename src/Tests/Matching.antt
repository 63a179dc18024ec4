-- ===== src/Tests/Matching.antt =====
-- The theorems of the matcher over a small network: a point of zero has no candidate, any other has two.
use mathlib.Core.List.{Memᴰ}
use routers.Common.{
  ℕ, zero, suc, ◌+◌, ◌<◌, ◌≡◌, ◌↔◌, refl, List, [], ◌∷◌, Option, none, some, arith, length,
  get_elem?, u32_mod, as_u32, saturating_add, slice, write_slice, if◌then◌else◌,
}
use routers.Common.Outcome.{ok, err}
use routers.Trellis.Types.{LayerId, NodeId, FoundPath, resolved, pending, no_edge, max_weight}
use routers.Trellis.Graph.{
  Trellis, boundaries as boundary_ids, layer, range_from, is_resolved_at, disconnections,
  disconnected_from, new, position_from, pending_between, node_range, layer_ranges, ranges_from,
}
use routers.Trip.Store.{CandidateRef, Candidate, CandidateStore}
use routers.Trip.State.{Trip, push_layer, land, stamp}
use routers.Trip.Phase.{building, solved}
use routers.Trip.Solved.{solve_with}
use routers.Matcher.Again.{solve-solve}
use routers.Trellis.Edit.{fill_nodes}
use routers.Matcher.Weigh.{
  Weigher, weigh, weigh_all, unresolved, fill_all, weigh_source, write_hops, hop,
}
use routers.Matcher.Rows.{selected, cell_of, weigh_source-get_elem?}
use routers.Matcher.Weighed.{Weighed}
use routers.Matcher.Frontier.{
  frontier_collapse, collapse_from, next_frontier, reached_targets, reached,
}
use mathlib.Core.List.{zip}
use routers.Trellis.Types.{SolveError}
use routers.Solver.Forward.{forward_pass, advance, next_row, relax, relax_row, enter, add_u32}
use routers.Solver.Viterbi.{
  solve as viterbi, tables, boundaries as boundary_list, collect, boundary, backtrack, last_range,
  min_pair, min_from, numbered, column_costs, predecessor, trace_back,
}
use routers.Matcher.Collapse.{Diagnosed, frontier_collapse-Diagnosed}
use routers.Matcher.Run.{
  push, push_found, extend, solve, solve_taken, solve_weighed, settle, unanchored_from,
}
use routers.Matcher.Route.{match_line}
use routers.Matcher.Sound.{IsSound}
use routers.Matcher.Batch.{PushAnswer, push-PushAnswer, ExtendAnswer, extend-ExtendAnswer}
use routers.Matcher.Unanchored.{unanchored_from-Mem}
use routers.Matcher.Solves.{SolveAnswer, solve-SolveAnswer}
use routers.Matcher.Driven.{Driven, begun, stepped, pushed, push_failed, Driven-IsSound}
use routers.Matcher.Whole.{MatchAnswer, match_line-MatchAnswer}
use routers.Matcher.Strategy.{all_compute, select_all}
use routers.Tests.Trellises.{branching}
use routers.Tests.Solving.{branching-IsValid}
use routers.Tests.Trips.{seen, at, trip, trip-IsAligned, places}

abbrev nearby : ℕ → LayerId → List (Candidate ℕ ℕ)
nearby zero l = []
nearby (suc p) l = at 0 0 ∷ at 0 1 ∷ []

nearby_words : (p : ℕ) (l : LayerId) → length (nearby p l) < u32_mod
nearby_words zero l = omega arith
nearby_words (suc p) l = omega arith

-- A hop is reached unless it crosses from node 0 to node 1, and costs five.
abbrev cross : NodeId → NodeId → Option ℕ
cross zero (suc n) = none
cross f n = some 5

abbrev reach : CandidateStore ℕ ℕ → CandidateRef → CandidateRef → Option ℕ
reach s from to = cross from.node to.node

abbrev network : Weigher ℕ ℕ ℕ
network = all_compute reach (λ s cost. some cost)

trip-IsSound : IsSound trip
trip-IsSound = record { aligned = trip-IsAligned; certified = tt }

push_example : PushAnswer nearby nearby_words (seen 4) trip (push nearby (seen 4) trip)
push_example = push-PushAnswer nearby nearby_words (seen 4) trip trip-IsSound (omega arith)

extend_example :
    ExtendAnswer nearby nearby_words
      (seen 4 ∷ seen 0 ∷ [])
      trip
      (extend nearby (seen 4 ∷ seen 0 ∷ []) trip)
extend_example =
    extend-ExtendAnswer nearby nearby_words (seen 4 ∷ seen 0 ∷ []) trip trip-IsSound (omega arith)

solve_example : SolveAnswer 0 network trip (solve 0 network trip)
solve_example = solve-SolveAnswer 0 network trip trip-IsSound (omega arith)

abbrev found : FoundPath
found = record { nodes = 0 ∷ 1 ∷ 0 ∷ []; cost = 8 }

abbrev solved_trip : Trip ℕ ℕ
solved_trip = record trip { state = solved (record { trellis = branching; path = found }) }

solve-trip : solve 0 network trip ≡ ok (found, solved_trip)
unfolding solve solve_taken solve_weighed settle weigh weigh_all unresolved fill_all is_resolved_at
    disconnections disconnected_from solve_with viterbi tables boundary_list collect boundary
    forward_pass advance next_row relax relax_row enter add_u32 backtrack last_range min_pair
    min_from numbered layer_ranges ranges_from layer boundary_ids range_from as_u32 slice zip
    column_costs predecessor trace_back saturating_add
solve-trip = refl

solve_again_example : solve 0 network solved_trip ≡ ok (found, solved_trip)
solve_again_example =
    solve-solve 0 network trip solved_trip found trip-IsSound (omega arith) solve-trip

match_example :
    MatchAnswer nearby nearby_words 0 network
      (1 ∷ 2 ∷ [])
      (match_line 0 network nearby (1 ∷ 2 ∷ []))
match_example = match_line-MatchAnswer nearby nearby_words 0 network (1 ∷ 2 ∷ []) (omega arith)

-- The layers of `places` before anything is weighed.
abbrev unweighed : Trellis
unweighed = record {
  widths = 1 ∷ 2 ∷ 1 ∷ [];
  nodes = 0 ∷ 0 ∷ 0 ∷ 0 ∷ [];
  transitions = pending ∷ pending ∷ [];
}

frontier_example :
    (breaks : List LayerId) × (frontier_collapse branching ≡ some breaks)
    × Diagnosed branching (length branching.transitions) breaks
frontier_example = frontier_collapse-Diagnosed branching branching-IsValid (omega arith)

abbrev two_points : List ℕ
two_points = 5 ∷ 0 ∷ []

unanchored_example :
    Memᴰ (record { layer = 3; origin = 0 }) (unanchored_from 2 ((at 0 0 ∷ []) ∷ [] ∷ []) two_points)
    ↔ ((i : ℕ) × (3 ≡ 2 + i)
        × (get_elem? ((at 0 0 ∷ []) ∷ [] ∷ []) i ≡ some [])
        × (get_elem? two_points i ≡ some 0))
unanchored_example =
    unanchored_from-Mem 2 ((at 0 0 ∷ []) ∷ [] ∷ []) two_points (record { layer = 3; origin = 0 })

row_of : weigh_source network places (at 0 0) (at 1 0 ∷ at 1 1 ∷ []) ≡ some (5 ∷ no_edge ∷ [])
unfolding weigh_source write_hops select_all range_from as_u32
row_of = refl

weigh_source_example :
    get_elem? (5 ∷ no_edge ∷ []) 1
    ≡ some (
        if selected 1 (network.select places (at 0 0) (at 1 0 ∷ at 1 1 ∷ []))
        then cell_of (hop network places (at 0 0).location (at 1 1).location)
        else no_edge)
weigh_source_example =
    weigh_source-get_elem? network places (at 0 0) (at 1 1) (at 1 0 ∷ at 1 1 ∷ []) 1
      (5 ∷ no_edge ∷ []) refl row_of

-- A push of one point, and the failed push of a point without candidates.
abbrev anchored : Trip ℕ ℕ
anchored = record {
  origins = seen 1 ∷ [];
  candidates = record { layers = (at 0 0 ∷ at 0 1 ∷ []) ∷ [] };
  state = building (record { widths = 2 ∷ []; nodes = 0 ∷ 0 ∷ []; transitions = [] });
}

Driven-anchored : Driven nearby nearby_words 0 network anchored
unfolding push push_found push_layer land stamp fill_nodes node_range layer_ranges ranges_from new
    position_from pending_between as_u32 write_slice slice
Driven-anchored = stepped begun (omega arith) (pushed (seen 1) 0 refl)

Driven-rejected : Driven nearby nearby_words 0 network anchored
unfolding push push_found
Driven-rejected = stepped Driven-anchored (omega arith) (push_failed (seen 0) _ refl)

Driven_example : IsSound anchored
Driven_example = Driven-IsSound nearby nearby_words 0 network Driven-rejected

-- Edges are present throughout, and the cheapest path costs the infinity: no boundary is named.
abbrev heavy : Trellis
heavy = record {
  widths = 1 ∷ 1 ∷ [];
  nodes = 0 ∷ 1 ∷ [];
  transitions = resolved (max_weight ∷ []) ∷ [];
}

heavy_unreachable : viterbi heavy ≡ err SolveError.unreachable
unfolding viterbi tables boundary_list collect boundary forward_pass advance next_row relax
    relax_row enter add_u32 backtrack last_range min_pair min_from numbered layer_ranges ranges_from
    layer boundary_ids range_from as_u32 slice zip
heavy_unreachable = refl

heavy_frontier : frontier_collapse heavy ≡ some []
unfolding frontier_collapse collapse_from next_frontier reached_targets reached layer boundary_ids
    range_from as_u32
heavy_frontier = refl
