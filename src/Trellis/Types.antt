-- ===== src/Trellis/Types.antt =====
-- The plain data of the trellis: libs/routers_trellis/src/{types,transition,path}.rs, the constants
-- and error types of trellis.rs and solver/mod.rs. Ids are numbers; a `u32` is a number below 2^32.
use routers.Common.{ℕ, ◌-◌, ◌^◌, List, Option, none, some, Bool, true, false, replicate}

abbrev pub LayerId : Type 0
LayerId = ℕ

abbrev pub NodeId : Type 0
NodeId = ℕ

-- The sentinel for an absent edge in the input of `fill_transition`.
abbrev pub no_edge : ℕ
no_edge = 2 ^ 32 - 1

-- The infinity of the tables.
abbrev pub inf_w : ℕ
inf_w = 2 ^ 30

abbrev pub max_weight : ℕ
max_weight = inf_w - 1

pub data TrellisError : Type 0 where
  empty : TrellisError
  zero_width_layer : LayerId → TrellisError
  layer_out_of_range : LayerId → TrellisError
  node_out_of_range : LayerId → NodeId → TrellisError
  weight_too_large : ℕ → TrellisError
  transition_len_mismatch : (layer : LayerId) (expected got : ℕ) → TrellisError
  node_len_mismatch : (layer : LayerId) (expected got : ℕ) → TrellisError

pub data SolveError : Type 0 where
  not_resolved : LayerId → SolveError
  unreachable : SolveError

pub record FoundPath : Type 0 where
  pub nodes : List NodeId
  pub cost : ℕ

-- The weights of one boundary, row-major, or none yet.
pub data Transition : Type 0 where
  pending : Transition
  resolved : List ℕ → Transition

abbrev pub is_resolved : Transition → Bool
is_resolved pending = false
is_resolved (resolved ws) = true

abbrev pub weights : Transition → Option (List ℕ)
weights pending = none
weights (resolved ws) = some ws

abbrev pub ensure_resolved : ℕ → Transition → Transition
ensure_resolved size pending = resolved (replicate size inf_w)
ensure_resolved size (resolved ws) = resolved ws
