-- ===== src/Trip/Store.antt =====
-- libs/routers_transition/src/candidate/store.rs, with the candidates of entry.rs and ident.rs. The
-- edge of a candidate and its position are of any types.
use routers.Common.{
  ℕ, suc, ◌-◌, List, [], ◌∷◌, ◌++◌, map, Option, length, get_elem?, drop, if◌then◌else◌, ◌==◌,
  as_u32,
}
use routers.Common.Maybe.{◌>>=◌}
use routers.Trellis.Types.{LayerId, NodeId}

pub record CandidateRef : Type 0 where
  pub layer : LayerId
  pub node : NodeId

pub record Candidate (Edge Point : Type 0) : Type 0 where
  pub edge : Edge
  pub position : Point
  pub emission : ℕ
  pub location : CandidateRef

pub record CandidateStore (Edge Point : Type 0) : Type 0 where
  pub layers : List (List (Candidate Edge Point))

module _ {Edge Point : Type 0} where
  abbrev pub store_layer :
      List (Candidate Edge Point) → CandidateStore Edge Point → CandidateStore Edge Point
  store_layer candidates s = record { layers = s.layers ++ (candidates ∷ []) }

  abbrev pub relabel : LayerId → Candidate Edge Point → Candidate Edge Point
  relabel l c = record c { location = record { layer = l; node = c.location.node } }

  -- `enumerate()` over the surviving layers.
  unfoldable pub restamp :
      ℕ → List (List (Candidate Edge Point)) → List (List (Candidate Edge Point))
  restamp i [] = []
  restamp i (candidates ∷ rest) = map (relabel (as_u32 i)) candidates ∷ restamp (suc i) rest

  unfoldable pub store_tail : ℕ → CandidateStore Edge Point → CandidateStore Edge Point
  unfolding restamp
  store_tail n s =
      let cut = length s.layers - n in
      if cut == 0 then s else record { layers = restamp 0 (drop cut s.layers) }

  abbrev pub store_candidate :
      CandidateRef → CandidateStore Edge Point → Option (Candidate Edge Point)
  store_candidate r s = get_elem? s.layers r.layer >>= λ candidates. get_elem? candidates r.node
