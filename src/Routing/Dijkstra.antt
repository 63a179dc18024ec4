-- ===== src/Routing/Dijkstra.antt =====
-- libs/routers_transition/src/primitives/algorithms/dijkstra.rs: the iterator over the nodes that can be
-- reached. The index map is the list of its entries in the order of insertion; the binary heap is a
-- parameter, with what it promises of `pop`.
use mathlib.Core.List.{Memᴰ}
use mathlib.Core.Option
use routers.Common.{
  ℕ, zero, suc, ◌-◌, ◌^◌, ◌≤◌, ◌≡◌, ◌⊎◌, List, [], ◌∷◌, ◌++◌, Option, none, some, Bool, true, false,
  ◌||◌, length, get_elem?, set, if◌then◌else◌, ◌==◌,
}
use routers.Routing.Cost.{WeightAndDistance, repr, add_cost, zero_cost, cost_lt}

pub record SmallestHolder : Type 0 where
  pub cost : WeightAndDistance
  pub index : ℕ

-- `BinaryHeap::pop`: an item of least cost, and the others.
pub record Heap : Type 0 where
  pub pop : List SmallestHolder → Option (SmallestHolder × List SmallestHolder)
  pub pop_none : (h : List SmallestHolder) → pop h ≡ none → h ≡ []
  pub pop_length :
      (h rest : List SmallestHolder) (x : SmallestHolder)
      → pop h ≡ some (x, rest)
      → length h ≡ suc (length rest)
  pub pop_from :
      (h rest : List SmallestHolder) (x y : SmallestHolder)
      → pop h ≡ some (x, rest)
      → (y ≡ x) ⊎ Memᴰ y rest
      → Memᴰ y h
  pub pop_to :
      (h rest : List SmallestHolder) (x y : SmallestHolder)
      → pop h ≡ some (x, rest)
      → Memᴰ y h
      → (y ≡ x) ⊎ Memᴰ y rest
  pub pop_least :
      (h rest : List SmallestHolder) (x y : SmallestHolder)
      → pop h ≡ some (x, rest)
      → Memᴰ y rest
      → repr x.cost ≤ repr y.cost

-- An entry of the index map: the node, the index of its parent and its cost.
pub record Visited (E : Type 0) : Type 0 where
  pub node : E
  pub parent_index : ℕ
  pub cost : WeightAndDistance

pub record DijkstraReachable (E : Type 0) : Type 0 where
  pub to_see : List SmallestHolder
  pub seen : List ℕ
  pub parents : List (Visited E)

pub record DijkstraReachableItem (E : Type 0) : Type 0 where
  pub node : E
  pub parent : Option E
  pub total_cost : WeightAndDistance

-- What `next` does: an item, the end, or a panic; the loop runs on fuel.
pub data Next (E : Type 0) : Type 0 where
  item : DijkstraReachableItem E → DijkstraReachable E → Next E
  ended : DijkstraReachable E → Next E
  panicked : Next E
  out_of_fuel : Next E

-- `seen.contains(..)`
abbrev pub is_seen : ℕ → List ℕ → Bool
is_seen i [] = false
is_seen i (j ∷ js) = (i == j) || is_seen i js

module _ {E : Type 0} (same : E → E → Bool) where
  -- The index and the entry of a key, from an index on.
  unfoldable pub find_entry : ℕ → E → List (Visited E) → Option (ℕ × Visited E)
  find_entry i key [] = none
  find_entry i key (v ∷ vs) =
      let rest = find_entry (suc i) key vs in if same v.node key then some (i, v) else rest

  -- One successor of the node at `index`.
  unfoldable pub relax_successor :
      ℕ → WeightAndDistance → E × WeightAndDistance → DijkstraReachable E → DijkstraReachable E
  unfolding find_entry
  relax_successor index cost (successor, move_cost) st =
      let new_cost = add_cost cost move_cost in
      elim (find_entry 0 successor st.parents) [
        | none ↦ record st {
          parents =
              st.parents
              ++ (record { node = successor; parent_index = index; cost = new_cost } ∷ []);
          to_see = record { cost = new_cost; index = length st.parents } ∷ st.to_see;
        }
        | some (i, old) ↦
            if cost_lt new_cost old.cost
            then record st {
              parents = set st.parents i (record old { parent_index = index; cost = new_cost });
              to_see = record { cost = new_cost; index = i } ∷ st.to_see;
            }
            else st
      ]

  unfoldable pub relax_successors :
      ℕ
      → WeightAndDistance
      → List (E × WeightAndDistance)
      → DijkstraReachable E
      → DijkstraReachable E
  unfolding relax_successor
  relax_successors index cost [] st = st
  relax_successors index cost (s ∷ ss) st =
      relax_successors index cost ss (relax_successor index cost s st)

  module _ (heap : Heap) (successors : E → List (E × WeightAndDistance)) where
    -- What follows a pop of a node that was not seen.
    unfoldable pub visit : SmallestHolder → DijkstraReachable E → Next E
    unfolding relax_successors
    visit x st = elim (get_elem? st.parents x.index) [
      | none ↦ panicked
      | some v ↦
          item
            (record {
              node = v.node;
              parent = Option.map (λ (p : Visited E). p.node) (get_elem? st.parents v.parent_index);
              total_cost = v.cost;
            })
            (relax_successors x.index x.cost (successors v.node)
              (record st { seen = x.index ∷ st.seen }))
    ]

    unfoldable pub next_from : ℕ → DijkstraReachable E → Next E
    unfolding visit
    next_from zero st = out_of_fuel
    next_from (suc fuel) st = elim (heap.pop st.to_see) [
      | none ↦ ended st
      | some (x, rest) ↦ elim (is_seen x.index st.seen) [
        | true ↦ next_from fuel (record st { to_see = rest })
        | false ↦ visit x (record st { to_see = rest })
      ]
    ]

    -- Each round of the loop pops.
    unfoldable pub next : DijkstraReachable E → Next E
    unfolding next_from
    next st = next_from (suc (length st.to_see)) st

-- `Dijkstra::reach`: the parent of the start is `usize::MAX`.
abbrev pub reach : {E : Type 0} → E → DijkstraReachable E
reach start = record {
  to_see = record { cost = zero_cost; index = 0 } ∷ [];
  seen = [];
  parents = record { node = start; parent_index = 2 ^ 64 - 1; cost = zero_cost } ∷ [];
}
