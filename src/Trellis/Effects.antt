-- ===== src/Trellis/Effects.antt =====
-- What the operations of libs/routers_trellis/src/trellis.rs return where they succeed.
use routers.Common.{
  ℕ, zero, suc, ◌+◌, ◌-◌, ◌≤◌, ◌<◌, ◌≡◌, refl, ap, ap₂, ◌∙◌, sym, List, [], ◌∷◌, ◌++◌, some, arith,
  false, length, get_elem?, take, drop, replicate, u32_mod, as_u32, as_u32_of_lt, len,
  lt_of_get_elem?, length-drop, eq→==, le→ltb, leb, ◌==◌,
}
use native.Mathlib.Numerals.{add-one}
use routers.Common.{◌*◌, map, set, get_elem?-some}
use mathlib.Core.Option.{some-injective}
use routers.Common.Outcome.{ok, err}
use routers.Trellis.Types.{LayerId, TrellisError, pending, resolved}
use routers.Trellis.Graph.{Trellis, sum, new, position_from, pending_between}
use routers.Trellis.Edit.{
  add_layer, fill_nodes, check_nodes, partition, last, fill_transition, check_rows, stored_weight,
}
use routers.Trellis.Shape.{IsShaped-length}
use routers.Trellis.Valid.{IsValid, Place, Place-of_lt, slice_within, write_slice_within}
use routers.Trellis.Valid.Slots.{sum-take-le, sum-take-add}

pub positive : (n : ℕ) → 0 < n → (n == 0) ≡ false
positive n p = ground arith

-- A trellis with one more layer.
abbrev pub grown : ℕ → Trellis → Trellis
grown width t = record {
  widths = t.widths ++ (width ∷ []);
  nodes = t.nodes ++ replicate width 0;
  transitions = t.transitions ++ (pending ∷ []);
}

-- A layer that is not empty is added at the end.
pub add_layer_lem :
    (width : ℕ) (t : Trellis)
    → 0 < width
    → add_layer width t ≡ ok (grown width t, as_u32 (length t.widths))
unfolding add_layer
add_layer_lem width t h = rw (positive width h) refl

pub add_layer_empty :
    (t : Trellis) → add_layer 0 t ≡ err (TrellisError.zero_width_layer (as_u32 (length t.widths)))
unfolding add_layer
add_layer_empty t = refl

-- The trellis of one layer.
abbrev pub single : ℕ → Trellis
single width = record {
  widths = width ∷ [];
  nodes = replicate (as_u32 (sum (width ∷ []))) 0;
  transitions = [];
}

pub new_lem : (width : ℕ) → 0 < width → new (width ∷ []) ≡ ok (single width)
unfolding new position_from pending_between
new_lem width h = rw (positive width h, new, position_from) refl

pub new_empty : new (0 ∷ []) ≡ err (TrellisError.zero_width_layer (as_u32 0))
unfolding new position_from
new_empty = refl

-- Weights that fit are written where the layer stands, and the widths stay.
pub fill_nodes_lem :
    (l : LayerId) (weights : List ℕ) (t : Trellis)
    → IsValid t
    → get_elem? t.widths l ≡ some (length weights)
    → check_nodes weights ≡ ok tt
    → (nodes : List ℕ) × (fill_nodes l weights t ≡ ok (record t { nodes = nodes }))
      × (nodes
          ≡ take (sum (take l t.widths)) t.nodes
            ++ (weights ++ drop (sum (take (suc l) t.widths)) t.nodes))
unfolding fill_nodes
fill_nodes_lem l weights t v e small =
    let p : Place t l = Place-of_lt t l (lt_of_get_elem? t.widths l e) in
    let r = p.range in
    let same : p.width ≡ length weights =
      some-injective p.width (length weights) (sym p.width_eq ∙ e) in
    let fits : r.stop ≤ length t.nodes =
      omega (arith, p.stop_eq, sum-take-le (suc l) t.widths, v.node_count) in
    let size : length weights ≡ len r = omega (arith, p.len_eq, same) in
    (
      take r.start t.nodes ++ (weights ++ drop r.stop t.nodes),
      rw
          (
            p.range_eq,
            eq→== (length weights) (len r) size,
            small,
            write_slice_within t.nodes r weights (omega (arith, p.len_eq)) fits size,
          )
          refl,
      ap₂ (λ a b. take a t.nodes ++ (weights ++ drop b t.nodes)) p.start_eq p.stop_eq,
    )

pub not_le : (a b : ℕ) → b < a → leb a b ≡ false
not_le a b h = ground arith

rejoin : (a b : ℕ) → a < b → a + (b - a) ≡ suc (b - 1)
rejoin a b h = omega arith

top_eq : (a b : ℕ) → a < b → suc (b - 1) ≡ b
top_eq a b h = omega arith

-- On a valid trellis `partition` of a range that is not empty and ends within the trellis and below 2^32
-- returns the widths of the layers in the range, their nodes' weights, and the transitions between
-- them.
pub partition_lem :
    (start stop : LayerId) (t : Trellis)
    → IsValid t
    → start < stop
    → stop ≤ length t.widths
    → stop < u32_mod
    → (u : Trellis) × (partition start stop t ≡ ok u)
      × (u.widths ≡ take (stop - start) (drop start t.widths))
      × (u.nodes
          ≡ take
              (sum (take stop t.widths) - sum (take start t.widths))
              (drop (sum (take start t.widths)) t.nodes))
      × (u.transitions ≡ take (stop - 1 - start) (drop start t.transitions))
unfolding partition
partition_lem start stop t v order inside small =
    let p : Place t start = Place-of_lt t start (omega arith) in
    let q : Place t (stop - 1) = Place-of_lt t (stop - 1) (omega arith) in
    let fits : q.range.stop ≤ length t.nodes =
      omega (arith, q.stop_eq, sum-take-le (suc (stop - 1)) t.widths, v.node_count) in
    let edges : length t.transitions ≡ length t.widths - 1 =
      IsShaped-length t.widths t.transitions v.shape in
    let ordered : p.range.start ≤ q.range.stop = omega (
      arith,
      p.start_eq,
      q.stop_eq,
      sum-take-add start (stop - start) t.widths
          ∙ ap (λ n. sum (take n t.widths)) (rejoin start stop order),
    ) in
    (
      record {
        widths = take (stop - start) (drop start t.widths);
        nodes = take (q.range.stop - p.range.start) (drop p.range.start t.nodes);
        transitions = take (stop - 1 - start) (drop start t.transitions);
      },
      rw
          (
            not_le stop start order,
            le→ltb (length t.widths) stop inside,
            p.range_eq,
            as_u32_of_lt stop small,
            q.range_eq,
          )
          (rw
            (
              slice_within t.widths (record { start = start; stop = stop }) (omega arith) inside,
              slice_within t.nodes (record { start = p.range.start; stop = q.range.stop }) ordered
                  fits,
              slice_within t.transitions (record { start = start; stop = stop - 1 }) (omega arith)
                  (omega (arith, edges)),
            )
            refl),
      refl,
      ap₂ (λ b a. take (b - a) (drop a t.nodes))
          (q.stop_eq ∙ ap (λ n. sum (take n t.widths)) (top_eq start stop order)) p.start_eq,
      refl,
    )

take_all {ℓ} : {A : Type ℓ} (n : ℕ) (xs : List A) → length xs ≤ n → take n xs ≡ xs
take_all zero [] h = refl
take_all zero (x ∷ xs) h = absurd (omega arith)
take_all (suc n) [] h = refl
take_all (suc n) (x ∷ xs) h = ap (λ ys. x ∷ ys) (take_all n xs (omega arith))

-- The last `n` layers of more than `n`: their widths are the last ones.
pub last_lem :
    (n : ℕ) (t : Trellis)
    → IsValid t
    → 0 < n
    → n < length t.widths
    → length t.widths < u32_mod
    → (u : Trellis) × (last n t ≡ ok u) × (u.widths ≡ drop (length t.widths - n) t.widths)
unfolding last
last_lem n t v some_layer proper small =
    let cut = length t.widths - n in
    let (u, found, widths_eq, _, _) =
      partition_lem cut (length t.widths) t v (omega arith) (omega arith) small in
    (
      u,
      rw (as_u32_of_lt (length t.widths) small, as_u32_of_lt (length t.widths - n) (omega arith))
          found,
      widths_eq
          ∙ take_all (length t.widths - cut) (drop cut t.widths)
              (omega (arith, length-drop cut t.widths)),
    )

-- Rows that fit and pass the checks resolve the boundary, and nothing else changes.
pub fill_transition_lem :
    (l : LayerId) (rows : List ℕ) (t : Trellis) (cur next : ℕ)
    → IsValid t
    → get_elem? t.widths l ≡ some cur
    → get_elem? t.widths (suc l) ≡ some next
    → length rows ≡ cur * next
    → check_rows rows ≡ ok tt
    → fill_transition l rows t
      ≡ ok (record t { transitions = set t.transitions l (resolved (map stored_weight rows)) })
unfolding fill_transition
fill_transition_lem l rows t cur next v cur_eq next_eq size small =
    let (x, x_eq) = get_elem?-some t.transitions l (
      omega (
        arith,
        IsShaped-length t.widths t.transitions v.shape,
        lt_of_get_elem? t.widths (suc l) next_eq,
      )) in
    rw
      (
        not_le (length t.widths) (l + 1) (omega (arith, lt_of_get_elem? t.widths (suc l) next_eq)),
        cur_eq,
        add-one,
        next_eq,
      )
      (rw (eq→== (length rows) (cur * next) size, small, x_eq) refl)
