-- ===== src/Trellis/Valid/Windows.antt =====
-- `fill_nodes`, `partition`, `last` and `new`: the operations on ranges of the flat node buffer.
use routers.Common.{
  ℕ, suc, ◌+◌, ◌-◌, ◌≤◌, ◌<◌, ◌≡◌, refl, ap, ◌∙◌, List, [], ◌∷◌, ◌++◌, some, none, not, arith,
  dec_lt, Option-cases, inl, inr, length, get_elem?, take, drop, All, All-append, All-replicate,
  All-take, All-drop, get_elem?-some, length-append, length-replicate, length-take, length-drop,
  ltb, leb, ◌==◌, le→leb, eq→==, as_u32, as_u32_of_lt, u32_mod, Range, len, slice, write_slice,
}
use routers.Common.Outcome.{ok, err, Safe, Safe-bind, Safe-fail_if, Safe-map}
use routers.Trellis.Types.{LayerId, TrellisError, max_weight}
use routers.Trellis.Graph.{Trellis, sum, layers, new, position_from, node_range}
use routers.Trellis.Edit.{fill_nodes, check_nodes, partition, last}
use routers.Trellis.Shape.{
  IsShaped, IsShaped-length, IsShaped-drop, IsShaped-take, IsShaped-pending_between,
}
use routers.Trellis.Valid.Invariant.{IsValid, IsWidth}
use routers.Trellis.Valid.Slots.{
  sum-take-le, ranges_from-get_elem?, ranges_from-none, sum-take-suc, sum-take-add,
}

-- A slice within the list is what its definition says.
pub slice_within {ℓ} :
    {A : Type ℓ} (xs : List A) (r : Range)
    → r.start ≤ r.stop
    → r.stop ≤ length xs
    → slice xs r ≡ some (take (len r) (drop r.start xs))
unfolding slice
slice_within xs r p q = rw (le→leb r.start r.stop p, le→leb r.stop (length xs) q)

pub write_slice_within {ℓ} :
    {A : Type ℓ} (xs : List A) (r : Range) (ys : List A)
    → r.start ≤ r.stop
    → r.stop ≤ length xs
    → length ys ≡ len r
    → write_slice xs r ys ≡ some (take r.start xs ++ (ys ++ drop r.stop xs))
unfolding write_slice
write_slice_within xs r ys p q e =
    rw (le→leb r.start r.stop p, le→leb r.stop (length xs) q, eq→== (length ys) (len r) e)

-- A layer that exists, with the place of its nodes.
pub record Place (t : Trellis) (l : LayerId) : Type 0 where
  pub range : Range
  pub width : ℕ
  pub width_eq : get_elem? t.widths l ≡ some width
  pub range_eq : node_range t l ≡ ok range
  pub start_eq : range.start ≡ sum (take l t.widths)
  pub stop_eq : range.stop ≡ sum (take (suc l) t.widths)
  pub len_eq : range.stop ≡ range.start + width

pub Place-of_lt : (t : Trellis) (l : LayerId) → l < length t.widths → Place t l
unfolding node_range
Place-of_lt t l h =
    let (w, e) = get_elem?-some t.widths l h in
    let (r, found, from, to) = ranges_from-get_elem? 0 t.widths l e in
    record {
      range = r;
      width = w;
      width_eq = e;
      range_eq = rw found refl;
      start_eq = omega arith;
      stop_eq = omega (arith, sum-take-suc t.widths l e);
      len_eq = to;
    }

pub node_range_out :
    (t : Trellis) (l : LayerId)
    → length t.widths ≤ l
    → node_range t l ≡ err (TrellisError.layer_out_of_range l)
unfolding node_range
node_range_out t l h = rw (ranges_from-none 0 t.widths l h) refl

check_nodes-bound : (ws : List ℕ) → Safe (λ _. All (λ w. w ≤ max_weight) ws) (check_nodes ws)
check_nodes-bound [] = tt
check_nodes-bound (w ∷ ws) =
    Safe-fail_if (λ _. All (λ v. v ≤ max_weight) (w ∷ ws)) (ltb max_weight w) _ _
      λ e.
        Safe-map (λ _. All (λ v. v ≤ max_weight) ws) (λ _. All (λ v. v ≤ max_weight) (w ∷ ws))
          (check_nodes ws) (λ _ h. (ground arith, h)) (check_nodes-bound ws)

-- On a valid trellis `fill_nodes` does not panic, and its result is valid.
pub fill_nodes-Safe :
    (l : LayerId) (weights : List ℕ) (t : Trellis)
    → IsValid t
    → Safe IsValid (fill_nodes l weights t)
unfolding fill_nodes
fill_nodes-Safe l weights t v = elim (dec_lt l (length t.widths)) [
  | no out ↦ rw (node_range_out t l (omega arith)) tt
  | yes inside ↦ inside_case (Place-of_lt t l inside)
]
  where
    inside_case : Place t l → Safe IsValid (fill_nodes l weights t)
    inside_case p =
        let r = p.range in
        let fits : r.stop ≤ length t.nodes =
          omega (arith, p.stop_eq, sum-take-le (suc l) t.widths, v.node_count) in
        rw p.range_eq (
          Safe-fail_if IsValid (not (length weights == len r)) _ _ λ e.
            Safe-bind (λ _. All (λ w. w ≤ max_weight) weights) IsValid (check_nodes weights) _
              (check_nodes-bound weights)
              λ _ _ bound.
                let same : length weights ≡ len r = ground arith in
                rw (write_slice_within t.nodes r weights (omega (arith, p.len_eq)) fits same)
                  (record {
                    has_layer = v.has_layer;
                    widths_ok = v.widths_ok;
                    node_count = omega (
                      arith,
                      length-append (take r.start t.nodes) (weights ++ drop r.stop t.nodes),
                      length-append weights (drop r.stop t.nodes),
                      length-take r.start t.nodes,
                      length-drop r.stop t.nodes,
                      p.len_eq,
                      v.node_count,
                    );
                    nodes_ok =
                        All-append _ (take r.start t.nodes) _
                          (All-take _ r.start t.nodes v.nodes_ok)
                          (All-append _ weights _ bound (All-drop _ r.stop t.nodes v.nodes_ok));
                    shape = v.shape;
                  }))

-- On a valid trellis of fewer than 2^32 layers `partition` does not panic, and its result is valid.
pub partition-Safe :
    (start stop : LayerId) (t : Trellis)
    → stop < u32_mod
    → IsValid t
    → Safe IsValid (partition start stop t)
unfolding partition
partition-Safe start stop t small v = Safe-fail_if IsValid (leb stop start) _ _ λ e1.
    Safe-fail_if IsValid (ltb (layers t) stop) _ _ λ e2.
      let p : Place t start = Place-of_lt t start (ground arith) in
      let q : Place t (stop - 1) = Place-of_lt t (stop - 1) (ground arith) in
      let order : start < stop = ground arith in
      let inside : stop ≤ length t.widths = ground arith in
      let top : suc (stop - 1) ≡ stop = omega arith in
      let to : q.range.stop ≡ sum (take stop t.widths) =
        q.stop_eq ∙ ap (λ n. sum (take n t.widths)) top in
      let split : sum (take start t.widths) + sum (take (stop - start) (drop start t.widths))
          ≡ sum (take stop t.widths) =
        sum-take-add start (stop - start) t.widths
        ∙ ap (λ n. sum (take n t.widths)) (start_stop start stop (omega arith)) in
      let total : sum (take stop t.widths) ≤ sum t.widths = sum-take-le stop t.widths in
      let edges : length t.transitions ≡ length t.widths - 1 =
        IsShaped-length t.widths t.transitions v.shape in
      rw (p.range_eq, as_u32_of_lt stop small, q.range_eq)
        (rw
          (
            slice_within t.widths (record { start = start; stop = stop }) (omega arith) inside,
            slice_within t.nodes (record { start = p.range.start; stop = q.range.stop })
                (omega (arith, p.start_eq)) (omega (arith, v.node_count)),
            slice_within t.transitions (record { start = start; stop = stop - 1 }) (omega arith)
                (omega arith),
          )
          (record {
            has_layer = omega (
              arith,
              length-take (stop - start) (drop start t.widths),
              length-drop start t.widths,
            );
            widths_ok =
                All-take IsWidth (stop - start) _ (All-drop IsWidth start t.widths v.widths_ok);
            node_count = omega (
              arith,
              length-take (q.range.stop - p.range.start) (drop p.range.start t.nodes),
              length-drop p.range.start t.nodes,
              p.start_eq,
              v.node_count,
            );
            nodes_ok =
                All-take _ (q.range.stop - p.range.start) _
                  (All-drop _ p.range.start t.nodes v.nodes_ok);
            shape =
                window_shape (stop - start) (stop - 1 - start) (omega arith)
                  (IsShaped-drop start t.widths t.transitions (omega arith) v.shape);
          }))
  where
    start_stop : (a b : ℕ) → a ≤ b → a + (b - a) ≡ b
    start_stop a b h = omega arith

    window_shape :
        (n k : ℕ)
        → n ≡ suc k
        → IsShaped (drop start t.widths) (drop start t.transitions)
        → IsShaped (take n (drop start t.widths)) (take k (drop start t.transitions))
    window_shape n k e h = rw e (IsShaped-take k (drop start t.widths) (drop start t.transitions) h)

-- On a valid trellis of fewer than 2^32 layers `last` does not panic, and its result is valid.
pub last-Safe :
    (n : ℕ) (t : Trellis) → length t.widths < u32_mod → IsValid t → Safe IsValid (last n t)
unfolding last
last-Safe n t small v =
    rw (as_u32_of_lt (length t.widths) small)
      (partition-Safe (as_u32 (length t.widths - n)) (length t.widths) t small v)

no_zero_width :
    (i : ℕ) (ws : List ℕ) → position_from i (λ x. x == 0) ws ≡ none → All (λ w. 0 < w) ws
unfolding position_from
no_zero_width i [] h = tt
no_zero_width i (w ∷ ws) h = (ground arith, no_zero_width (suc i) ws (ground arith))

-- `new` does not panic, and what it returns is valid, if the widths are `u32`s whose sum is one too.
pub new-Safe : (ws : List ℕ) → All (λ w. w < u32_mod) ws → sum ws < u32_mod → Safe IsValid (new ws)
unfolding new
new-Safe [] small total = tt
new-Safe (w ∷ ws) small total = elim (Option-cases (position_from 0 (λ x. x == 0) (w ∷ ws))) [
  | inr (l, e) ↦ rw (e, new) tt
  | inl e ↦
      rw (e, new)
        (record {
          has_layer = omega arith;
          widths_ok = both (w ∷ ws) (no_zero_width 0 (w ∷ ws) e) small;
          node_count =
              length-replicate (as_u32 (sum (w ∷ ws))) 0 ∙ as_u32_of_lt (sum (w ∷ ws)) total;
          nodes_ok = All-replicate (λ n. n ≤ max_weight) (as_u32 (sum (w ∷ ws))) 0 (omega arith);
          shape = IsShaped-pending_between (w ∷ ws);
        })
]
  where
    both : (xs : List ℕ) → All (λ n. 0 < n) xs → All (λ n. n < u32_mod) xs → All IsWidth xs
    both [] h k = tt
    both (x ∷ xs) h k = ((h.0, k.0), both xs h.1 k.1)
