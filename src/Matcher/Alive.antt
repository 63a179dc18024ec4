-- ===== src/Matcher/Alive.antt =====
-- `frontier_collapse` against the nodes that paths of present edges reach from the first layer.
use mathlib.Core.List.{Memᴰ}
use mathlib.Core.List.Memᴰ
use native.Mathlib.Numerals.{add-one}
use routers.Common.{
  ℕ, zero, suc, ◌+◌, ◌*◌, ◌≤◌, ◌<◌, ◌≡◌, refl, ◌∙◌, sym, List, [], some, arith, get_elem?,
  get_elem?-some, lt_of_get_elem?,
}
use routers.Trellis.Types.{NodeId, Transition, resolved, pending, max_weight}
use routers.Trellis.Graph.{Trellis, range_from, layer}
use routers.Trellis.Cost.{edge_weight}
use routers.Trellis.Shape.{IsShaped-length}
use routers.Trellis.Valid.{IsValid}
use routers.Matcher.Frontier.{reached_targets, next_frontier}
use routers.Trellis.Types.{inf_w}
use routers.Trellis.Cost.{entry}
use routers.Trellis.Shape.{IsShaped-get_elem?}
use routers.Trellis.Valid.{cell_in_range}
use routers.Matcher.Live.{reached_targets-Kept, range_from-Mem, Mem-range_from}

-- A node that a path of present edges reaches from the first layer.
abbrev pub IsLive : Trellis → ℕ → NodeId → Type 0
IsLive t zero n = (width : ℕ) × (get_elem? t.widths 0 ≡ some width) × (n < width)
IsLive t (suc l) n =
    (width : ℕ) × (get_elem? t.widths (suc l) ≡ some width)
    × (n < width)
    × (s : NodeId) × IsLive t l s
    × (x : ℕ) × (edge_weight t l s n ≡ some x)
    × (x ≤ max_weight)

pub IsLive-lt :
    (t : Trellis) (l : ℕ) (n : NodeId)
    → IsLive t l n
    → (width : ℕ) × (get_elem? t.widths l ≡ some width) × (n < width)
IsLive-lt t zero n h = h
IsLive-lt t (suc l) n h = (h.0, h.1, h.2)

-- The nodes that are live.
pub record IsFrontier (t : Trellis) (l : ℕ) (xs : List NodeId) : Type 0 where
  pub sound : (n : NodeId) → Memᴰ n xs → IsLive t l n
  pub complete : (n : NodeId) → IsLive t l n → Memᴰ n xs

-- Nodes of a layer.
abbrev pub Inside : Trellis → ℕ → List NodeId → Type 0
Inside t l xs =
    (n : NodeId) → Memᴰ n xs → (width : ℕ) × (get_elem? t.widths l ≡ some width) × (n < width)

edge_weight_at :
    (t : Trellis) (l next : ℕ) (x : Transition) (f g : NodeId)
    → get_elem? t.widths (suc l) ≡ some next
    → get_elem? t.transitions l ≡ some x
    → edge_weight t l f g ≡ entry next x f g
unfolding edge_weight
edge_weight_at t l next x f g width_eq transition_eq = rw (add-one, width_eq, transition_eq) refl

-- The frontier past a boundary, from any nodes of its layer.
pub record Passed (t : Trellis) (l width : ℕ) (xs out : List NodeId) : Type 0 where
  pub found : next_frontier t l width xs ≡ some out
  pub below : (n : NodeId) → Memᴰ n out → n < width
  pub from_source :
      (n : NodeId)
      → Memᴰ n out
      → (s : NodeId) × Memᴰ s xs × (x : ℕ) × (edge_weight t l s n ≡ some x) × (x ≤ max_weight)
  pub to_target :
      (n s x : ℕ)
      → n < width
      → Memᴰ s xs
      → edge_weight t l s n ≡ some x
      → x ≤ max_weight
      → Memᴰ n out

next_frontier_pending :
    (t : Trellis) (l width : ℕ) (xs : List NodeId)
    → get_elem? t.transitions l ≡ some pending
    → next_frontier t l width xs ≡ some []
unfolding next_frontier layer
next_frontier_pending t l width xs e = rw (next_frontier, layer, e) refl

next_frontier_resolved :
    (t : Trellis) (l width : ℕ) (xs ws : List ℕ)
    → get_elem? t.transitions l ≡ some (resolved ws)
    → next_frontier t l width xs ≡ reached_targets ws width xs (range_from 0 width)
unfolding next_frontier layer
next_frontier_resolved t l width xs ws e = rw (next_frontier, layer, e) refl

not_real : (x : ℕ) → some inf_w ≡ some x → x ≤ max_weight → ⊥
not_real x e h = absurd (ground arith)

pub next_frontier-Passed :
    (t : Trellis) (l width : ℕ) (xs : List NodeId)
    → IsValid t
    → get_elem? t.widths (suc l) ≡ some width
    → Inside t l xs
    → (out : List NodeId) × Passed t l width xs out
next_frontier-Passed t l width xs v at inside =
    let (x, x_eq) = get_elem?-some t.transitions l (
      omega (
        arith,
        IsShaped-length t.widths t.transitions v.shape,
        lt_of_get_elem? t.widths (suc l) at,
      )) in
    of_transition x x_eq
  where
    of_transition :
        (x : Transition)
        → get_elem? t.transitions l ≡ some x
        → (out : List NodeId) × Passed t l width xs out
    of_transition pending e = (
      [],
      record {
        found = next_frontier_pending t l width xs e;
        below = λ n m. absurd (Memᴰ.not-nil m);
        from_source = λ n m. absurd (Memᴰ.not-nil m);
        to_target = λ n s x h m w real.
            absurd (not_real x (sym (edge_weight_at t l width pending s n at e) ∙ w) real);
      },
    )
    of_transition (resolved ws) e =
        let (out, kept, k) = reached_targets-Kept ws width xs (range_from 0 width) (λ n m s source.
          let (cur, cur_eq, s_lt) = inside s source in
          let fit = IsShaped-get_elem? t.widths t.transitions l v.shape cur_eq at e in
          get_elem?-some ws (s * width + n) (
            omega (
              arith,
              fit.0,
              cell_in_range s n cur width s_lt (omega (arith, (Mem-range_from 0 width n m).1)),
            ))) in
        (
          out,
          record {
            found = next_frontier_resolved t l width xs ws e ∙ kept;
            below = λ n m. omega (arith, (Mem-range_from 0 width n (k.sound n m).0).1);
            from_source = λ n m.
                let (s, source, hit) = (k.sound n m).1 in
                (s, source, hit.0, edge_weight_at t l width (resolved ws) s n at e ∙ hit.1, hit.2);
            to_target = λ n s x h m w real.
                k.complete n (range_from-Mem 0 width n (omega arith) (omega arith))
                  (s, m, (x, sym (edge_weight_at t l width (resolved ws) s n at e) ∙ w, real));
          },
        )
