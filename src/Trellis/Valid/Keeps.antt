-- ===== src/Trellis/Valid/Keeps.antt =====
-- The operations that change a trellis in place.
use native.Mathlib.Numerals.{add-one}
use routers.Common.{
  ℕ, suc, ◌+◌, ◌*◌, ◌≤◌, ◌<◌, ◌≡◌, refl, List, [], ◌∷◌, some, not, arith, map, length, get_elem?,
  set, replicate, All, All-set, All-append, All-replicate, get_elem?-some, length-append,
  length-replicate, length-map, ltb, leb, ◌==◌, lt→ltb, length-set, ◌&&◌, u32_mod,
}
use routers.Common.Outcome.{ok, Safe, Safe-bind, Safe-fail_if, Safe-map}
use routers.Trellis.Types.{
  LayerId, NodeId, Transition, pending, resolved, ensure_resolved, inf_w, max_weight, no_edge,
}
use routers.Trellis.Graph.{Trellis}
use routers.Trellis.Edit.{
  mark_pending, set_edge, write_weight, add_layer, fill_transition, check_rows, stored_weight,
}
use routers.Trellis.Shape.{
  Fits, IsShaped-length, IsShaped-get_elem?, IsShaped-set, IsShaped-append, Fits-replicate,
}
use routers.Trellis.Valid.Invariant.{IsValid, IsWidth}
use routers.Trellis.Valid.Slots.{sum-append}

-- A boundary in range has both its layers.
record HasSlot (t : Trellis) (i : ℕ) : Type 0 where
  cur : ℕ
  next : ℕ
  transition : Transition
  cur_eq : get_elem? t.widths i ≡ some cur
  next_eq : get_elem? t.widths (suc i) ≡ some next
  transition_eq : get_elem? t.transitions i ≡ some transition
  fits : Fits (cur * next) transition

IsValid-HasSlot : (t : Trellis) (i : ℕ) → IsValid t → suc i < length t.widths → HasSlot t i
IsValid-HasSlot t i v h =
    let (c, ce) = get_elem?-some t.widths i (omega arith) in
    let (n, ne) = get_elem?-some t.widths (suc i) h in
    let (x, xe) =
      get_elem?-some t.transitions i
        (omega (arith, IsShaped-length t.widths t.transitions v.shape)) in
    record {
      cur = c;
      next = n;
      transition = x;
      cur_eq = ce;
      next_eq = ne;
      transition_eq = xe;
      fits = IsShaped-get_elem? t.widths t.transitions i v.shape ce ne xe;
    }

put-IsValid :
    (t : Trellis) (i : ℕ) (x : Transition) (s : HasSlot t i)
    → IsValid t
    → Fits (s.cur * s.next) x
    → IsValid (record t { transitions = set t.transitions i x })
put-IsValid t i x s v f = record {
  has_layer = v.has_layer;
  widths_ok = v.widths_ok;
  node_count = v.node_count;
  nodes_ok = v.nodes_ok;
  shape = IsShaped-set t.widths t.transitions i x v.shape s.cur_eq s.next_eq f;
}

-- On a valid trellis `mark_pending` does not panic, and its result is valid.
pub mark_pending-Safe : (l : LayerId) (t : Trellis) → IsValid t → Safe IsValid (mark_pending l t)
unfolding mark_pending
mark_pending-Safe l t v = Safe-fail_if IsValid (leb (length t.transitions) l) _ _ λ e.
    let e' : l < length t.transitions = ground arith in
    put-IsValid t l pending
      (IsValid-HasSlot t l v (omega (arith, IsShaped-length t.widths t.transitions v.shape))) v tt

ensure_resolved-Fits :
    (n : ℕ) (x : Transition)
    → Fits n x
    → (ws : List ℕ) × (ensure_resolved n x ≡ resolved ws) × Fits n (resolved ws)
ensure_resolved-Fits n pending f = (replicate n inf_w, refl, Fits-replicate n)
ensure_resolved-Fits n (resolved ws) f = (ws, refl, f)

write_weight-Fits :
    (n i weight : ℕ) (x : Transition)
    → i < n
    → weight ≤ inf_w
    → Fits n x
    → (y : Transition) × (write_weight i weight (ensure_resolved n x) ≡ ok y) × Fits n y
write_weight-Fits n i weight x h k f =
    let (ws, e, g) = ensure_resolved-Fits n x f in
    (
      resolved (set ws i weight),
      rw (e, lt→ltb i (length ws) (omega arith)) refl,
      (omega (arith, length-set ws i weight, g.0), All-set (λ w. w ≤ inf_w) ws i weight g.1 k),
    )

pub cell_in_range : (from to cur next : ℕ) → from < cur → to < next → from * next + to < cur * next
cell_in_range from to cur next p q = grind arith

-- On a valid trellis `set_edge` does not panic, and its result is valid.
pub set_edge-Safe :
    (l : LayerId) (from to : NodeId) (weight : ℕ) (t : Trellis)
    → IsValid t
    → Safe IsValid (set_edge l from to weight t)
unfolding set_edge
set_edge-Safe l from to weight t v = Safe-fail_if IsValid (ltb max_weight weight) _ _ λ e1.
    Safe-fail_if IsValid (leb (length t.widths) (l + 1)) _ _ λ e2.
      let s : HasSlot t l = IsValid-HasSlot t l v (ground arith) in
      rw (s.cur_eq, add-one, s.next_eq)
        (Safe-fail_if IsValid (leb s.cur from) _ _ λ e3.
          Safe-fail_if IsValid (leb s.next to) _ _ λ e4.
            let (y, written, f) =
              write_weight-Fits (s.cur * s.next) (from * s.next + to) weight s.transition
                (cell_in_range from to s.cur s.next (ground arith) (ground arith)) (ground arith)
                s.fits in
            rw (s.transition_eq, written) (put-IsValid t l y s v f))

-- On a valid trellis `add_layer` does not panic, and its result is valid.
pub add_layer-Safe :
    (width : ℕ) (t : Trellis)
    → width < u32_mod
    → IsValid t
    → Safe (λ r. IsValid r.0) (add_layer width t)
unfolding add_layer
add_layer-Safe width t h v =
    Safe-fail_if (λ (r : Trellis × LayerId). IsValid r.0) (width == 0) _ _
      λ e. record {
        has_layer = omega (arith, length-append t.widths (width ∷ []));
        widths_ok = All-append IsWidth t.widths (width ∷ []) v.widths_ok ((ground arith, h), tt);
        node_count = omega (
          arith,
          length-append t.nodes (replicate width 0),
          length-replicate {A = ℕ} width 0,
          sum-append t.widths (width ∷ []),
          v.node_count,
        );
        nodes_ok =
            All-append (λ w. w ≤ max_weight) t.nodes (replicate width 0) v.nodes_ok
              (All-replicate (λ w. w ≤ max_weight) width 0 (omega arith));
        shape = IsShaped-append t.widths t.transitions width v.has_layer v.shape;
      }

-- The rows that pass the loop are stored with weights up to the infinity.
check_rows-stored :
    (rows : List ℕ) → Safe (λ _. All (λ w. w ≤ inf_w) (map stored_weight rows)) (check_rows rows)
check_rows-stored [] = tt
check_rows-stored (w ∷ ws) =
    Safe-fail_if (λ _. All (λ v. v ≤ inf_w) (map stored_weight (w ∷ ws)))
      (not (w == no_edge) && ltb max_weight w) _ _
      λ e.
        Safe-map (λ _. All (λ v. v ≤ inf_w) (map stored_weight ws))
          (λ _. All (λ v. v ≤ inf_w) (map stored_weight (w ∷ ws))) (check_rows ws)
          (λ _ h. (ground arith, h)) (check_rows-stored ws)

-- On a valid trellis `fill_transition` does not panic, and its result is valid.
pub fill_transition-Safe :
    (l : LayerId) (rows : List ℕ) (t : Trellis)
    → IsValid t
    → Safe IsValid (fill_transition l rows t)
unfolding fill_transition
fill_transition-Safe l rows t v = Safe-fail_if IsValid (leb (length t.widths) (l + 1)) _ _ λ e1.
    let s : HasSlot t l = IsValid-HasSlot t l v (ground arith) in
    rw (s.cur_eq, add-one, s.next_eq)
      (Safe-fail_if IsValid (not (length rows == s.cur * s.next)) _ _ λ e2.
        Safe-bind (λ _. All (λ w. w ≤ inf_w) (map stored_weight rows)) IsValid (check_rows rows) _
          (check_rows-stored rows)
          λ _ _ stored. rw s.transition_eq (
            put-IsValid t l (resolved (map stored_weight rows)) s v
              (ground (arith, length-map stored_weight rows), stored)))
