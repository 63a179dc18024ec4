-- ===== src/Trellis/Valid/Written.antt =====
-- What `set_edge` writes, read back by `edge_weight`.
use native.Mathlib.Numerals.{add-one}
use routers.Common.{
  ℕ, zero, suc, ◌+◌, ◌*◌, ◌≤◌, ◌<◌, ◌≡◌, ◌≢◌, refl, ap, ◌∙◌, sym, List, some, arith, length,
  get_elem?, set, replicate, get_elem?-some, lt_of_get_elem?, get_elem?-set_self, get_elem?-set_ne,
  leb, le→ltb, lt→ltb, ◌⊎◌, inl, inr, false, length-replicate,
}
use routers.Common.Outcome.{ok}
use routers.Trellis.Types.{
  LayerId, NodeId, Transition, pending, resolved, ensure_resolved, inf_w, max_weight,
}
use routers.Trellis.Graph.{Trellis}
use routers.Trellis.Edit.{set_edge}
use routers.Trellis.Cost.{entry, edge_weight}
use routers.Trellis.Shape.{Fits, IsShaped-length, IsShaped-get_elem?}
use routers.Trellis.Valid.Invariant.{IsValid}
use routers.Trellis.Valid.Keeps.{cell_in_range}

pub get_elem?-replicate : (n i : ℕ) (a : ℕ) → i < n → get_elem? (replicate n a) i ≡ some a
get_elem?-replicate zero i a h = absurd (omega arith)
get_elem?-replicate (suc n) zero a h = refl
get_elem?-replicate (suc n) (suc i) a h = get_elem?-replicate n i a (omega arith)

pub suc_row : (a width : ℕ) → suc a * width ≡ width + a * width
suc_row a width = grind arith

pub zero_row : (width : ℕ) → 0 * width ≡ 0
zero_row width = grind arith

-- A cell of a table determines its row and its column.
pub cell_injective :
    (width a b c d : ℕ) → b < width → d < width → a * width + b ≡ c * width + d → (a ≡ c) × (b ≡ d)
cell_injective width zero b zero d p q e = (refl, omega (arith, zero_row width))
cell_injective width zero b (suc c) d p q e =
    absurd (omega (arith, zero_row width, suc_row c width))
cell_injective width (suc a) b zero d p q e =
    absurd (omega (arith, zero_row width, suc_row a width))
cell_injective width (suc a) b (suc c) d p q e =
    let (row, column) =
      cell_injective width a b c d p q (omega (arith, suc_row a width, suc_row c width)) in
    (ap suc row, column)

-- The weights that are there before a write: those of the transition, or the infinity everywhere.
entry-ensure_resolved :
    (cur next from to : ℕ) (x : Transition)
    → from < cur
    → to < next
    → Fits (cur * next) x
    → (ws : List ℕ) × (ensure_resolved (cur * next) x ≡ resolved ws)
      × (length ws ≡ cur * next)
      × ((f g : ℕ) → f < cur → g < next → entry next x f g ≡ get_elem? ws (f * next + g))
entry-ensure_resolved cur next from to pending p q fit = (
  replicate (cur * next) inf_w,
  refl,
  length-replicate {A = ℕ} (cur * next) inf_w,
  λ f g p' q'.
      sym
        (get_elem?-replicate (cur * next) (f * next + g) inf_w (cell_in_range f g cur next p' q')),
)
entry-ensure_resolved cur next from to (resolved ws) p q fit = (ws, refl, fit.0, λ f g _ _. refl)

not_le : (a b : ℕ) → b < a → leb a b ≡ false
not_le a b h = ground arith

-- The entry of a boundary, by its widths and its transition.
edge_weight_at :
    (t : Trellis) (l next : ℕ) (x : Transition) (f g : NodeId)
    → get_elem? t.widths (suc l) ≡ some next
    → get_elem? t.transitions l ≡ some x
    → edge_weight t l f g ≡ entry next x f g
unfolding edge_weight
edge_weight_at t l next x f g width_eq transition_eq = rw (add-one, width_eq, transition_eq) refl

-- On a valid trellis `set_edge` with a weight and places in range returns a trellis whose edge has the
-- weight, and whose other edges of the boundary weigh what they did.
pub edge_weight-set_edge :
    (l : LayerId) (from to : NodeId) (weight cur next : ℕ) (t : Trellis)
    → IsValid t
    → weight ≤ max_weight
    → get_elem? t.widths l ≡ some cur
    → get_elem? t.widths (suc l) ≡ some next
    → from < cur
    → to < next
    → (u : Trellis) × (set_edge l from to weight t ≡ ok u)
      × (edge_weight u l from to ≡ some weight)
      × ((f g : NodeId)
          → f < cur
          → g < next
          → (f ≢ from) ⊎ (g ≢ to)
          → edge_weight u l f g ≡ edge_weight t l f g)
unfolding set_edge
edge_weight-set_edge l from to weight cur next t v small cur_eq next_eq p q =
    let (x, x_eq) = get_elem?-some t.transitions l (
      omega (
        arith,
        IsShaped-length t.widths t.transitions v.shape,
        lt_of_get_elem? t.widths (suc l) next_eq,
      )) in
    let (ws, ready, size, before) =
      entry-ensure_resolved cur next from to x p q
        (IsShaped-get_elem? t.widths t.transitions l v.shape cur_eq next_eq x_eq) in
    let i = from * next + to in
    let inside : i < length ws = omega (arith, size, cell_in_range from to cur next p q) in
    let u : Trellis = record t { transitions = set t.transitions l (resolved (set ws i weight)) } in
    let there : get_elem? u.transitions l ≡ some (resolved (set ws i weight)) =
      get_elem?-set_self t.transitions l (resolved (set ws i weight))
        (lt_of_get_elem? t.transitions l x_eq) in
    (
      u,
      rw
          (
            le→ltb max_weight weight small,
            not_le (length t.widths) (l + 1)
                (omega (arith, lt_of_get_elem? t.widths (suc l) next_eq)),
            cur_eq,
            add-one,
            next_eq,
          )
          (rw (not_le cur from p, not_le next to q, x_eq, ready, lt→ltb i (length ws) inside) refl),
      edge_weight_at u l next _ from to next_eq there ∙ get_elem?-set_self ws i weight inside,
      λ f g p' q' other.
          edge_weight_at u l next _ f g next_eq there
          ∙ get_elem?-set_ne ws i (f * next + g) weight (apart from to f g other q q')
          ∙ sym (before f g p' q')
          ∙ sym (edge_weight_at t l next x f g next_eq x_eq),
    )
  where
    apart : (a b c d : ℕ) → (c ≢ a) ⊎ (d ≢ b) → b < next → d < next → a * next + b ≢ c * next + d
    apart a b c d (inl h) r s e = h (sym (cell_injective next a b c d r s e).0)
    apart a b c d (inr h) r s e = h (sym (cell_injective next a b c d r s e).1)
