-- ===== src/Matcher/Rows.antt =====
-- The rows that a weigher writes, and the matrix of a boundary.
use mathlib.Core.Option
use mathlib.Core.Option.{some-injective}
use routers.Common.{
  ℕ, suc, ◌+◌, ◌*◌, ◌≤◌, ◌<◌, ◌≡◌, ◌≢◌, refl, ap, ap₂, ◌∙◌, sym, List, [], ◌∷◌, ◌++◌, Option, none,
  some, Bool, true, false, ◌||◌, min, All, All-append, All-set, All-replicate, arith, ◌⊎◌, inl, inr,
  length, get_elem?, get_elem?-some, get_elem?-set_self, get_elem?-set_ne, lt_of_get_elem?,
  replicate, if◌then◌else◌, ◌==◌, length-set, length-append, length-replicate, eq→==, ℕ_discrete,
}
use routers.Common.Maybe.{◌>>=◌, >>=-eq-some}
use routers.Common.Outcome.{ok}
use routers.Trellis.Types.{NodeId, no_edge, max_weight}
use routers.Trellis.Edit.{check_rows}
use routers.Trellis.Valid.Written.{get_elem?-replicate}
use routers.Trip.Store.{CandidateRef, Candidate, CandidateStore}
use routers.Matcher.Weigh.{Weigher, place, hop, write_hops, weigh_source, weigh_rows}

-- A weight that a boundary may be filled with: a real one or the sentinel.
abbrev pub IsCell : ℕ → Type 0
IsCell x = (x ≡ no_edge) ⊎ (x ≤ max_weight)

pub check_rows-IsCell : (xs : List ℕ) → All IsCell xs → check_rows xs ≡ ok tt
check_rows-IsCell [] h = refl
check_rows-IsCell (x ∷ xs) (inl e, rest) = ground (arith, check_rows-IsCell xs rest)
check_rows-IsCell (x ∷ xs) (inr h, rest) = ground (arith, check_rows-IsCell xs rest)

-- Whether a position is selected.
abbrev pub selected : NodeId → List NodeId → Bool
selected j [] = false
selected j (n ∷ ns) = (n == j) || selected j ns

-- The cell of a hop.
abbrev pub cell_of : Option ℕ → ℕ
cell_of none = no_edge
cell_of (some cost) = cost

ne→== : (a b : ℕ) → a ≢ b → (a == b) ≡ false
ne→== a b h = ground arith

lift_if :
    (b : Bool) (x : ℕ) {o : Option ℕ}
    → o ≡ some no_edge
    → (if b then some x else o) ≡ some (if b then x else no_edge)
lift_if true x e = refl
lift_if false x e = e

module _ {Edge Point Reachable : Type 0} (w : Weigher Edge Point Reachable)
    (s : CandidateStore Edge Point) where
  length-place : (n : NodeId) (o : Option ℕ) (row : List ℕ) → length (place n o row) ≡ length row
  length-place n none row = refl
  length-place n (some cost) row = length-set row n cost

  hop-IsCell :
      (from to : CandidateRef) (n : NodeId) (row : List ℕ)
      → All IsCell row
      → All IsCell (place n (hop w s from to) row)
  hop-IsCell from to n row h = of_reach (w.reach s from to)
    where
      of_cost :
          (o : Option ℕ) → All IsCell (place n (Option.map (λ cost. min cost max_weight) o) row)
      of_cost none = h
      of_cost (some cost) = All-set IsCell row n (min cost max_weight) h (inr (omega arith))

      of_reach :
          (o : Option Reachable)
          → All IsCell
              (place n (o >>= λ r. Option.map (λ cost. min cost max_weight) (w.cost s r)) row)
      of_reach none = h
      of_reach (some r) = of_cost (w.cost s r)

  -- The loop ends, with a row of the same length and of weights that a boundary may be filled with.
  write_hops-IsCell :
      (source : Candidate Edge Point) (to_layer : List (Candidate Edge Point)) (ns : List NodeId)
      (row : List ℕ)
      → All (λ n. n < length to_layer) ns
      → All IsCell row
      → (out : List ℕ) × (write_hops w s source to_layer ns row ≡ some out)
        × (length out ≡ length row)
        × All IsCell out
  unfolding write_hops
  write_hops-IsCell source to_layer [] row inside h = (row, refl, refl, h)
  write_hops-IsCell source to_layer (n ∷ ns) row (here, rest) h =
      let (target, found) = get_elem?-some to_layer n here in
      let next = place n (hop w s source.location target.location) row in
      let (out, written, size, cells) =
        write_hops-IsCell source to_layer ns next rest
          (hop-IsCell source.location target.location n row h) in
      (
        out,
        rw found written,
        size ∙ length-place n (hop w s source.location target.location) row,
        cells,
      )

  pub weigh_source-IsCell :
      (source : Candidate Edge Point) (to_layer : List (Candidate Edge Point))
      → (row : List ℕ) × (weigh_source w s source to_layer ≡ some row)
        × (length row ≡ length to_layer)
        × All IsCell row
  unfolding weigh_source
  weigh_source-IsCell source to_layer =
      let (row, written, size, cells) =
        write_hops-IsCell source to_layer (w.select s source to_layer)
          (replicate (length to_layer) no_edge) (w.select-lt s source to_layer)
          (All-replicate IsCell (length to_layer) no_edge (inl refl)) in
      (row, written, size ∙ length-replicate {A = ℕ} (length to_layer) no_edge, cells)

  suc_rows : (n width : ℕ) → suc n * width ≡ width + n * width
  suc_rows n width = grind arith

  no_rows : (width : ℕ) → 0 * width ≡ 0
  no_rows width = grind arith

  pub weigh_rows-IsCell :
      (sources to_layer : List (Candidate Edge Point))
      → (matrix : List ℕ) × (weigh_rows w s sources to_layer ≡ some matrix)
        × (length matrix ≡ length sources * length to_layer)
        × All IsCell matrix
  unfolding weigh_rows
  weigh_rows-IsCell [] to_layer = ([], refl, sym (no_rows (length to_layer)), tt)
  weigh_rows-IsCell (source ∷ sources) to_layer =
      let (row, row_eq, row_size, row_cells) = weigh_source-IsCell source to_layer in
      let (rest, rest_eq, rest_size, rest_cells) = weigh_rows-IsCell sources to_layer in
      (
        row ++ rest,
        rw (row_eq, rest_eq) refl,
        omega (
          arith,
          length-append row rest,
          suc_rows (length sources) (length to_layer),
          row_size,
          rest_size,
        ),
        All-append IsCell row rest row_cells rest_cells,
      )

  -- A row whose cell `j` is still the sentinel, or is that of the hop to `j` already.
  IsOpen : Candidate Edge Point → Candidate Edge Point → NodeId → List ℕ → Type 0
  IsOpen source target j row =
      (get_elem? row j ≡ some no_edge)
      ⊎ (get_elem? row j ≡ some (cell_of (hop w s source.location target.location)))

  -- Placing the hop to `j` closes an open cell; placing another leaves it.
  place_here :
      (source target : Candidate Edge Point) (j : NodeId) (row : List ℕ)
      → j < length row
      → IsOpen source target j row
      → get_elem? (place j (hop w s source.location target.location) row) j
        ≡ some (cell_of (hop w s source.location target.location))
  unfolding IsOpen
  place_here source target j row inside h = of_hop (hop w s source.location target.location) h
    where
      of_hop :
          (o : Option ℕ)
          → (get_elem? row j ≡ some no_edge) ⊎ (get_elem? row j ≡ some (cell_of o))
          → get_elem? (place j o row) j ≡ some (cell_of o)
      of_hop none (inl e) = e
      of_hop none (inr e) = e
      of_hop (some cost) _ = get_elem?-set_self row j cost inside

  place_elsewhere :
      (n j : NodeId) (o : Option ℕ) (row : List ℕ)
      → n ≢ j
      → get_elem? (place n o row) j ≡ get_elem? row j
  place_elsewhere n j none row h = refl
  place_elsewhere n j (some cost) row h = get_elem?-set_ne row n j cost h

  IsOpen-right :
      (source target : Candidate Edge Point) (j : NodeId) (row : List ℕ)
      → get_elem? row j ≡ some (cell_of (hop w s source.location target.location))
      → IsOpen source target j row
  unfolding IsOpen
  IsOpen-right source target j row e = inr e

  IsOpen-kept :
      (source target : Candidate Edge Point) (j : NodeId) (row next : List ℕ)
      → get_elem? next j ≡ get_elem? row j
      → IsOpen source target j row
      → IsOpen source target j next
  unfolding IsOpen
  IsOpen-kept source target j row next e (inl h) = inl (e ∙ h)
  IsOpen-kept source target j row next e (inr h) = inr (e ∙ h)

  IsOpen-blank :
      (source target : Candidate Edge Point) (j : NodeId) (row : List ℕ)
      → get_elem? row j ≡ some no_edge
      → IsOpen source target j row
  unfolding IsOpen
  IsOpen-blank source target j row e = inl e

  same_cell : (b : Bool) (x : Option ℕ) → (if b then x else x) ≡ x
  same_cell true x = refl
  same_cell false x = refl

  write_hops-get_elem? :
      (source target : Candidate Edge Point) (to_layer : List (Candidate Edge Point)) (j : NodeId)
      (ns : List NodeId) (row out : List ℕ)
      → get_elem? to_layer j ≡ some target
      → j < length row
      → IsOpen source target j row
      → write_hops w s source to_layer ns row ≡ some out
      → get_elem? out j ≡ (
          if selected j ns
          then some (cell_of (hop w s source.location target.location))
          else get_elem? row j)
  unfolding write_hops
  write_hops-get_elem? source target to_layer j [] row out at inside h e =
      ap (λ xs. get_elem? xs j) (sym (some-injective row out e))
  write_hops-get_elem? source target to_layer j (n ∷ ns) row out at inside h e =
      let (t, found, rest) = >>=-eq-some (get_elem? to_layer n) _ e in
      let next = place n (hop w s source.location t.location) row in
      let wide : j < length next =
        omega (arith, length-place n (hop w s source.location t.location) row) in
      elim (ℕ_discrete n j) [
        | yes same ↦
            let t_eq : t ≡ target =
              some-injective t target (sym found ∙ (ap (get_elem? to_layer) same ∙ at)) in
            let closed : get_elem? next j
                ≡ some (cell_of (hop w s source.location target.location)) =
              ap₂
                (λ m (u : Candidate Edge Point).
                  get_elem? (place m (hop w s source.location u.location) row) j)
                same t_eq
              ∙ place_here source target j row inside h in
            rw (eq→== n j same) (
              write_hops-get_elem? source target to_layer j ns next out at wide
                (IsOpen-right source target j next closed) rest
              ∙ rw closed (same_cell (selected j ns) _))
        | no other ↦
            let kept : get_elem? next j ≡ get_elem? row j =
              place_elsewhere n j (hop w s source.location t.location) row other in
            rw (ne→== n j other, ← kept)
              (write_hops-get_elem? source target to_layer j ns next out at wide
                (IsOpen-kept source target j row next kept h) rest)
      ]

  -- Each cell of a row that `weigh_source` returns is the weight of the hop, where the position is
  -- selected and the hop exists, and the sentinel everywhere else.
  pub weigh_source-get_elem? :
      (source target : Candidate Edge Point) (to_layer : List (Candidate Edge Point)) (j : NodeId)
      (row : List ℕ)
      → get_elem? to_layer j ≡ some target
      → weigh_source w s source to_layer ≡ some row
      → get_elem? row j
        ≡ some (
            if selected j (w.select s source to_layer)
            then cell_of (hop w s source.location target.location)
            else no_edge)
  unfolding weigh_source
  weigh_source-get_elem? source target to_layer j row at e =
      let blank : get_elem? (replicate (length to_layer) no_edge) j ≡ some no_edge =
        get_elem?-replicate (length to_layer) j no_edge (lt_of_get_elem? to_layer j at) in
      write_hops-get_elem? source target to_layer j (w.select s source to_layer)
        (replicate (length to_layer) no_edge) row at
        (omega (
          arith,
          lt_of_get_elem? to_layer j at,
          length-replicate {A = ℕ} (length to_layer) no_edge,
        ))
        (IsOpen-blank source target j (replicate (length to_layer) no_edge) blank) e
      ∙ lift_if (selected j (w.select s source to_layer))
          (cell_of (hop w s source.location target.location)) blank
