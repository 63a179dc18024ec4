-- ===== src/Matcher/Weighed.antt =====
-- What weighing leaves of a trellis that mirrors the candidates.
use native.Mathlib.Numerals.{add-one}
use routers.Common.{
  ℕ, suc, ◌<◌, ◌≡◌, ◌≢◌, refl, ap, ◌∙◌, sym, subst, List, [], ◌∷◌, map, some, false, All, arith,
  length, get_elem?, get_elem?-some, get_elem?-map, length-map, u32_mod, as_u32_of_lt,
}
use routers.Common.Outcome.{ok}
use routers.Trellis.Types.{LayerId, pending}
use routers.Trellis.Graph.{Trellis, boundaries, is_resolved_at}
use routers.Trellis.Shape.{IsShaped-length}
use routers.Trip.Store.{Candidate, CandidateStore}
use routers.Trip.Aligned.{Mirrors}
use routers.Matcher.Weigh.{
  Weigher, weigh, weigh_all, weigh_boundary, weigh_rows, unresolved, fill_all,
}
use routers.Matcher.Rows.{check_rows-IsCell, weigh_rows-IsCell}
use routers.Matcher.Fill.{FitsIn, fill_all-Filled}
use routers.Matcher.Landed.{Ascends, landed, HasLanded, Waits, fill_all-HasLanded}
use routers.Matcher.Pending.{
  Above, unresolved-All, boundaries-lt, boundaries-Above, is_resolved_at-pending,
  unresolved-pending,
}

module _ {Edge Point Reachable : Type 0} (w : Weigher Edge Point Reachable)
    (s : CandidateStore Edge Point) where
  -- The matrix of a boundary between two layers of candidates.
  weigh_boundary_lem :
      (b : LayerId) (from to : List (Candidate Edge Point))
      → suc b < u32_mod
      → get_elem? s.layers b ≡ some from
      → get_elem? s.layers (suc b) ≡ some to
      → weigh_boundary w s b ≡ weigh_rows w s from to
  unfolding weigh_boundary
  weigh_boundary_lem b from to small p q =
      rw (weigh_boundary, p, add-one, as_u32_of_lt (suc b) small, q) refl

  pub weigh_boundary-FitsIn :
      (t : Trellis) (b : LayerId)
      → Mirrors t s.layers
      → length s.layers < u32_mod
      → suc b < length s.layers
      → (matrix : List ℕ) × (weigh_boundary w s b ≡ some matrix) × FitsIn t.widths (b, matrix)
  weigh_boundary-FitsIn t b m small inside =
      let (from, from_eq) = get_elem?-some s.layers b (omega arith) in
      let (to, to_eq) = get_elem?-some s.layers (suc b) inside in
      let (matrix, matrix_eq, size, cells) = weigh_rows-IsCell w s from to in
      (
        matrix,
        weigh_boundary_lem b from to (omega arith) from_eq to_eq ∙ matrix_eq,
        record {
          cur = length from;
          next = length to;
          cur_eq = ap (λ ws. get_elem? ws b) m.widths_eq ∙ get_elem?-map length s.layers b from_eq;
          next_eq =
              ap (λ ws. get_elem? ws (suc b)) m.widths_eq
              ∙ get_elem?-map length s.layers (suc b) to_eq;
          size = size;
          checked = check_rows-IsCell matrix cells;
        },
      )

  -- A matrix that fits and is that of its boundary.
  abbrev pub IsWeighed : Trellis → LayerId × List ℕ → Type 0
  IsWeighed t bm = FitsIn t.widths bm × (weigh_boundary w s bm.0 ≡ some bm.1)

  weigh_all-IsWeighed :
      (t : Trellis) (lo : ℕ) (bs : List LayerId)
      → Mirrors t s.layers
      → length s.layers < u32_mod
      → All (λ b. (suc b < length s.layers) × (get_elem? t.transitions b ≡ some pending)) bs
      → Above lo bs
      → (ms : List (LayerId × List ℕ)) × (weigh_all w s bs ≡ some ms)
        × All (IsWeighed t) ms
        × Ascends lo ms
        × All (Waits t) ms
        × (map (λ (bm : LayerId × List ℕ). bm.0) ms ≡ bs)
  unfolding weigh_all
  weigh_all-IsWeighed t lo [] m small h asc = ([], refl, tt, tt, tt, refl)
  weigh_all-IsWeighed t lo (b ∷ bs) m small (here, rest) (above, asc) =
      let (matrix, weighed, fits) = weigh_boundary-FitsIn t b m small here.0 in
      let (ms, all_weighed, All-FitsIn, ascends, wait, keys) =
        weigh_all-IsWeighed t (suc b) bs m small rest asc in
      (
        (b, matrix) ∷ ms,
        rw (weighed, all_weighed) refl,
        ((fits, weighed), All-FitsIn),
        (above, ascends),
        (here.1, wait),
        ap (λ ks. b ∷ ks) keys,
      )

  -- What became of a boundary that was not resolved: its matrix landed.
  abbrev pub HasOutcome : Trellis → LayerId → Type 0
  HasOutcome u b =
      (matrix : List ℕ) × (weigh_boundary w s b ≡ some matrix)
      × (get_elem? u.transitions b ≡ some (landed matrix))

  outcomes :
      (t u : Trellis) (ms : List (LayerId × List ℕ))
      → All (IsWeighed t) ms
      → All (HasLanded u) ms
      → All (HasOutcome u) (map (λ (bm : LayerId × List ℕ). bm.0) ms)
  outcomes t u [] h k = tt
  outcomes t u ((b, matrix) ∷ rest) h k = ((matrix, h.0.1, k.0), outcomes t u rest h.1 k.1)

  All-FitsIn :
      (t : Trellis) (ms : List (LayerId × List ℕ)) → All (IsWeighed t) ms → All (FitsIn t.widths) ms
  All-FitsIn t [] h = tt
  All-FitsIn t (bm ∷ rest) h = (h.0.0, All-FitsIn t rest h.1)

  keys_away :
      (t : Trellis) (i : ℕ) (ms : List (LayerId × List ℕ))
      → (get_elem? t.transitions i ≢ some pending)
      → All (Waits t) ms
      → All (λ (bm : LayerId × List ℕ). bm.0 ≢ i) ms
  keys_away t i [] h k = tt
  keys_away t i (bm ∷ rest) h k =
      (λ e. h (ap (get_elem? t.transitions) (sym e) ∙ k.0), keys_away t i rest h k.1)

  -- What a weighing leaves: a trellis that mirrors the candidates as before, with the same nodes; each
  -- boundary that was pending has landed and every other one is as it was.
  pub record Weighed (t u : Trellis) : Type 0 where
    pub mirrors : Mirrors u s.layers
    pub nodes_eq : u.nodes ≡ t.nodes
    pub filled : (i : ℕ) → get_elem? t.transitions i ≡ some pending → HasOutcome u i
    pub kept :
        (i : ℕ)
        → get_elem? t.transitions i ≢ some pending
        → get_elem? u.transitions i ≡ get_elem? t.transitions i

  weighed_unresolved :
      (t : Trellis)
      → Mirrors t s.layers
      → length s.layers < u32_mod
      → All
          (λ b. (suc b < length s.layers) × (get_elem? t.transitions b ≡ some pending))
          (unresolved t (boundaries t))
  weighed_unresolved t m small =
      let count : length t.widths ≡ length s.layers =
        ap length m.widths_eq ∙ length-map length s.layers in
      let edges = IsShaped-length t.widths t.transitions m.valid.shape in
      each (unresolved t (boundaries t)) (
        unresolved-All t (λ b. b < length t.transitions) (boundaries t)
          (boundaries-lt t (omega (arith, count, edges))))
    where
      each :
          (bs : List LayerId)
          → All (λ b. (b < length t.transitions) × (is_resolved_at t b ≡ false)) bs
          → All (λ b. (suc b < length s.layers) × (get_elem? t.transitions b ≡ some pending)) bs
      each [] h = tt
      each (b ∷ bs) h = (
        (
          omega (
            arith,
            h.0.0,
            ap length m.widths_eq ∙ length-map length s.layers,
            IsShaped-length t.widths t.transitions m.valid.shape,
          ),
          is_resolved_at-pending t b h.0.0 h.0.1,
        ),
        each bs h.1,
      )

  weigh_lem :
      (t : Trellis) (ms : List (LayerId × List ℕ))
      → weigh_all w s (unresolved t (boundaries t)) ≡ some ms
      → weigh w s t ≡ fill_all ms t
  unfolding weigh
  weigh_lem t ms e = rw (weigh, e) refl

  pub weigh-Weighed :
      (t : Trellis)
      → Mirrors t s.layers
      → length s.layers < u32_mod
      → (u : Trellis) × (weigh w s t ≡ ok u) × Weighed t u
  weigh-Weighed t m small =
      let count : length t.widths ≡ length s.layers =
        ap length m.widths_eq ∙ length-map length s.layers in
      let edges = IsShaped-length t.widths t.transitions m.valid.shape in
      let bs = unresolved t (boundaries t) in
      let (ms, weighed, matrices, ascends, wait, keys) =
        weigh_all-IsWeighed t 0 bs m small (weighed_unresolved t m small)
          (boundaries-Above t (omega (arith, count, edges))) in
      let fits = All-FitsIn t ms matrices in
      let (u, loop, done) = fill_all-Filled ms t m.valid fits in
      let land = fill_all-HasLanded ms 0 t u m.valid fits ascends wait loop in
      (
        u,
        weigh_lem t ms weighed ∙ loop,
        record {
          mirrors = record { valid = done.valid; widths_eq = done.widths_eq ∙ m.widths_eq };
          nodes_eq = done.nodes_eq;
          filled = λ i.
              unresolved-pending t (HasOutcome u) i (omega (arith, count, edges))
                (subst (All (HasOutcome u)) keys (outcomes t u ms matrices land));
          kept = λ i h. done.others i (keys_away t i ms h wait);
        },
      )
