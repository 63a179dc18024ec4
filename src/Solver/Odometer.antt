-- ===== src/Solver/Odometer.antt =====
-- The counter of libs/routers_trellis/src/solver/brute.rs: the number that the digits of a path stand for.
use routers.Common.{
  ℕ, suc, ◌+◌, ◌*◌, ◌<◌, ◌≡◌, refl, ap, ap₂, ◌∙◌, sym, List, [], ◌∷◌, Bool, true, false, All, arith,
  length, replicate, lt→ltb, le→ltb, dec_lt, as_u32, as_u32_of_lt,
}
use native.Mathlib.Numerals.{add-one}
use routers.Trellis.Types.{NodeId}
use routers.Trellis.Valid.{IsWidth, cell_in_range}
use routers.Trellis.Valid.Written.{suc_row, zero_row, cell_injective}
use routers.Solver.Brute.{digit, increment}

-- How many combinations there are.
abbrev pub product : List ℕ → ℕ
product [] = 1
product (w ∷ ws) = w * product ws

-- A node within each layer.
abbrev pub InRange : List ℕ → List NodeId → Type 0
InRange [] [] = Unit
InRange [] (n ∷ ns) = ⊥
InRange (w ∷ ws) [] = ⊥
InRange (w ∷ ws) (n ∷ ns) = (n < w) × InRange ws ns

-- The place of a path in the order of the counter.
abbrev pub rank : List ℕ → List NodeId → ℕ
rank [] ns = 0
rank (w ∷ ws) [] = 0
rank (w ∷ ws) (n ∷ ns) = n * product ws + rank ws ns

pub rank-lt : (ws : List ℕ) (ns : List NodeId) → InRange ws ns → rank ws ns < product ws
rank-lt [] [] h = omega arith
rank-lt [] (n ∷ ns) h = absurd h
rank-lt (w ∷ ws) [] h = absurd h
rank-lt (w ∷ ws) (n ∷ ns) h = cell_in_range n (rank ws ns) w (product ws) h.0 (rank-lt ws ns h.1)

-- Different paths have different places.
pub rank-injective :
    (ws : List ℕ) (ms ns : List NodeId)
    → InRange ws ms
    → InRange ws ns
    → rank ws ms ≡ rank ws ns
    → ms ≡ ns
rank-injective [] [] [] h k e = refl
rank-injective [] [] (n ∷ ns) h k e = absurd k
rank-injective [] (m ∷ ms) ns h k e = absurd h
rank-injective (w ∷ ws) [] ns h k e = absurd h
rank-injective (w ∷ ws) (m ∷ ms) [] h k e = absurd k
rank-injective (w ∷ ws) (m ∷ ms) (n ∷ ns) h k e =
    let (same, rest) =
      cell_injective (product ws) m (rank ws ms) n (rank ws ns) (rank-lt ws ms h.1)
        (rank-lt ws ns k.1) e in
    ap₂ ◌∷◌ same (rank-injective ws ms ns h.1 k.1 rest)

-- The counter starts at zero.
pub InRange-start : (ws : List ℕ) → All IsWidth ws → InRange ws (replicate (length ws) 0)
InRange-start [] h = tt
InRange-start (w ∷ ws) h = (h.0.0, InRange-start ws h.1)

pub rank-start : (ws : List ℕ) → rank ws (replicate (length ws) 0) ≡ 0
rank-start [] = refl
rank-start (w ∷ ws) = omega (arith, zero_row (product ws), rank-start ws)

-- A step of the counter: the next place, or the end with the carry.
abbrev pub StepsTo : List ℕ → List NodeId → Bool × List NodeId → Type 0
StepsTo ws ns (false, next) = InRange ws next × (rank ws next ≡ suc (rank ws ns))
StepsTo ws ns (true, next) = InRange ws next × (rank ws next ≡ 0) × (suc (rank ws ns) ≡ product ws)

digit-StepsTo :
    (w : ℕ) (ws : List ℕ) (n : NodeId) (ns : List NodeId) (r : Bool × List NodeId)
    → IsWidth w
    → n < w
    → StepsTo ws ns r
    → StepsTo (w ∷ ws) (n ∷ ns) (digit w n r)
digit-StepsTo w ws n ns (false, next) wide h s = ((h, s.0), omega (arith, s.1))
digit-StepsTo w ws n ns (true, next) wide h s =
    let word : as_u32 (n + 1) ≡ suc n =
      ap as_u32 (add-one n) ∙ as_u32_of_lt (suc n) (omega (arith, wide.1)) in
    elim (dec_lt (suc n) w) [
      | yes more ↦
          rw (word, lt→ltb (suc n) w more)
            ((more, s.0), omega (arith, s.1, s.2, suc_row n (product ws)))
      | no last ↦
          rw (word, le→ltb (suc n) w (omega arith))
            ((wide.0, s.0), omega (arith, s.1, zero_row (product ws)), full n (omega arith) s.2)
    ]
  where
    full :
        (m : ℕ)
        → w ≡ suc m
        → suc (rank ws ns) ≡ product ws
        → suc (m * product ws + rank ws ns) ≡ w * product ws
    full m e last = omega (arith, last, suc_row m (product ws)) ∙ ap (λ x. x * product ws) (sym e)

pub increment-StepsTo :
    (ws : List ℕ) (ns : List NodeId)
    → All IsWidth ws
    → InRange ws ns
    → StepsTo ws ns (increment ws ns)
unfolding increment
increment-StepsTo [] [] wide h = (tt, refl, refl)
increment-StepsTo [] (n ∷ ns) wide h = absurd h
increment-StepsTo (w ∷ ws) [] wide h = absurd h
increment-StepsTo (w ∷ ws) (n ∷ ns) wide h =
    digit-StepsTo w ws n ns (increment ws ns) wide.0 h.0 (increment-StepsTo ws ns wide.1 h.1)
