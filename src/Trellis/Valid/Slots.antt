-- ===== src/Trellis/Valid/Slots.antt =====
-- Where the nodes of a layer stand in the flat buffer.
use native.Mathlib.Nat.{suc-add, zero-add}
use routers.Common.{
  ℕ, zero, suc, ◌+◌, ◌≤◌, ◌≡◌, refl, List, [], ◌∷◌, ◌++◌, Option, some, arith, length, get_elem?,
  take, drop, Range,
}
use routers.Trellis.Graph.{sum, ranges_from}

pub sum-append : (xs ys : List ℕ) → sum (xs ++ ys) ≡ sum xs + sum ys
sum-append [] ys = omega arith
sum-append (x ∷ xs) ys = omega (arith, sum-append xs ys)

pub sum-take-le : (n : ℕ) (xs : List ℕ) → sum (take n xs) ≤ sum xs
sum-take-le zero xs = omega arith
sum-take-le (suc n) [] = omega arith
sum-take-le (suc n) (x ∷ xs) = omega (arith, sum-take-le n xs)

-- The range of layer `i` starts behind the layers below it and is as long as its width.
pub ranges_from-get_elem? :
    (start : ℕ) (ws : List ℕ) (i : ℕ) {w : ℕ}
    → get_elem? ws i ≡ some w
    → (r : Range) × (get_elem? (ranges_from start ws) i ≡ some r)
      × (r.start ≡ start + sum (take i ws))
      × (r.stop ≡ r.start + w)
unfolding ranges_from
ranges_from-get_elem? start [] i e = absurd (ground arith)
ranges_from-get_elem? start (v ∷ ws) zero e =
    (record { start = start; stop = start + v }, refl, omega arith, ground arith)
ranges_from-get_elem? start (v ∷ ws) (suc i) e =
    let (r, found, from, to) = ranges_from-get_elem? (start + v) ws i e in
    (r, found, omega arith, to)

pub ranges_from-none :
    (start : ℕ) (ws : List ℕ) (i : ℕ)
    → length ws ≤ i
    → get_elem? (ranges_from start ws) i ≡ Option.none
unfolding ranges_from
ranges_from-none start [] i h = refl
ranges_from-none start (v ∷ ws) zero h = absurd (omega arith)
ranges_from-none start (v ∷ ws) (suc i) h = ranges_from-none (start + v) ws i (omega arith)

pub sum-take-suc :
    (ws : List ℕ) (i : ℕ) {w : ℕ}
    → get_elem? ws i ≡ some w
    → sum (take (suc i) ws) ≡ sum (take i ws) + w
sum-take-suc [] i e = absurd (ground arith)
sum-take-suc (v ∷ ws) zero e = ground arith
sum-take-suc (v ∷ ws) (suc i) e = omega (arith, sum-take-suc ws i e)

pub sum-take-add :
    (a k : ℕ) (xs : List ℕ) → sum (take a xs) + sum (take k (drop a xs)) ≡ sum (take (a + k) xs)
sum-take-add zero k xs = rw (zero-add, zero-add)
sum-take-add (suc a) zero [] = rw suc-add (omega arith)
sum-take-add (suc a) (suc k) [] = rw suc-add (omega arith)
sum-take-add (suc a) k (x ∷ xs) = rw suc-add (omega (arith, sum-take-add a k xs))
