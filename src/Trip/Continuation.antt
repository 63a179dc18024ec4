-- ===== src/Trip/Continuation.antt =====
-- libs/routers_transition/src/matcher/continuation.rs: how a stored trip is reconciled with the
-- committed history. The equality of points is that of their crate: any test. A panic is `none`.
use routers.Common.{
  ℕ, zero, suc, ◌-◌, ◌≤◌, ◌<◌, ◌≡◌, refl, subst, List, [], ◌∷◌, Option, none, some, Bool, true,
  false, ◌&&◌, arith, min, length, drop, take, if◌then◌else◌, ◌==◌, u32_mod, Bool-cases, inl, inr,
  dec_le,
}
use routers.Common.Maybe.{◌>>=◌}
use routers.Trip.State.{Origin, Trip, tail}
use routers.Trip.Aligned.{IsAligned}
use routers.Trellis.Effects.{positive}
use routers.Trip.Cut.{tail-IsAligned}

pub data Continuation (Edge Point : Type 0) : Type 0 where
  resume : Trip Edge Point → List (Origin Point) → Continuation Edge Point
  restart : List (Origin Point) → Continuation Edge Point

-- `find` over `(0..=n).rev()`.
unfoldable pub find_down : (ℕ → Bool) → ℕ → Option ℕ
find_down test zero = if test zero then some zero else none
find_down test (suc n) = let rest = find_down test n in if test (suc n) then some (suc n) else rest

-- The greatest number up to `n` that passes the test, or none that does.
abbrev pub Greatest : (ℕ → Bool) → ℕ → Option ℕ → Type 0
Greatest test n (some k) = (k ≤ n) × (test k ≡ true) × ((j : ℕ) → k < j → j ≤ n → test j ≡ false)
Greatest test n none = (j : ℕ) → j ≤ n → test j ≡ false

-- `unwrap_or(0)`
abbrev pub or_zero : Option ℕ → ℕ
or_zero none = 0
or_zero (some k) = k

only_zero : (test : ℕ → Bool) (j : ℕ) → j ≤ 0 → test 0 ≡ false → test j ≡ false
only_zero test j inside fails = subst (λ k. test k ≡ false) (zero_eq j inside) fails
  where
    zero_eq : (k : ℕ) → k ≤ 0 → 0 ≡ k
    zero_eq k h = omega arith

up_to_suc :
    (test : ℕ → Bool) (n j : ℕ)
    → j ≤ suc n
    → test (suc n) ≡ false
    → (j ≤ n → test j ≡ false)
    → test j ≡ false
up_to_suc test n j inside fails below = elim (dec_le j n) [
  | yes h ↦ below h
  | no h ↦ subst (λ k. test k ≡ false) (top_eq j n inside h) fails
]
  where
    top_eq : (a b : ℕ) → a ≤ suc b → (a ≤ b → ⊥) → suc b ≡ a
    top_eq a b h p = omega arith

Greatest-suc :
    (test : ℕ → Bool) (n : ℕ)
    → test (suc n) ≡ false
    → (r : Option ℕ) → Greatest test n r
    → Greatest test (suc n) r
Greatest-suc test n fails none h = λ j inside. up_to_suc test n j inside fails (h j)
Greatest-suc test n fails (some k) (inside, passes, rest) =
    (omega arith, passes, λ j above in_range. up_to_suc test n j in_range fails (rest j above))

find_down-Greatest : (test : ℕ → Bool) (n : ℕ) → Greatest test n (find_down test n)
unfolding find_down
find_down-Greatest test zero = elim (Bool-cases (test zero)) [
  | inl passes ↦ rw (passes, Greatest) (omega arith, passes, λ j above inside. absurd (omega arith))
  | inr fails ↦ rw (fails, Greatest) (λ j inside. only_zero test j inside fails)
]
find_down-Greatest test (suc n) = elim (Bool-cases (test (suc n))) [
  | inl passes ↦ rw (passes, Greatest) (omega arith, passes, λ j above inside. absurd (omega arith))
  | inr fails ↦ rw fails (Greatest-suc test n fails (find_down test n) (find_down-Greatest test n))
]

module _ {Point : Type 0} (same_point : Point → Point → Bool) where
  abbrev pub same_origin : Origin Point → Origin Point → Bool
  same_origin a b = same_point a.point b.point && (a.timestamp == b.timestamp)

  -- The equality of slices.
  abbrev pub same_origins : List (Origin Point) → List (Origin Point) → Bool
  same_origins [] [] = true
  same_origins (a ∷ xs) (b ∷ ys) = same_origin a b && same_origins xs ys
  same_origins _ _ = false

  -- The last `k` origins are the first `k` of the history.
  abbrev pub overlaps : List (Origin Point) → List (Origin Point) → ℕ → Bool
  overlaps origins history k = same_origins (drop (length origins - k) origins) (take k history)

  unfoldable pub overlap_of : List (Origin Point) → List (Origin Point) → ℕ
  unfolding find_down
  overlap_of origins history =
      or_zero (find_down (overlaps origins history) (min (length origins) (length history)))

module _ {Edge Point : Type 0} (same_point : Point → Point → Bool) where
  unfoldable pub reconcile :
      Option (Trip Edge Point) → List (Origin Point) → Option (Continuation Edge Point)
  unfolding overlap_of
  reconcile none history = some (restart history)
  reconcile (some trip) history =
      let overlap = overlap_of same_point trip.origins history in
      if overlap == 0
      then some (restart history)
      else tail overlap trip >>= λ kept. some (resume kept (drop overlap history))

  -- A stored trip resumes with an overlap `k` that is positive and the greatest, cut to the last `k`
  -- layers, and with the history from `k` on; it restarts with the whole history, when no overlap is
  -- positive.
  abbrev pub Reconciled :
      Trip Edge Point → List (Origin Point) → Option (Continuation Edge Point) → Type 0
  Reconciled trip history (some (resume kept fresh)) =
      (k : ℕ) × (0 < k)
      × Greatest (overlaps same_point trip.origins history)
          (min (length trip.origins) (length history)) (some k)
      × IsAligned kept
      × (kept.origins ≡ drop (length trip.origins - k) trip.origins)
      × (fresh ≡ drop k history)
  Reconciled trip history (some (restart fresh)) =
      (fresh ≡ history)
      × ((k : ℕ)
          → 0 < k
          → k ≤ min (length trip.origins) (length history)
          → overlaps same_point trip.origins history k ≡ false)
  Reconciled trip history none = ⊥

  -- An aligned trip of fewer than 2^32 layers is reconciled with any history without a panic: it resumes
  -- at the greatest positive overlap, aligned, cut to the overlap and with the rest of the history, or
  -- it restarts with the whole history if there is no positive overlap.
  pub reconcile-Reconciled :
      (trip : Trip Edge Point) (history : List (Origin Point))
      → IsAligned trip
      → length trip.origins < u32_mod
      → Reconciled trip history (reconcile (some trip) history)
  unfolding reconcile overlap_of
  reconcile-Reconciled trip history a small =
      of_found (find_down (overlaps same_point trip.origins history) bound)
        (find_down-Greatest (overlaps same_point trip.origins history) bound)
    where
      bound : ℕ
      bound = min (length trip.origins) (length history)

      of_found :
          (r : Option ℕ)
          → Greatest (overlaps same_point trip.origins history) bound r
          → Reconciled trip history (
              if or_zero r == 0
              then some (restart history)
              else (tail (or_zero r) trip >>= λ kept.
                  some (resume kept (drop (or_zero r) history))))
      of_found none h = (refl, λ k _ inside. h k inside)
      of_found (some zero) h = (refl, λ k some_layer inside. h.2 k some_layer inside)
      of_found (some (suc k)) h =
          let (kept, found, aligned, origins_eq) = tail-IsAligned (suc k) trip a small in
          rw (positive (suc k) (omega arith), found)
            (suc k, omega arith, h, aligned, origins_eq, refl)
