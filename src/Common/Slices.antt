-- ===== src/Common/Slices.antt =====
-- Rust's slices of a vector: `v[a..b]` and writes into one. A range that does not lie within the
-- vector panics, here `none`.
use Prim.Native.Nat.{ℕ, zero, suc, ◌+◌, ◌-◌}
use mathlib.Core.Path.{◌≡◌, refl, ap, ◌∙◌}
use mathlib.Core.Bool.{◌&&◌}
use mathlib.Core.List.{List, [], ◌∷◌, ◌++◌, append-nil}
use mathlib.Core.Option.{Option, none, some}
use native.Mathlib.Omega.{arith}
use routers.Common.Tests.{leb, le→leb, eq→==, ◌==◌, if◌then◌else◌}
use routers.Common.Lists.{length, take, drop, length-append, drop-append}

-- A half-open range of indices.
pub record Range : Type 0 where
  pub start : ℕ
  pub stop : ℕ

-- `range.len()`
abbrev pub len : Range → ℕ
len r = r.stop - r.start

module _ {ℓ} {A : Type ℓ} where
  -- `&v[r]`
  unfoldable pub slice : List A → Range → Option (List A)
  slice xs r =
      if leb r.start r.stop && leb r.stop (length xs)
      then some (take (len r) (drop r.start xs))
      else none

  -- `v[r].copy_from_slice(ys)`, which also panics if the lengths differ
  unfoldable pub write_slice : List A → Range → List A → Option (List A)
  write_slice xs r ys =
      if leb r.start r.stop && leb r.stop (length xs) && length ys == len r
      then some (take r.start xs ++ (ys ++ drop r.stop xs))
      else none

  drop-append_at : (xs ys : List A) (n k : ℕ) → n ≡ length xs + k → drop n (xs ++ ys) ≡ drop k ys
  drop-append_at [] ys n k e = ap (λ m. drop m ys) (omega arith)
  drop-append_at (x ∷ xs) ys zero k e = absurd (omega arith)
  drop-append_at (x ∷ xs) ys (suc n) k e = drop-append_at xs ys n k (omega arith)

  take-append_at :
      (xs ys : List A) (n k : ℕ) → n ≡ length xs + k → take n (xs ++ ys) ≡ xs ++ take k ys
  take-append_at [] ys n k e = ap (λ m. take m ys) (omega arith)
  take-append_at (x ∷ xs) ys zero k e = absurd (omega arith)
  take-append_at (x ∷ xs) ys (suc n) k e = ap (◌∷◌ x) (take-append_at xs ys n k (omega arith))

  -- The slice of the middle one of three parts is that part.
  pub slice-append :
      (xs ys zs : List A) (r : Range)
      → r.start ≡ length xs
      → r.stop ≡ length xs + length ys
      → slice (xs ++ (ys ++ zs)) r ≡ some ys
  unfolding slice
  slice-append xs ys zs r p q =
      let size : length (xs ++ (ys ++ zs)) ≡ length xs + (length ys + length zs) =
        omega (arith, length-append xs (ys ++ zs), length-append ys zs) in
      rw
        (
          le→leb r.start r.stop (omega arith),
          le→leb r.stop (length (xs ++ (ys ++ zs))) (omega arith),
        )
        (ap some (
          rw (drop-append_at xs (ys ++ zs) r.start 0 (omega arith))
            (take-append_at ys zs (len r) 0 (omega arith) ∙ append-nil ys)))

  pub write_slice-append :
      (xs ys zs vs : List A) (r : Range)
      → r.start ≡ length xs
      → r.stop ≡ length xs + length ys
      → length vs ≡ length ys
      → write_slice (xs ++ (ys ++ zs)) r vs ≡ some (xs ++ (vs ++ zs))
  unfolding write_slice
  write_slice-append xs ys zs vs r p q e =
      let size : length (xs ++ (ys ++ zs)) ≡ length xs + (length ys + length zs) =
        omega (arith, length-append xs (ys ++ zs), length-append ys zs) in
      rw
        (
          le→leb r.start r.stop (omega arith),
          le→leb r.stop (length (xs ++ (ys ++ zs))) (omega arith),
          eq→== (length vs) (len r) (omega arith),
        )
        (rw
          (
            take-append_at xs (ys ++ zs) r.start 0 (omega arith),
            drop-append_at xs (ys ++ zs) r.stop (length ys) (omega arith),
            drop-append ys zs,
            append-nil,
          )
          refl)
