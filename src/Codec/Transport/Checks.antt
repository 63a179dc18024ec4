-- ===== src/Codec/Transport/Checks.antt =====
-- Tests of every mode, and what they say of any mode.
use routers.Common.{
  ℕ, ◌≡◌, ap, sym, ◌∙◌, Bool, true, ◌&&◌, ◌||◌, some, List, [], ◌∷◌, get_elem?, zero, suc, subst,
  ◌⊎◌, arith, ==_iff, inl, inr,
}
use mathlib.Core.Option.{some-injective}
use routers.Codec.Transport.Mode.{TransportMode, discriminant, mode_eq}
use routers.Codec.Transport.Modes.{modes, discriminant-modes}
use routers.Codec.Transport.Chain.{contains}

pub and_true : (a : Bool) {b : Bool} → (a && b) ≡ true → (a ≡ true) × (b ≡ true)
and_true a h = ground arith

pub or_true : (a : Bool) {b : Bool} → (a || b) ≡ true → (a ≡ true) ⊎ (b ≡ true)
or_true a h = ground arith

unfoldable pub every : (TransportMode → Bool) → List TransportMode → Bool
every f [] = true
every f (m ∷ ms) = f m && every f ms

every-get_elem? :
    (f : TransportMode → Bool) (ms : List TransportMode) (i : ℕ) (m : TransportMode)
    → every f ms ≡ true
    → get_elem? ms i ≡ some m
    → f m ≡ true
unfolding every
every-get_elem? f [] i m h e = ground arith
every-get_elem? f (x ∷ ms) zero m h e =
    subst (λ y. f y ≡ true) (some-injective x m e) (and_true (f x) h).0
every-get_elem? f (x ∷ ms) (suc i) m h e = every-get_elem? f ms i m (and_true (f x) h).1 e

pub of_modes : (f : TransportMode → Bool) → every f modes ≡ true → (m : TransportMode) → f m ≡ true
of_modes f h m = every-get_elem? f modes (discriminant m) m h (discriminant-modes m)

pub mode_eq-eq : (a b : TransportMode) → mode_eq a b ≡ true → a ≡ b
unfolding mode_eq
mode_eq-eq a b e = some-injective a b (
    sym (discriminant-modes a)
    ∙ ap (get_elem? modes) ((==_iff (discriminant a) (discriminant b)).0 e)
    ∙ discriminant-modes b)

-- A test of a list holds of what the list contains.
pub every-contains :
    (f : TransportMode → Bool) (ms : List TransportMode) (m : TransportMode)
    → every f ms ≡ true
    → contains m ms ≡ true
    → f m ≡ true
unfolding every contains
every-contains f [] m h e = ground arith
every-contains f (x ∷ ms) m h e = elim (or_true (mode_eq x m) e) [
  | inl same ↦ subst (λ y. f y ≡ true) (mode_eq-eq x m same) (and_true (f x) h).0
  | inr rest ↦ every-contains f ms m (and_true (f x) h).1 rest
]
