-- ===== src/Routing/Entries.antt =====
-- The entries of the index map of libs/routers_transition/src/primitives/algorithms/dijkstra.rs, as a list.

use mathlib.Core.Option.{some-injective}
use routers.Common.{
  ℕ, zero, suc, ◌+◌, ◌≡◌, refl, ap, ◌∙◌, sym, ◌⊎◌, inl, inr, List, [], ◌∷◌, ◌++◌, some, Bool, true,
  arith, length, get_elem?, set, get_elem?-set_self, get_elem?-set_ne, lt_of_get_elem?,
  if◌then◌else◌, Bool-cases, ℕ_discrete,
}
use routers.Routing.Dijkstra.{Visited, find_entry}

module _ {E : Type 0} where
  pub append_back :
      (vs : List (Visited E)) (w u : Visited E) (i : ℕ)
      → get_elem? (vs ++ (w ∷ [])) i ≡ some u
      → (get_elem? vs i ≡ some u) ⊎ ((i ≡ length vs) × (w ≡ u))
  append_back [] w u zero e = inr (refl, some-injective w u e)
  append_back [] w u (suc i) e = absurd (ground arith)
  append_back (v ∷ vs) w u zero e = inl e
  append_back (v ∷ vs) w u (suc i) e = elim (append_back vs w u i e) [
    | inl f ↦ inl f
    | inr (at, f) ↦ inr (ap suc at, f)
  ]

  -- The entry at an index after a write keeps its node.
  pub set_node :
      (vs : List (Visited E)) (i j : ℕ) (old new v : Visited E)
      → get_elem? vs i ≡ some old
      → new.node ≡ old.node
      → get_elem? vs j ≡ some v
      → (u : Visited E) × (get_elem? (set vs i new) j ≡ some u) × (u.node ≡ v.node)
  set_node vs i j old new v at node e = elim (ℕ_discrete i j) [
    | yes q ↦ (
      new,
      ap (get_elem? (set vs i new)) (sym q) ∙ get_elem?-set_self vs i new (lt_of_get_elem? vs i at),
      node
          ∙ ap (λ (x : Visited E). x.node)
              (some-injective old v (sym at ∙ (ap (get_elem? vs) q ∙ e))),
    )
    | no ne ↦ (v, get_elem?-set_ne vs i j new ne ∙ e, refl)
  ]

  pub set_back :
      (vs : List (Visited E)) (i j : ℕ) (old new u : Visited E)
      → get_elem? vs i ≡ some old
      → get_elem? (set vs i new) j ≡ some u
      → ((i ≡ j) × (new ≡ u)) ⊎ (get_elem? vs j ≡ some u)
  set_back vs i j old new u at e = elim (ℕ_discrete i j) [
    | yes q ↦ inl (
      q,
      some-injective new u (
          sym (get_elem?-set_self vs i new (lt_of_get_elem? vs i at))
          ∙ (ap (get_elem? (set vs i new)) q ∙ e)),
    )
    | no ne ↦ inr (sym (get_elem?-set_ne vs i j new ne) ∙ e)
  ]

module _ {E : Type 0} (same : E → E → Bool) (same_sound : (a b : E) → same a b ≡ true → a ≡ b) where
  pub find_entry-get_elem? :
      (k : ℕ) (key : E) (vs : List (Visited E)) (i : ℕ) (v : Visited E)
      → find_entry same k key vs ≡ some (i, v)
      → (j : ℕ) × (i ≡ k + j) × (get_elem? vs j ≡ some v) × (v.node ≡ key)
  unfolding find_entry
  find_entry-get_elem? k key [] i v e = absurd (ground arith)
  find_entry-get_elem? k key (w ∷ vs) i v e = elim (Bool-cases (same w.node key)) [
    | inl hit ↦
        let found : (k, w) ≡ (i, v) =
          some-injective (k, w) (i, v)
            (ap (λ b. if b then some (k, w) else find_entry same (suc k) key vs) (sym hit) ∙ e) in
        (
          0,
          ap (λ (p : ℕ × Visited E). p.0) (sym found) ∙ plus_zero k,
          ap (λ (p : ℕ × Visited E). some p.1) found,
          ap (λ (p : ℕ × Visited E). p.1.node) (sym found) ∙ same_sound w.node key hit,
        )
    | inr miss ↦
        let (j, i_eq, at, node) =
          find_entry-get_elem? (suc k) key vs i v
            (ap (λ b. if b then some (k, w) else find_entry same (suc k) key vs) (sym miss) ∙ e) in
        (suc j, omega (arith, i_eq), at, node)
  ]
    where
      plus_zero : (n : ℕ) → n ≡ n + 0
      plus_zero n = omega arith
