-- ===== src/Trip/Identity.antt =====
-- libs/routers_transition/src/candidate/store.rs: the reference that a candidate carries is the place
-- where the store holds it.
use routers.Common.{
  ℕ, zero, suc, ◌+◌, ◌-◌, ◌≤◌, ◌≡◌, ap, ap₂, ◌∙◌, sym, List, [], ◌∷◌, ◌++◌, map, some, arith, subst,
  length, get_elem?, drop, u32_mod, as_u32_of_lt, ◌==◌, length-drop, inl, inr, Bool-cases,
}
use mathlib.Core.Option.{some-injective}
use routers.Common.Maybe.{>>=-eq-some}
use routers.Trip.Store.{
  CandidateRef, Candidate, CandidateStore, store_tail, store_layer, store_candidate, restamp,
  relabel,
}
use routers.Trip.State.{stamp}

plus_zero : (k : ℕ) → k + 0 ≡ k
plus_zero k = omega arith

zero_plus : (k : ℕ) → 0 + k ≡ k
zero_plus k = omega arith

shift : (a b : ℕ) → suc a + b ≡ a + suc b
shift a b = omega arith

module _ {Edge Point : Type 0} where
  -- The candidates of layer `l` from node `n` on.
  abbrev pub AreNodes : ℕ → ℕ → List (Candidate Edge Point) → Type 0
  AreNodes l n [] = Unit
  AreNodes l n (c ∷ cs) = (c.location ≡ record { layer = l; node = n }) × AreNodes l (suc n) cs

  -- The layers from `l` on.
  abbrev pub AreLayers : ℕ → List (List (Candidate Edge Point)) → Type 0
  AreLayers l [] = Unit
  AreLayers l (cs ∷ rest) = AreNodes l 0 cs × AreLayers (suc l) rest

  stamp-AreNodes :
      (l i : ℕ) (cs : List (Candidate Edge Point))
      → i + length cs ≤ u32_mod
      → AreNodes l i (stamp l i cs)
  unfolding stamp
  stamp-AreNodes l i [] small = tt
  stamp-AreNodes l i (c ∷ cs) small = (
    ap (λ k. record { layer = l; node = k }) (as_u32_of_lt i (omega arith)),
    stamp-AreNodes l (suc i) cs (omega arith),
  )

  relabel-AreNodes :
      (k l n : ℕ) (cs : List (Candidate Edge Point))
      → AreNodes k n cs
      → AreNodes l n (map (relabel l) cs)
  relabel-AreNodes k l n [] h = tt
  relabel-AreNodes k l n (c ∷ cs) (here, rest) = (
    ap (λ (r : CandidateRef). record { layer = l; node = r.node }) here,
    relabel-AreNodes k l (suc n) cs rest,
  )

  restamp-AreLayers :
      (k i : ℕ) (layers : List (List (Candidate Edge Point)))
      → i + length layers ≤ u32_mod
      → AreLayers k layers
      → AreLayers i (restamp i layers)
  unfolding restamp
  restamp-AreLayers k i [] small h = tt
  restamp-AreLayers k i (cs ∷ rest) small (here, above) = (
    subst (λ l. AreNodes i 0 (map (relabel l) cs)) (sym (as_u32_of_lt i (omega arith)))
        (relabel-AreNodes k i 0 cs here),
    restamp-AreLayers (suc k) (suc i) rest (omega arith) above,
  )

  drop-AreLayers :
      (n l : ℕ) (layers : List (List (Candidate Edge Point)))
      → AreLayers l layers
      → AreLayers (l + n) (drop n layers)
  drop-AreLayers zero l layers h = subst (λ k. AreLayers k layers) (sym (plus_zero l)) h
  drop-AreLayers (suc n) l [] h = tt
  drop-AreLayers (suc n) l (cs ∷ rest) (_, above) =
      subst (λ k. AreLayers k (drop n rest)) (shift l n) (drop-AreLayers n (suc l) rest above)

  append-AreLayers :
      (l : ℕ) (layers : List (List (Candidate Edge Point))) (cs : List (Candidate Edge Point))
      → AreLayers l layers
      → AreNodes (l + length layers) 0 cs
      → AreLayers l (layers ++ (cs ∷ []))
  append-AreLayers l [] cs h new = (subst (λ k. AreNodes k 0 cs) (plus_zero l) new, tt)
  append-AreLayers l (xs ∷ rest) cs (here, above) new = (
    here,
    append-AreLayers (suc l) rest cs above
        (subst (λ k. AreNodes k 0 cs) (sym (shift l (length rest))) new),
  )

  -- A store whose candidates carry their places, of at most 2^32 layers, still is one after `tail`.
  pub store_tail-AreLayers :
      (n : ℕ) (s : CandidateStore Edge Point)
      → length s.layers ≤ u32_mod
      → AreLayers 0 s.layers
      → AreLayers 0 (store_tail n s).layers
  unfolding store_tail
  store_tail-AreLayers n s small h = elim (Bool-cases (length s.layers - n == 0)) [
    | inl stays ↦ rw stays h
    | inr cuts ↦
        let cut = length s.layers - n in
        rw cuts (
          restamp-AreLayers cut 0 (drop cut s.layers) (omega (arith, length-drop cut s.layers)) (
            subst (λ k. AreLayers k (drop cut s.layers)) (zero_plus cut)
              (drop-AreLayers cut 0 s.layers h)))
  ]

  -- Stamped with the next layer's id, fewer than 2^32 candidates extend such a store to such a store.
  pub store_layer-AreLayers :
      (cs : List (Candidate Edge Point)) (s : CandidateStore Edge Point)
      → length cs ≤ u32_mod
      → AreLayers 0 s.layers
      → AreLayers 0 (store_layer (stamp (length s.layers) 0 cs) s).layers
  store_layer-AreLayers cs s small h =
      append-AreLayers 0 s.layers (stamp (length s.layers) 0 cs) h (
        subst (λ k. AreNodes k 0 (stamp (length s.layers) 0 cs)) (sym (zero_plus (length s.layers)))
          (stamp-AreNodes (length s.layers) 0 cs (omega arith)))

  node_at :
      (l n : ℕ) (cs : List (Candidate Edge Point)) (i : ℕ) {c : Candidate Edge Point}
      → AreNodes l n cs
      → get_elem? cs i ≡ some c
      → c.location ≡ record { layer = l; node = n + i }
  node_at l n [] i h e = absurd (ground arith)
  node_at l n (x ∷ cs) zero {c} (here, rest) e =
      subst (λ (y : Candidate Edge Point). y.location ≡ record { layer = l; node = n + 0 })
        (some-injective x c e) (here ∙ ap (λ k. record { layer = l; node = k }) (sym (plus_zero n)))
  node_at l n (x ∷ cs) (suc i) (here, rest) e =
      node_at l (suc n) cs i rest e ∙ ap (λ k. record { layer = l; node = k }) (shift n i)

  layer_at :
      (l : ℕ) (layers : List (List (Candidate Edge Point))) (i : ℕ)
      {cs : List (Candidate Edge Point)}
      → AreLayers l layers
      → get_elem? layers i ≡ some cs
      → AreNodes (l + i) 0 cs
  layer_at l [] i h e = absurd (ground arith)
  layer_at l (xs ∷ layers) zero {cs} (here, above) e =
      subst (λ k. AreNodes k 0 cs) (sym (plus_zero l))
        (subst (AreNodes l 0) (some-injective xs cs e) here)
  layer_at l (xs ∷ layers) (suc i) {cs} (here, above) e =
      subst (λ k. AreNodes k 0 cs) (shift l i) (layer_at (suc l) layers i above e)

  -- In such a store, the candidate behind a reference carries that reference.
  pub store_candidate-location :
      (r : CandidateRef) (s : CandidateStore Edge Point) (c : Candidate Edge Point)
      → AreLayers 0 s.layers
      → store_candidate r s ≡ some c
      → c.location ≡ r
  store_candidate-location r s c h e =
      let (cs, found, inside) = >>=-eq-some (get_elem? s.layers r.layer) _ e in
      node_at (0 + r.layer) 0 cs r.node (layer_at 0 s.layers r.layer h found) inside
      ∙ ap₂ (λ l n. record { layer = l; node = n }) (zero_plus r.layer) (zero_plus r.node)
