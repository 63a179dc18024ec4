-- ===== src/Codec/Transport/Laws.antt =====
-- libs/routers_codec/src/osm/parsers/primitives/transport.rs: the laws of the hierarchy of modes.
use routers.Common.{
  suc, ◌≡◌, ap, ap₂, refl, ◌∙◌, subst, Bool, true, false, ◌&&◌, Option, some, none, List, [], ◌∷◌,
  ◌++◌, length, ◌==◌, arith, length-append,
}
use routers.Codec.Transport.Mode.{TransportMode, discriminant, mode_eq}
use routers.Codec.Transport.Modes.{modes}
use routers.Codec.Transport.Chain.{
  hierarchy_chain, contains, parent_modes, immediate_parent, specificity_level, last,
}
use routers.Codec.Transport.Checks.{every, of_modes, mode_eq-eq, every-contains, and_true}

same_modes : List TransportMode → List TransportMode → Bool
unfolding mode_eq
same_modes [] [] = true
same_modes (x ∷ xs) (y ∷ ys) = mode_eq x y && same_modes xs ys
same_modes _ _ = false

same_modes-eq : (xs ys : List TransportMode) → same_modes xs ys ≡ true → xs ≡ ys
unfolding same_modes
same_modes-eq [] [] e = refl
same_modes-eq [] (y ∷ ys) e = ground arith
same_modes-eq (x ∷ xs) [] e = ground arith
same_modes-eq (x ∷ xs) (y ∷ ys) e =
    let (head, tail) = and_true (mode_eq x y) e in
    ap₂ ◌∷◌ (mode_eq-eq x y head) (same_modes-eq xs ys tail)

abbrev ends : TransportMode → Bool
ends m = same_modes (hierarchy_chain m) (parent_modes m ++ m ∷ [])

all_end : every ends modes ≡ true
unfolding every same_modes hierarchy_chain parent_modes mode_eq discriminant
all_end = refl

-- The chain of a mode is the chain of its parents, and then the mode itself.
pub hierarchy_chain-parent_modes :
    (m : TransportMode) → hierarchy_chain m ≡ parent_modes m ++ m ∷ []
hierarchy_chain-parent_modes m =
    same_modes-eq (hierarchy_chain m) (parent_modes m ++ m ∷ []) (of_modes ends all_end m)

-- The parents of a mode against the chain of its immediate parent.
abbrev parent_test : TransportMode → Option TransportMode → Bool
parent_test m none = length (parent_modes m) == 0
parent_test m (some p) = same_modes (parent_modes m) (hierarchy_chain p)

abbrev fits : TransportMode → Bool
fits m = parent_test m (immediate_parent m)

all_fit : every fits modes ≡ true
unfolding every same_modes hierarchy_chain parent_modes immediate_parent last mode_eq discriminant
all_fit = refl

-- A mode with an immediate parent has the parent's chain, and then itself; its specificity is one more
-- than the parent's.
pub immediate_parent-hierarchy_chain :
    (m p : TransportMode)
    → immediate_parent m ≡ some p
    → (hierarchy_chain m ≡ hierarchy_chain p ++ m ∷ [])
      × (specificity_level m ≡ suc (specificity_level p))
unfolding specificity_level
immediate_parent-hierarchy_chain m p e =
    let same : same_modes (parent_modes m) (hierarchy_chain p) ≡ true =
      subst (λ o. parent_test m o ≡ true) e (of_modes fits all_fit m) in
    let chain : hierarchy_chain m ≡ hierarchy_chain p ++ m ∷ [] =
      hierarchy_chain-parent_modes m
      ∙ ap (λ xs. xs ++ m ∷ []) (same_modes-eq (parent_modes m) (hierarchy_chain p) same) in
    (chain, omega (arith, ap length chain, length-append (hierarchy_chain p) (m ∷ [])))

abbrev closed_in : TransportMode → TransportMode → Bool
closed_in m p = every (λ q. contains q (hierarchy_chain m)) (hierarchy_chain p)

abbrev closed : TransportMode → Bool
closed m = every (closed_in m) (hierarchy_chain m)

all_closed : every closed modes ≡ true
unfolding every contains hierarchy_chain mode_eq discriminant
all_closed = refl

-- When the chain of `m` contains `p` and the chain of `p` contains `q`, the chain of `m` contains `q`.
pub hierarchy_chain_trans :
    (m p q : TransportMode)
    → contains p (hierarchy_chain m) ≡ true
    → contains q (hierarchy_chain p) ≡ true
    → contains q (hierarchy_chain m) ≡ true
hierarchy_chain_trans m p q mp pq =
    every-contains (λ y. contains y (hierarchy_chain m)) (hierarchy_chain p) q
      (every-contains (closed_in m) (hierarchy_chain m) p (of_modes closed all_closed m) mp) pq
