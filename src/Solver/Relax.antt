-- ===== src/Solver/Relax.antt =====
-- One boundary of the forward pass: each cost of the new row is the least over the layer below, plus
-- the node's own weight.
use native.Mathlib.Nat.{mod-eq_of_lt}
use routers.Common.{
  ℕ, zero, suc, ◌+◌, ◌*◌, ◌≤◌, ◌<◌, ◌≡◌, ◌⊎◌, inl, inr, refl, ap, ◌∙◌, List, [], ◌∷◌, some, min,
  arith, dec_le, Bool-cases, sym, le→leb, length, get_elem?, take, drop, replicate, All, All-drop,
  All-get_elem?, get_elem?-some, length-drop, length-replicate, if◌then◌else◌, ltb, leb, u32_mod,
}
use routers.Trellis.Types.{inf_w, max_weight}
use routers.Solver.Forward.{add_u32, relax_row, relax, enter, next_row}

pub add_u32_of_lt : (a b : ℕ) → a + b < u32_mod → add_u32 a b ≡ a + b
unfolding add_u32
add_u32_of_lt a b h = mod-eq_of_lt h

get_elem?-take :
    {A : Type 0} (n : ℕ) (xs : List A) (j : ℕ) → j < n → get_elem? (take n xs) j ≡ get_elem? xs j
get_elem?-take zero xs j h = absurd (omega arith)
get_elem?-take (suc n) [] j h = refl
get_elem?-take (suc n) (x ∷ xs) zero h = refl
get_elem?-take (suc n) (x ∷ xs) (suc j) h = get_elem?-take n xs j (omega arith)

pub get_elem?-drop :
    {A : Type 0} (n : ℕ) (xs : List A) (j k : ℕ)
    → k ≡ n + j
    → get_elem? (drop n xs) j ≡ get_elem? xs k
get_elem?-drop zero xs j k e = ap (get_elem? xs) (omega arith)
get_elem?-drop (suc n) [] j k e = refl
get_elem?-drop (suc n) (x ∷ xs) j zero e = absurd (omega arith)
get_elem?-drop (suc n) (x ∷ xs) j (suc k) e = get_elem?-drop n xs j k (omega arith)

length-relax_row : (cost : ℕ) (next row : List ℕ) → length (relax_row cost next row) ≡ length next
unfolding relax_row
length-relax_row cost [] row = refl
length-relax_row cost (n ∷ ns) [] = refl
length-relax_row cost (n ∷ ns) (e ∷ row) = ap suc (length-relax_row cost ns row)

relax_row-get_elem? :
    (cost : ℕ) (next row : List ℕ) (j : ℕ) {a e : ℕ}
    → cost < inf_w
    → e ≤ inf_w
    → get_elem? next j ≡ some a
    → get_elem? row j ≡ some e
    → get_elem? (relax_row cost next row) j ≡ some (min a (cost + e))
unfolding relax_row
relax_row-get_elem? cost [] row j c k p q = absurd (ground arith)
relax_row-get_elem? cost (n ∷ ns) [] j c k p q = absurd (ground arith)
relax_row-get_elem? cost (n ∷ ns) (x ∷ row) zero {e} c k p q = ground (arith, add_u32_of_lt cost x)
relax_row-get_elem? cost (n ∷ ns) (x ∷ row) (suc j) c k p q =
    relax_row-get_elem? cost ns row j c k p q

-- The row after one cost of the layer below.
abbrev relaxed : ℕ → ℕ → List ℕ → List ℕ → List ℕ
relaxed width cost weights next =
    if ltb cost inf_w then relax_row cost next (take width weights) else next

length-relaxed :
    (width cost : ℕ) (ws next : List ℕ) → length (relaxed width cost ws next) ≡ length next
length-relaxed width cost ws next = elim (Bool-cases (ltb cost inf_w)) [
  | inl e ↦ rw e (length-relax_row cost next (take width ws))
  | inr e ↦ rw e refl
]

relaxed-get_elem? :
    (width cost : ℕ) (ws next : List ℕ) (j : ℕ) {a e : ℕ}
    → j < width
    → e ≤ inf_w
    → get_elem? next j ≡ some a
    → get_elem? ws j ≡ some e
    → get_elem? (relaxed width cost ws next) j
      ≡ some (if ltb cost inf_w then min a (cost + e) else a)
relaxed-get_elem? width cost ws next j {a} {e} h k p q = elim (Bool-cases (ltb cost inf_w)) [
  | inl live ↦ rw live (
      relax_row-get_elem? cost next (take width ws) j (ground arith) k p
        (get_elem?-take width ws j h ∙ q))
  | inr dead ↦ rw dead p
]

-- The cost `c` of a node of the layer below and the weight `e` of its edge into node `j`.
pub record Enters (width : ℕ) (costs ws : List ℕ) (j i c e : ℕ) : Type 0 where
  pub cost_eq : get_elem? costs i ≡ some c
  pub edge_eq : get_elem? ws (i * width + j) ≡ some e
  pub live : c < inf_w

-- A cost `d` is the least of `a` and the sums over the edges into `j`.
pub record IsLeast (width : ℕ) (costs ws : List ℕ) (j a d : ℕ) : Type 0 where
  pub le_start : d ≤ a
  pub le_sum : (i c e : ℕ) → Enters width costs ws j i c e → d ≤ c + e
  pub attained :
      (d ≡ a) ⊎ ((i : ℕ) × (c : ℕ) × (e : ℕ) × Enters width costs ws j i c e × (d ≡ c + e))

get_elem?-nil : (i : ℕ) {c : ℕ} → get_elem? [] i ≡ some c → ⊥
get_elem?-nil i e = ground arith

row_index : (i width j : ℕ) → suc i * width + j ≡ width + (i * width + j)
row_index i width j = grind arith

Enters-suc :
    (width cost : ℕ) (costs ws : List ℕ) (j i : ℕ) {c e : ℕ}
    → Enters width costs (drop width ws) j i c e
    → Enters width (cost ∷ costs) ws j (suc i) c e
Enters-suc width cost costs ws j i x = record {
  cost_eq = x.cost_eq;
  edge_eq = sym (get_elem?-drop width ws (i * width + j) _ (row_index i width j)) ∙ x.edge_eq;
  live = x.live;
}

Enters-pred :
    (width cost : ℕ) (costs ws : List ℕ) (j i : ℕ) {c e : ℕ}
    → Enters width (cost ∷ costs) ws j (suc i) c e
    → Enters width costs (drop width ws) j i c e
Enters-pred width cost costs ws j i x = record {
  cost_eq = x.cost_eq;
  edge_eq = get_elem?-drop width ws (i * width + j) _ (row_index i width j) ∙ x.edge_eq;
  live = x.live;
}

-- The first cost is tried before the others.
IsLeast-cons :
    (width cost : ℕ) (costs ws : List ℕ) (j a e0 d : ℕ)
    → get_elem? ws j ≡ some e0
    → IsLeast width costs (drop width ws) j (if ltb cost inf_w then min a (cost + e0) else a) d
    → IsLeast width (cost ∷ costs) ws j a d
IsLeast-cons width cost costs ws j a e0 d q least = record {
  le_start = ground (arith, least.le_start);
  le_sum = le_sum;
  attained = attained;
}
  where
    le_sum : (i c e : ℕ) → Enters width (cost ∷ costs) ws j i c e → d ≤ c + e
    le_sum zero c e x =
        let edge : some e0 ≡ some e = sym q ∙ (ap (get_elem? ws) (omega arith) ∙ x.edge_eq) in
        ground (arith, least.le_start, x.cost_eq, x.live)
    le_sum (suc i) c e x = least.le_sum i c e (Enters-pred width cost costs ws j i x)

    first :
        d ≡ (if ltb cost inf_w then min a (cost + e0) else a)
        → (d ≡ a) ⊎ ((cost < inf_w) × (d ≡ cost + e0))
    first same = elim (Bool-cases (ltb cost inf_w)) [
      | inl live ↦
          let same' : d ≡ min a (cost + e0) = rw live at same in
          elim (dec_le a (cost + e0)) [
            | yes h ↦ inl (omega arith)
            | no h ↦ inr (ground arith, omega arith)
          ]
      | inr dead ↦ inl (rw dead at same)
    ]

    here :
        (d ≡ a) ⊎ ((cost < inf_w) × (d ≡ cost + e0))
        → (d ≡ a)
          ⊎ ((i : ℕ) × (c : ℕ) × (e : ℕ) × Enters width (cost ∷ costs) ws j i c e × (d ≡ c + e))
    here (inl same) = inl same
    here (inr (live, same)) = inr (
      0,
      cost,
      e0,
      record { cost_eq = refl; edge_eq = ap (get_elem? ws) (omega arith) ∙ q; live = live },
      same,
    )

    attained :
        (d ≡ a)
        ⊎ ((i : ℕ) × (c : ℕ) × (e : ℕ) × Enters width (cost ∷ costs) ws j i c e × (d ≡ c + e))
    attained = elim least.attained [
      | inl same ↦ here (first same)
      | inr (i, c, e, x, same) ↦ inr (suc i, c, e, Enters-suc width cost costs ws j i x, same)
    ]

-- A new cost is the least over all live nodes below; it starts at `a`.
pub relax-IsLeast :
    (width : ℕ) (costs ws next : List ℕ) (j : ℕ) {a : ℕ}
    → length ws ≡ length costs * width
    → length next ≡ width
    → j < width
    → All (λ w. w ≤ inf_w) ws
    → get_elem? next j ≡ some a
    → (d : ℕ) × (get_elem? (relax width costs ws next) j ≡ some d) × IsLeast width costs ws j a d
unfolding relax
relax-IsLeast width [] ws next j {a} size n h bound p = (
  a,
  p,
  record {
    le_start = omega arith;
    le_sum = λ i c e x. absurd (get_elem?-nil i x.cost_eq);
    attained = inl refl;
  },
)
relax-IsLeast width (cost ∷ costs) ws next j {a} size n h bound p =
    let fits : width ≤ length ws = grind arith in
    let (e0, q) = get_elem?-some ws j (omega arith) in
    let here = relaxed-get_elem? width cost ws next j h (All-get_elem? _ ws j bound q) p q in
    let (d, found, least) =
      relax-IsLeast width costs (drop width ws) (relaxed width cost ws next) j
        (grind (arith, length-drop width ws)) (length-relaxed width cost ws next ∙ n) h
        (All-drop _ width ws bound) here in
    (d, rw (le→leb width (length ws) fits) found, IsLeast-cons width cost costs ws j a e0 d q least)

pub length-relax :
    (width : ℕ) (costs ws next : List ℕ) → length (relax width costs ws next) ≡ length next
unfolding relax
length-relax width [] ws next = refl
length-relax width (cost ∷ costs) ws next = elim (Bool-cases (leb width (length ws))) [
  | inl e ↦ rw e (
      length-relax width costs (drop width ws) (relaxed width cost ws next)
      ∙ length-relaxed width cost ws next)
  | inr e ↦ rw e refl
]

length-enter : (next ws : List ℕ) → length (enter next ws) ≡ length next
unfolding enter
length-enter [] ws = refl
length-enter (n ∷ ns) [] = refl
length-enter (n ∷ ns) (w ∷ ws) = ap suc (length-enter ns ws)

enter-get_elem? :
    (next ws : List ℕ) (j : ℕ) {a w : ℕ}
    → w ≤ max_weight
    → get_elem? next j ≡ some a
    → get_elem? ws j ≡ some w
    → get_elem? (enter next ws) j ≡ some (if ltb a inf_w then a + w else a)
unfolding enter
enter-get_elem? [] ws j h p q = absurd (get_elem?-nil j p)
enter-get_elem? (n ∷ ns) [] j h p q = absurd (get_elem?-nil j q)
enter-get_elem? (n ∷ ns) (x ∷ ws) zero h p q = ground (arith, add_u32_of_lt n x)
enter-get_elem? (n ∷ ns) (x ∷ ws) (suc j) h p q = enter-get_elem? ns ws j h p q

pub length-next_row :
    (cur ws : List ℕ) (width : ℕ) (nodes : List ℕ) → length (next_row cur ws width nodes) ≡ width
unfolding next_row
length-next_row cur ws width nodes =
    length-enter (relax width cur ws (replicate width inf_w)) nodes
    ∙ length-relax width cur ws (replicate width inf_w)
    ∙ length-replicate {A = ℕ} width inf_w

get_elem?-replicate : (n j a : ℕ) → j < n → get_elem? (replicate n a) j ≡ some a
get_elem?-replicate zero j a h = absurd (omega arith)
get_elem?-replicate (suc n) zero a h = refl
get_elem?-replicate (suc n) (suc j) a h = get_elem?-replicate n j a (omega arith)

-- One round of the forward pass over a full table of weights in range leaves at node `j` the least sum
-- `d`, capped at the infinity, of a live cost below and its edge into `j`; with the node's weight added
-- if `d` is below the infinity.
pub next_row-IsLeast :
    (cur ws : List ℕ) (width : ℕ) (nodes : List ℕ) (j : ℕ) {w : ℕ}
    → length ws ≡ length cur * width
    → j < width
    → All (λ e. e ≤ inf_w) ws
    → w ≤ max_weight
    → get_elem? nodes j ≡ some w
    → (d : ℕ) × (get_elem? (next_row cur ws width nodes) j
        ≡ some (if ltb d inf_w then d + w else d))
      × IsLeast width cur ws j inf_w d
unfolding next_row
next_row-IsLeast cur ws width nodes j size h bound small q =
    let (d, found, least) =
      relax-IsLeast width cur ws (replicate width inf_w) j size
        (length-replicate {A = ℕ} width inf_w) h bound (get_elem?-replicate width j inf_w h) in
    (d, enter-get_elem? (relax width cur ws (replicate width inf_w)) nodes j small found q, least)
