-- ===== src/Trellis/Shape.antt =====
-- How the transitions of a trellis fit its widths.
use routers.Common.{
  ℕ, zero, suc, ◌-◌, ◌*◌, ◌≤◌, ◌<◌, ◌≡◌, refl, ap, List, [], ◌∷◌, ◌++◌, some, arith, length,
  get_elem?, set, replicate, take, drop, All,
}
use routers.Trellis.Types.{Transition, pending, resolved, inf_w}
use routers.Trellis.Graph.{pending_between}

-- A resolved boundary has a weight for each pair of nodes, at most the infinity.
abbrev pub Fits : ℕ → Transition → Type 0
Fits n pending = Unit
Fits n (resolved ws) = (length ws ≡ n) × All (λ w. w ≤ inf_w) ws

abbrev pub IsNil {ℓ} : {A : Type ℓ} → List A → Type 0
IsNil [] = Unit
IsNil (x ∷ xs) = ⊥

-- One transition for each pair of neighbouring layers, and each fits.
abbrev pub IsShaped : List ℕ → List Transition → Type 0
IsShaped [] ts = IsNil ts
IsShaped (w ∷ []) ts = IsNil ts
IsShaped (w ∷ v ∷ ws) [] = ⊥
IsShaped (w ∷ v ∷ ws) (x ∷ ts) = Fits (w * v) x × IsShaped (v ∷ ws) ts

pub IsShaped-length :
    (ws : List ℕ) (ts : List Transition) → IsShaped ws ts → length ts ≡ length ws - 1
IsShaped-length [] [] h = refl
IsShaped-length [] (x ∷ ts) h = absurd h
IsShaped-length (w ∷ []) [] h = refl
IsShaped-length (w ∷ []) (x ∷ ts) h = absurd h
IsShaped-length (w ∷ v ∷ ws) [] h = absurd h
IsShaped-length (w ∷ v ∷ ws) (x ∷ ts) h = omega (arith, IsShaped-length (v ∷ ws) ts h.1)

pub IsShaped-get_elem? :
    (ws : List ℕ) (ts : List Transition) (i : ℕ) {w v : ℕ} {x : Transition}
    → IsShaped ws ts
    → get_elem? ws i ≡ some w
    → get_elem? ws (suc i) ≡ some v
    → get_elem? ts i ≡ some x
    → Fits (w * v) x
IsShaped-get_elem? [] ts i h p q r = absurd (ground arith)
IsShaped-get_elem? (a ∷ []) ts i h p q r = absurd (ground arith)
IsShaped-get_elem? (a ∷ b ∷ ws) [] i h p q r = absurd h
IsShaped-get_elem? (a ∷ b ∷ ws) (x ∷ ts) zero h p q r = ground (arith, h.0)
IsShaped-get_elem? (a ∷ b ∷ ws) (x ∷ ts) (suc i) h p q r =
    IsShaped-get_elem? (b ∷ ws) ts i h.1 p q r

pub IsShaped-set :
    (ws : List ℕ) (ts : List Transition) (i : ℕ) (x : Transition) {w v : ℕ}
    → IsShaped ws ts
    → get_elem? ws i ≡ some w
    → get_elem? ws (suc i) ≡ some v
    → Fits (w * v) x
    → IsShaped ws (set ts i x)
IsShaped-set [] ts i x h p q f = absurd (ground arith)
IsShaped-set (a ∷ []) ts i x h p q f = absurd (ground arith)
IsShaped-set (a ∷ b ∷ ws) [] i x h p q f = absurd h
IsShaped-set (a ∷ b ∷ ws) (y ∷ ts) zero x h p q f = (ground (arith, f), h.1)
IsShaped-set (a ∷ b ∷ ws) (y ∷ ts) (suc i) x h p q f = (h.0, IsShaped-set (b ∷ ws) ts i x h.1 p q f)

pub IsShaped-append :
    (ws : List ℕ) (ts : List Transition) (v : ℕ)
    → 0 < length ws
    → IsShaped ws ts
    → IsShaped (ws ++ v ∷ []) (ts ++ pending ∷ [])
IsShaped-append [] ts v p h = absurd (omega arith)
IsShaped-append (a ∷ []) [] v p h = (tt, tt)
IsShaped-append (a ∷ []) (x ∷ ts) v p h = absurd h
IsShaped-append (a ∷ b ∷ ws) [] v p h = absurd h
IsShaped-append (a ∷ b ∷ ws) (x ∷ ts) v p h = (h.0, IsShaped-append (b ∷ ws) ts v (omega arith) h.1)

pub IsShaped-pending_between : (ws : List ℕ) → IsShaped ws (pending_between ws)
unfolding pending_between
IsShaped-pending_between [] = tt
IsShaped-pending_between (w ∷ []) = tt
IsShaped-pending_between (w ∷ v ∷ ws) = (tt, IsShaped-pending_between (v ∷ ws))

pub IsShaped-drop :
    (n : ℕ) (ws : List ℕ) (ts : List Transition)
    → n < length ws
    → IsShaped ws ts
    → IsShaped (drop n ws) (drop n ts)
IsShaped-drop zero ws ts p h = h
IsShaped-drop (suc n) [] ts p h = absurd (omega arith)
IsShaped-drop (suc n) (a ∷ []) ts p h = absurd (omega arith)
IsShaped-drop (suc n) (a ∷ b ∷ ws) [] p h = absurd h
IsShaped-drop (suc n) (a ∷ b ∷ ws) (x ∷ ts) p h = IsShaped-drop n (b ∷ ws) ts (omega arith) h.1

pub IsShaped-take :
    (n : ℕ) (ws : List ℕ) (ts : List Transition)
    → IsShaped ws ts
    → IsShaped (take (suc n) ws) (take n ts)
IsShaped-take n [] [] h = take_nil n
  where
    take_nil : (k : ℕ) → IsNil (take {A = Transition} k [])
    take_nil zero = tt
    take_nil (suc k) = tt
IsShaped-take n [] (x ∷ ts) h = absurd h
IsShaped-take zero (a ∷ []) ts h = tt
IsShaped-take (suc n) (a ∷ []) [] h = tt
IsShaped-take (suc n) (a ∷ []) (x ∷ ts) h = absurd h
IsShaped-take zero (a ∷ b ∷ ws) ts h = tt
IsShaped-take (suc n) (a ∷ b ∷ ws) [] h = absurd h
IsShaped-take (suc n) (a ∷ b ∷ ws) (x ∷ ts) h = (h.0, IsShaped-take n (b ∷ ws) ts h.1)

pub Fits-replicate : (n : ℕ) → Fits n (resolved (replicate n inf_w))
Fits-replicate zero = (refl, tt)
Fits-replicate (suc n) = let h = Fits-replicate n in (ap suc h.0, (omega arith, h.1))
