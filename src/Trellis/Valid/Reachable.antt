-- ===== src/Trellis/Valid/Reachable.antt =====
-- Every trellis that a caller can build, and that the invariant holds of it.
use routers.Common.{ℕ, ◌<◌, ◌≡◌, List, All, subst, length, u32_mod}
use routers.Common.Outcome.{Outcome, ok, Safe}
use routers.Trellis.Types.{LayerId, NodeId}
use routers.Trellis.Graph.{Trellis, sum, new}
use routers.Trellis.Edit.{
  mark_pending, set_edge, add_layer, fill_transition, fill_nodes, partition, last,
}
use routers.Trellis.Valid.Invariant.{IsValid}
use routers.Trellis.Valid.Keeps.{
  mark_pending-Safe, set_edge-Safe, add_layer-Safe, fill_transition-Safe,
}
use routers.Trellis.Valid.Windows.{new-Safe, fill_nodes-Safe, partition-Safe, last-Safe}

-- The calls that returned `Ok`, in any order; numbers that the source types as `u32` are below 2^32, the sum
-- of the widths given to `new` does not wrap, and `last` is called with fewer than 2^32 layers.
pub data Built : Trellis → Type 0 where
  created :
      (ws : List ℕ) {t : Trellis}
      → All (λ w. w < u32_mod) ws
      → sum ws < u32_mod
      → new ws ≡ ok t
      → Built t
  marked : (t : Trellis) {u : Trellis} (l : LayerId) → Built t → mark_pending l t ≡ ok u → Built u
  linked :
      (t : Trellis) {u : Trellis} (l : LayerId) (from to : NodeId) (weight : ℕ)
      → Built t
      → set_edge l from to weight t ≡ ok u
      → Built u
  grown :
      (t : Trellis) {u : Trellis} (id : LayerId) (width : ℕ)
      → width < u32_mod
      → Built t
      → add_layer width t ≡ ok (u, id)
      → Built u
  filled :
      (t : Trellis) {u : Trellis} (l : LayerId) (rows : List ℕ)
      → Built t
      → fill_transition l rows t ≡ ok u
      → Built u
  weighed :
      (t : Trellis) {u : Trellis} (l : LayerId) (weights : List ℕ)
      → Built t
      → fill_nodes l weights t ≡ ok u
      → Built u
  cut :
      (t : Trellis) {u : Trellis} (start stop : LayerId)
      → stop < u32_mod
      → Built t
      → partition start stop t ≡ ok u
      → Built u
  windowed :
      (t : Trellis) {u : Trellis} (n : ℕ)
      → length t.widths < u32_mod
      → Built t
      → last n t ≡ ok u
      → Built u

returned {ℓ κ} :
    {E : Type κ} {A : Type ℓ} (P : A → Type 0) {m : Outcome E A} {a : A} → m ≡ ok a → Safe P m → P a
returned P e h = subst (Safe P) e h

-- A trellis is valid if it is built by calls of `new`, `mark_pending`, `set_edge`, `add_layer`,
-- `fill_transition`, `fill_nodes`, `partition` and `last`, in any order, that returned `Ok`, where the widths
-- given to `new` sum to less than 2^32, those given to `add_layer` and the ends given to `partition` are below
-- 2^32, and `last` is called on fewer than 2^32 layers.
pub Built-IsValid : {t : Trellis} → Built t → IsValid t
Built-IsValid (created ws small total e) = returned IsValid e (new-Safe ws small total)
Built-IsValid (marked t l b e) = returned IsValid e (mark_pending-Safe l t (Built-IsValid b))
Built-IsValid (linked t l from to weight b e) =
    returned IsValid e (set_edge-Safe l from to weight t (Built-IsValid b))
Built-IsValid (grown t id width h b e) =
    returned (λ r. IsValid r.0) e (add_layer-Safe width t h (Built-IsValid b))
Built-IsValid (filled t l rows b e) =
    returned IsValid e (fill_transition-Safe l rows t (Built-IsValid b))
Built-IsValid (weighed t l weights b e) =
    returned IsValid e (fill_nodes-Safe l weights t (Built-IsValid b))
Built-IsValid (cut t start stop h b e) =
    returned IsValid e (partition-Safe start stop t h (Built-IsValid b))
Built-IsValid (windowed t n h b e) = returned IsValid e (last-Safe n t h (Built-IsValid b))
