-- ===== src/Tests/Fleets.antt =====
-- The reference vectors of libs/routers_realtime/src/partition.rs, and the owner of a vehicle.
use routers.Common.{ℕ, ◌<◌, ◌≡◌, ◌↔◌, refl, List, [], ◌∷◌, some, none, arith}
use routers.Common.Outcome.{ok}
use routers.Realtime.Partition.{fnv1a, fnv1a_from, mix, partition_of}
use routers.Realtime.Fleet.{
  ordinal_of, owned_partitions, after_dash, parse_u64, digits_from, owned_by, block,
}
use routers.Realtime.Owners.{Handles, partition_of-owned_partitions}

fnv1a_empty : fnv1a [] ≡ 0xcbf29ce484222325
unfolding fnv1a fnv1a_from
fnv1a_empty = refl

fnv1a_a : fnv1a (97 ∷ []) ≡ 0xaf63dc4c8601ec8c
unfolding fnv1a fnv1a_from
fnv1a_a = refl

mix_one : mix 1 ≡ 0x5692161d100b05e5
unfolding mix
mix_one = refl

mix_top : mix 0xffffffffffffffff ≡ 0xb4d055fcf2cbbd7b
unfolding mix
mix_top = refl

partition_one : partition_of 1 ≡ 485
unfolding partition_of mix
partition_one = refl

-- "pod-2" in a fleet of three.
abbrev pod : List ℕ
pod = 112 ∷ 111 ∷ 100 ∷ 45 ∷ 50 ∷ []

pod_owns : owned_partitions none (some pod) (some 3) ≡ ok (682, 1023)
unfolding owned_partitions owned_by ordinal_of after_dash parse_u64 digits_from block
pod_owns = refl

owner_example :
    (o : ℕ) × (o < 3)
    × ((name : List ℕ) (k : ℕ)
        → ordinal_of name ≡ some k
        → Handles (owned_partitions none (some name) (some 3)) (partition_of 1) ↔ (k ≡ o))
owner_example = partition_of-owned_partitions 1 3 (omega arith) (omega arith)
