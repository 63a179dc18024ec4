-- ===== src/Realtime/Partition.antt =====
-- libs/routers_realtime/src/partition.rs: the stable hashes and the partition of a vehicle, on 64-bit words.
use Prim.Native.Nat.{bit_xor}
use native.Mathlib.Nat.{mod-lt}
use routers.Common.{ℕ, ◌*◌, ◌/◌, ◌%◌, ◌^◌, ◌<◌, List, [], ◌∷◌, arith}

abbrev pub u64_mod : ℕ
u64_mod = 2 ^ 64

abbrev pub partitions : ℕ
partitions = 1024

-- The loop over the bytes.
unfoldable pub fnv1a_from : ℕ → List ℕ → ℕ
fnv1a_from hash [] = hash
fnv1a_from hash (byte ∷ bytes) = fnv1a_from (bit_xor hash byte * 0x00000100000001b3 % u64_mod) bytes

unfoldable pub fnv1a : List ℕ → ℕ
unfolding fnv1a_from
fnv1a bytes = fnv1a_from 0xcbf29ce484222325 bytes

unfoldable pub mix : ℕ → ℕ
mix x =
    let a = bit_xor x (x / 2 ^ 30) in
    let b = a * 0xbf58476d1ce4e5b9 % u64_mod in
    let c = bit_xor b (b / 2 ^ 27) in
    let d = c * 0x94d049bb133111eb % u64_mod in bit_xor d (d / 2 ^ 31)

-- A vehicle is its 64-bit id.
unfoldable pub partition_of : ℕ → ℕ
unfolding mix
partition_of vehicle = mix vehicle % partitions

pub partition_of-lt : (vehicle : ℕ) → partition_of vehicle < partitions
unfolding partition_of
partition_of-lt vehicle = mod-lt (mix vehicle) (omega arith)
