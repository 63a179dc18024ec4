-- ===== src/Realtime/Fleet.antt =====
-- libs/routers_realtime/bin/orchestrator.rs: the partitions that a pod owns. A name is a list of character
-- codes.
use routers.Common.{
  ℕ, ◌+◌, ◌-◌, ◌*◌, ◌/◌, List, [], ◌∷◌, Option, none, some, true, false, ◌&&◌, not, if◌then◌else◌,
  ltb, leb, ◌==◌,
}
use routers.Common.Outcome.{Outcome, ok, err, ◌>>=◌, ◌>>◌, fail_if, ok_or}
use routers.Realtime.Partition.{partitions, u64_mod}

pub data FleetError : Type 0 where
  no_identity : FleetError
  bad_fleet : ℕ → FleetError
  no_ordinal : FleetError
  bad_ordinal : (ordinal fleet : ℕ) → FleetError

-- `rsplit('-').next()`: what follows the last dash, or all.
unfoldable pub after_dash : List ℕ → List ℕ → List ℕ
after_dash found [] = found
after_dash found (c ∷ cs) = elim (c == 45) [ true ↦ after_dash cs cs | false ↦ after_dash found cs ]

-- The digits of a `u64`; a sum that leaves the word is an error.
unfoldable pub digits_from : ℕ → List ℕ → Option ℕ
digits_from value [] = some value
digits_from value (c ∷ cs) =
    let value' = value * 10 + (c - 48) in
    elim (leb 48 c && leb c 57 && ltb value' u64_mod) [
      | true ↦ digits_from value' cs
      | false ↦ none
    ]

-- `parse::<u64>()`: an optional plus, and at least one digit.
unfoldable pub parse_u64 : List ℕ → Option ℕ
unfolding digits_from
parse_u64 [] = none
parse_u64 (c ∷ []) = digits_from 0 (c ∷ [])
parse_u64 (c ∷ d ∷ cs) = if c == 43 then digits_from 0 (d ∷ cs) else digits_from 0 (c ∷ d ∷ cs)

unfoldable pub ordinal_of : List ℕ → Option ℕ
unfolding after_dash parse_u64
ordinal_of name = parse_u64 (after_dash name name)

-- The first and the last partition of an ordinal.
unfoldable pub block : ℕ → ℕ → ℕ × ℕ
block fleet ordinal =
    let chunk = partitions / fleet in
    (ordinal * chunk, if ordinal == fleet - 1 then partitions - 1 else (ordinal + 1) * chunk - 1)

-- What follows when the slice is not explicit.
unfoldable pub owned_by : List ℕ → ℕ → Outcome FleetError (ℕ × ℕ)
unfolding ordinal_of block
owned_by name fleet = do
  fail_if (not (leb 1 fleet && leb fleet partitions)) (bad_fleet fleet)
  ordinal ← ok_or (ordinal_of name) no_ordinal
  fail_if (not (ltb ordinal fleet)) (bad_ordinal ordinal fleet)
  ok (block fleet ordinal)

unfoldable pub owned_partitions :
    Option (ℕ × ℕ) → Option (List ℕ) → Option ℕ → Outcome FleetError (ℕ × ℕ)
unfolding owned_by
owned_partitions (some range) pod_name fleet = ok range
owned_partitions none (some name) (some fleet) = owned_by name fleet
owned_partitions none (some name) none = err no_identity
owned_partitions none none fleet = err no_identity
