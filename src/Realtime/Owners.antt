-- ===== src/Realtime/Owners.antt =====
-- Every vehicle is handled by exactly one pod of a fleet.
use native.Mathlib.Nat.{div-mul-le_self, lt-div-mul-add, mul-le-mul_right}
use routers.Common.{
  ℕ, suc, ◌+◌, ◌-◌, ◌*◌, ◌/◌, ◌≤◌, ◌<◌, ◌≡◌, ◌≢◌, ◌↔◌, refl, ap, ◌∙◌, sym, subst, List, none, some,
  false, arith, ◌==◌, le→leb, lt→ltb, le→ltb, eq→==, dec_lt, ℕ_discrete,
}
use routers.Common.Outcome.{Outcome, ok, err, panic}
use routers.Realtime.Partition.{partitions, partition_of, partition_of-lt}
use routers.Realtime.Fleet.{FleetError, bad_ordinal, ordinal_of, block, owned_by, owned_partitions}

-- A partition within a block.
abbrev pub Within : ℕ × ℕ → ℕ → Type 0
Within range p = (range.0 ≤ p) × (p ≤ range.1)

-- What a pod answers: a slice that holds the partition.
abbrev pub Handles : Outcome FleetError (ℕ × ℕ) → ℕ → Type 0
Handles (ok range) p = Within range p
Handles (err e) p = ⊥
Handles panic p = ⊥

ne→== : (a b : ℕ) → a ≢ b → (a == b) ≡ false
ne→== a b h = ground arith

block-last :
    (fleet : ℕ) → block fleet (fleet - 1) ≡ ((fleet - 1) * (partitions / fleet), partitions - 1)
unfolding block
block-last fleet = rw (eq→== (fleet - 1) (fleet - 1) refl) refl

block-inner :
    (fleet ordinal : ℕ)
    → ordinal ≢ fleet - 1
    → block fleet ordinal
      ≡ (ordinal * (partitions / fleet), (ordinal + 1) * (partitions / fleet) - 1)
unfolding block
block-inner fleet ordinal h = rw (ne→== ordinal (fleet - 1) h) refl

module _ (fleet : ℕ) (some_pod : 1 ≤ fleet) (fits : fleet ≤ partitions) where
  abbrev chunk : ℕ
  chunk = partitions / fleet

  -- The blocks are not empty.
  chunk-pos : 0 < partitions / fleet
  chunk-pos = elim (dec_lt 0 (partitions / fleet)) [
    | yes h ↦ h
    | no h ↦ absurd (
        empty_block (partitions / fleet) (omega arith)
          (lt-div-mul-add {a = partitions} {b = fleet} (omega arith)))
  ]
    where
      empty_block : (c : ℕ) → c ≡ 0 → partitions < c * fleet + fleet → ⊥
      empty_block c e h =
          absurd (omega (arith, subst (λ n. partitions < n * fleet + fleet) e h, zero_times))
        where
          zero_times : 0 * fleet ≡ 0
          zero_times = grind arith

  chunk-pos' : 1 ≤ partitions / fleet
  chunk-pos' = omega (arith, chunk-pos)

  lower : (o p : ℕ) → Within (block fleet o) p → o * (partitions / fleet) ≤ p
  lower o p h = elim (ℕ_discrete o (fleet - 1)) [
    | yes e ↦
        subst (λ n. n * (partitions / fleet) ≤ p) (sym e)
          (subst (λ r. Within r p) (ap (block fleet) e ∙ block-last fleet) h).0
    | no ne ↦ (subst (λ r. Within r p) (block-inner fleet o ne) h).0
  ]

  suc_times : (o c : ℕ) → (o + 1) * c ≡ o * c + c
  suc_times o c = grind arith

  upper :
      (o p : ℕ)
      → o < fleet - 1
      → Within (block fleet o) p
      → p < o * (partitions / fleet) + partitions / fleet
  upper o p h k =
      let inside =
        (subst (λ r. Within r p) (block-inner fleet o (λ e. absurd (omega (arith, e)))) k).1 in
      omega (arith, inside, suc_times o (partitions / fleet), chunk-pos)

  -- A block ends before a later one starts.
  times_le : (k o c : ℕ) → k < o → k * c + c ≤ o * c
  times_le k o c h = omega (arith, mul-le-mul_right c h, suc_row k c)
    where
      suc_row : (i d : ℕ) → suc i * d ≡ i * d + d
      suc_row i d = grind arith

  apart : (k o p : ℕ) → k < o → o < fleet → Within (block fleet k) p → Within (block fleet o) p → ⊥
  apart k o p h inside wk wo =
      absurd (
        omega
          (arith, upper k p (omega arith) wk, lower o p wo, times_le k o (partitions / fleet) h))

  -- The block of a partition.
  find_block : (p : ℕ) → p < partitions → (o : ℕ) × (o < fleet) × Within (block fleet o) p
  find_block p h = elim (dec_lt p ((fleet - 1) * (partitions / fleet))) [
    | yes low ↦
        let o = p / (partitions / fleet) in
        let below : o * (partitions / fleet) ≤ p = div-mul-le_self p (partitions / fleet) in
        let above : p < o * (partitions / fleet) + partitions / fleet =
          lt-div-mul-add {a = p} {b = partitions / fleet} chunk-pos in
        let inner : o < fleet - 1 = elim (dec_lt o (fleet - 1)) [
          | yes lt ↦ lt
          | no ge ↦ absurd (
              omega (
                arith,
                low,
                below,
                mul-le-mul_right (partitions / fleet) (not_lt o (fleet - 1) ge),
              ))
        ] in
        (
          o,
          omega (arith, inner),
          subst (λ r. Within r p)
              (sym (block-inner fleet o (λ e. absurd (omega (arith, e, inner)))))
              (below, omega (arith, above, suc_times o (partitions / fleet))),
        )
    | no high ↦ (
      fleet - 1,
      omega arith,
      subst (λ r. Within r p) (sym (block-last fleet)) (omega (arith, high), omega arith),
    )
  ]
    where
      not_lt : (a b : ℕ) → (a < b → ⊥) → b ≤ a
      not_lt a b k = omega (arith, k)

  owned_lem :
      (name : List ℕ) (k : ℕ)
      → ordinal_of name ≡ some k
      → k < fleet
      → owned_partitions none (some name) (some fleet) ≡ ok (block fleet k)
  unfolding owned_partitions owned_by
  owned_lem name k e h =
      rw (owned_by, le→leb 1 fleet some_pod, le→leb fleet partitions fits, e, lt→ltb k fleet h) refl

  owned_out :
      (name : List ℕ) (k : ℕ)
      → ordinal_of name ≡ some k
      → fleet ≤ k
      → owned_partitions none (some name) (some fleet) ≡ err (bad_ordinal k fleet)
  unfolding owned_partitions owned_by
  owned_out name k e h =
      rw (owned_by, le→leb 1 fleet some_pod, le→leb fleet partitions fits, e, le→ltb k fleet h) refl

  Handles-block :
      (name : List ℕ) (k p o : ℕ)
      → ordinal_of name ≡ some k
      → o < fleet
      → Within (block fleet o) p
      → Handles (owned_partitions none (some name) (some fleet)) p ↔ (k ≡ o)
  Handles-block name k p o e small here = (forward, back)
    where
      back : k ≡ o → Handles (owned_partitions none (some name) (some fleet)) p
      back q =
          subst (λ r. Handles r p) (sym (owned_lem name k e (omega (arith, q))))
            (subst (λ i. Within (block fleet i) p) (sym q) here)

      only : k < fleet → Within (block fleet k) p → k ≡ o
      only h there = elim (ℕ_discrete k o) [
        | yes q ↦ q
        | no ne ↦ elim (dec_lt k o) [
          | yes less ↦ absurd (apart k o p less small there here)
          | no more ↦ absurd (apart o k p (greater k o ne more) h here there)
        ]
      ]
        where
          greater : (a b : ℕ) → a ≢ b → (a < b → ⊥) → b < a
          greater a b x y = omega (arith, x, y)

      forward : Handles (owned_partitions none (some name) (some fleet)) p → k ≡ o
      forward h = elim (dec_lt k fleet) [
        | yes inside ↦ only inside (subst (λ r. Handles r p) (owned_lem name k e inside) h)
        | no outside ↦
            absurd (subst (λ r. Handles r p) (owned_out name k e (omega (arith, outside))) h)
      ]

-- In a fleet of 1 to 1024 pods there is for each vehicle one ordinal below the size of the fleet such that a
-- pod whose name carries an ordinal, and that is given no slice, owns the vehicle's partition exactly if the
-- ordinal is that one.
pub partition_of-owned_partitions :
    (vehicle fleet : ℕ)
    → 1 ≤ fleet
    → fleet ≤ partitions
    → (o : ℕ) × (o < fleet)
      × ((name : List ℕ) (k : ℕ)
          → ordinal_of name ≡ some k
          → Handles (owned_partitions none (some name) (some fleet)) (partition_of vehicle)
            ↔ (k ≡ o))
partition_of-owned_partitions vehicle fleet some_pod fits =
    let p = partition_of vehicle in
    let (o, small, here) = find_block fleet some_pod fits p (partition_of-lt vehicle) in
    (o, small, λ name k e. Handles-block fleet some_pod fits name k p o e small here)
