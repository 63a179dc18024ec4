-- ===== src/Tests/Modes.antt =====
-- The theorems of transport modes at a minibus and a tanker.
use routers.Common.{
  ℕ, suc, ◌≡◌, refl, Bool, true, false, ◌&&◌, ◌||◌, some, List, [], ◌∷◌, ◌++◌, ◌==◌, arith,
}
use routers.Codec.Transport.Mode.{
  discriminant, mode_eq, minibus, psv, bus, motor_vehicle, foot, school_bus,
}
use routers.Codec.Transport.Chain.{
  hierarchy_chain, contains, parent_modes, immediate_parent, last, specificity_level,
  matches_any_restriction,
}
use routers.Codec.Transport.Flags.{FlagSet}
use routers.Codec.Transport.Restricted.{is_restricted_by}
use routers.Codec.Transport.Kinds.{is_land, is_water, is_rail, is_motorized, is_non_motorized}
use routers.Codec.Transport.Laws.{
  hierarchy_chain-parent_modes, immediate_parent-hierarchy_chain, hierarchy_chain_trans,
}
use routers.Codec.Transport.Domains.{
  one_domain, has_motor, has_no_motor, hierarchy_chain-domain, kinds-agree,
}
use routers.Codec.Transport.Matching.{
  any_mode, is_restricted_by-contains, matches_any_restriction-is_restricted_by,
}

parents_example : hierarchy_chain minibus ≡ parent_modes minibus ++ minibus ∷ []
parents_example = hierarchy_chain-parent_modes minibus

minibus_parent : immediate_parent minibus ≡ some bus
unfolding immediate_parent parent_modes last hierarchy_chain
minibus_parent = refl

immediate_parent_example :
    (hierarchy_chain minibus ≡ hierarchy_chain bus ++ minibus ∷ [])
    × (specificity_level minibus ≡ suc (specificity_level bus))
immediate_parent_example = immediate_parent-hierarchy_chain minibus bus minibus_parent

minibus_psv : contains bus (hierarchy_chain minibus) ≡ true
unfolding contains hierarchy_chain mode_eq discriminant
minibus_psv = refl

bus_motor : contains motor_vehicle (hierarchy_chain bus) ≡ true
unfolding contains hierarchy_chain mode_eq discriminant
bus_motor = refl

hierarchy_chain_trans_example : contains motor_vehicle (hierarchy_chain minibus) ≡ true
hierarchy_chain_trans_example =
    hierarchy_chain_trans minibus bus motor_vehicle minibus_psv bus_motor

domain_example :
    (is_land bus ≡ is_land minibus)
    × (is_water bus ≡ is_water minibus)
    × (is_rail bus ≡ is_rail minibus)
domain_example = hierarchy_chain-domain minibus bus minibus_psv

kinds_example :
    (one_domain school_bus ≡ true)
    × (is_motorized school_bus ≡ has_motor school_bus)
    × (is_non_motorized school_bus ≡ has_no_motor school_bus)
kinds_example = kinds-agree school_bus

-- Flag sets as lists of bits.
abbrev holds : ℕ → List ℕ → Bool
holds i [] = false
holds i (x ∷ xs) = (x == i) || holds i xs

abbrev holds_all : List ℕ → List ℕ → Bool
holds_all a [] = true
holds_all a (i ∷ is) = holds i a && holds_all a is

one_bit : (i j : ℕ) → holds_all (i ∷ []) (j ∷ []) ≡ (i == j)
one_bit i j = ground arith

holds-append : (a b : List ℕ) (j : ℕ) → holds j (a ++ b) ≡ (holds j a || holds j b)
holds-append [] b j = refl
holds-append (x ∷ xs) b j = ground (arith, holds-append xs b j)

bits : FlagSet
bits = record {
  Flags = List ℕ;
  flag = λ i. i ∷ [];
  union = λ a b. a ++ b;
  includes = holds_all;
  includes-flag = λ i j _ _. one_bit i j;
  includes-union = λ a b j _. ground (arith, holds-append a b j);
}

restricted_example : is_restricted_by bits minibus psv ≡ contains psv (hierarchy_chain minibus)
restricted_example = is_restricted_by-contains bits minibus psv

restrictions_example :
    matches_any_restriction minibus (foot ∷ psv ∷ [])
    ≡ any_mode (is_restricted_by bits minibus) (foot ∷ psv ∷ [])
restrictions_example = matches_any_restriction-is_restricted_by bits minibus (foot ∷ psv ∷ [])
