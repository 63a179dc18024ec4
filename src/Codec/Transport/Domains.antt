-- ===== src/Codec/Transport/Domains.antt =====
-- libs/routers_codec/src/osm/parsers/primitives/transport.rs: the kinds of transport and the
-- hierarchy.
use routers.Common.{List, [], ◌∷◌, ◌≡◌, refl, Bool, true, false, ◌&&◌, ◌||◌, not, arith}
use routers.Codec.Transport.Mode.{
  TransportMode, discriminant, mode_eq, motor_vehicle, motorboat, vehicle, hov, carpool,
  car_sharing, hazmat, hazmat_water, school_bus, disabled,
}
use routers.Codec.Transport.Modes.{modes}
use routers.Codec.Transport.Chain.{hierarchy_chain, contains}
use routers.Codec.Transport.Kinds.{is_land, is_water, is_rail, is_motorized, is_non_motorized}
use routers.Codec.Transport.Checks.{every, of_modes, every-contains, and_true}

abbrev same : Bool → Bool → Bool
same true b = b
same false b = not b

same-eq : (a b : Bool) → same a b ≡ true → a ≡ b
same-eq a b e = ground arith

abbrev same_domain : TransportMode → TransportMode → Bool
same_domain m p =
    same (is_land p) (is_land m) && (same (is_water p) (is_water m) && same (is_rail p) (is_rail m))

abbrev stays : TransportMode → Bool
stays m = every (same_domain m) (hierarchy_chain m)

all_stay : every stays modes ≡ true
unfolding every hierarchy_chain is_land is_water is_rail
all_stay = refl

-- Every mode in the chain of `m` is of the domain of `m`: land, water or rail.
pub hierarchy_chain-domain :
    (m p : TransportMode)
    → contains p (hierarchy_chain m) ≡ true
    → (is_land p ≡ is_land m) × (is_water p ≡ is_water m) × (is_rail p ≡ is_rail m)
hierarchy_chain-domain m p e =
    let (land, rest) =
      and_true (same (is_land p) (is_land m))
        (every-contains (same_domain m) (hierarchy_chain m) p (of_modes stays all_stay m) e) in
    let (water, rail) = and_true (same (is_water p) (is_water m)) rest in
    (
      same-eq (is_land p) (is_land m) land,
      same-eq (is_water p) (is_water m) water,
      same-eq (is_rail p) (is_rail m) rail,
    )

-- Land or water or rail, and no two of them.
abbrev pub one_domain : TransportMode → Bool
one_domain m =
    (is_land m || (is_water m || is_rail m))
    && not ((is_land m && is_water m) || ((is_land m && is_rail m) || (is_water m && is_rail m)))

-- Modes below `MotorVehicle` in the hierarchy that are no kind of vehicle, but a use or a load of one.
abbrev pub uses : List TransportMode
uses = hov ∷ carpool ∷ car_sharing ∷ hazmat ∷ hazmat_water ∷ school_bus ∷ disabled ∷ []

-- A motorboat, or a mode below `MotorVehicle` that is not a use of a vehicle.
abbrev pub has_motor : TransportMode → Bool
has_motor m =
    mode_eq m motorboat || (contains motor_vehicle (hierarchy_chain m) && not (contains m uses))

-- A mode strictly below `Vehicle` and not below `MotorVehicle`.
abbrev pub has_no_motor : TransportMode → Bool
has_no_motor m =
    contains vehicle (hierarchy_chain m)
    && (not (contains motor_vehicle (hierarchy_chain m)) && not (mode_eq m vehicle))

abbrev kinds_test : TransportMode → Bool
kinds_test m =
    one_domain m
    && (same (is_motorized m) (has_motor m) && same (is_non_motorized m) (has_no_motor m))

all_kinds : every kinds_test modes ≡ true
unfolding every hierarchy_chain contains mode_eq discriminant is_land is_water is_rail is_motorized
    is_non_motorized
all_kinds = refl

-- Every mode is of exactly one domain. It is motorised exactly if it is a motorboat or has `MotorVehicle` in its
-- chain and is none of Hov, Carpool, CarSharing, Hazmat, HazmatWater, SchoolBus and Disabled, and
-- non-motorised exactly if it has `Vehicle` but not `MotorVehicle` in its chain and is not `Vehicle` itself.
pub kinds-agree :
    (m : TransportMode)
    → (one_domain m ≡ true) × (is_motorized m ≡ has_motor m) × (is_non_motorized m ≡ has_no_motor m)
kinds-agree m =
    let (domain, rest) = and_true (one_domain m) (of_modes kinds_test all_kinds m) in
    let (motor, muscle) = and_true (same (is_motorized m) (has_motor m)) rest in
    (
      domain,
      same-eq (is_motorized m) (has_motor m) motor,
      same-eq (is_non_motorized m) (has_no_motor m) muscle,
    )
