-- ===== src/Codec/Transport/Chain.antt =====
-- libs/routers_codec/src/osm/parsers/primitives/transport.rs: `hierarchy_chain`, from the most
-- general mode to the mode itself, and what is computed from it.
use routers.Common.{
  ℕ, ◌-◌, Bool, false, ◌||◌, Option, none, some, List, [], ◌∷◌, take, length, ltb, if◌then◌else◌,
}
use routers.Codec.Transport.Mode.{
  TransportMode, mode_eq, all, foot, dog, ski, ski_nordic, ski_alpine, ski_telemark, inline_skates,
  horse, portage, bicycle, electric_bicycle, mtb, cargo_bike, kick_scooter, carriage,
  cycle_rickshaw, hand_cart, trailer, caravan, vehicle, motor_vehicle, motorcycle, moped,
  speed_pedelec, mofa, small_electric_vehicle, motorcar, motorhome, tourist_bus, coach, goods, hgv,
  hgv_articulated, bdouble, agricultural, auto_rickshaw, nev, golf_cart, microcar, atv, ohv,
  snowmobile, psv, bus, taxi, minibus, share_taxi, hov, carpool, car_sharing, emergency, hazmat,
  hazmat_water, school_bus, disabled, water_access, swimming, ice_skates, boat, motorboat, sailboat,
  canoe, fishing_vessel, ship, passenger, cargo, bulk, tanker, tanker_gas, tanker_oil,
  tanker_chemical, tanker_singlehull, container, imdg, isps, rail_access, train, tram, metro,
}

unfoldable pub hierarchy_chain : TransportMode → List TransportMode
hierarchy_chain all = all ∷ []
hierarchy_chain foot = all ∷ foot ∷ []
hierarchy_chain dog = all ∷ dog ∷ []
hierarchy_chain ski = all ∷ ski ∷ []
hierarchy_chain ski_nordic = all ∷ ski ∷ ski_nordic ∷ []
hierarchy_chain ski_alpine = all ∷ ski ∷ ski_alpine ∷ []
hierarchy_chain ski_telemark = all ∷ ski ∷ ski_telemark ∷ []
hierarchy_chain inline_skates = all ∷ inline_skates ∷ []
hierarchy_chain horse = all ∷ horse ∷ []
hierarchy_chain portage = all ∷ portage ∷ []
hierarchy_chain vehicle = all ∷ vehicle ∷ []
hierarchy_chain bicycle = all ∷ vehicle ∷ bicycle ∷ []
hierarchy_chain electric_bicycle = all ∷ vehicle ∷ bicycle ∷ electric_bicycle ∷ []
hierarchy_chain mtb = all ∷ vehicle ∷ bicycle ∷ mtb ∷ []
hierarchy_chain cargo_bike = all ∷ vehicle ∷ bicycle ∷ cargo_bike ∷ []
hierarchy_chain kick_scooter = all ∷ vehicle ∷ kick_scooter ∷ []
hierarchy_chain carriage = all ∷ vehicle ∷ carriage ∷ []
hierarchy_chain cycle_rickshaw = all ∷ vehicle ∷ cycle_rickshaw ∷ []
hierarchy_chain hand_cart = all ∷ vehicle ∷ hand_cart ∷ []
hierarchy_chain trailer = all ∷ vehicle ∷ trailer ∷ []
hierarchy_chain caravan = all ∷ vehicle ∷ caravan ∷ []
hierarchy_chain motor_vehicle = all ∷ vehicle ∷ motor_vehicle ∷ []
hierarchy_chain motorcycle = all ∷ vehicle ∷ motor_vehicle ∷ motorcycle ∷ []
hierarchy_chain moped = all ∷ vehicle ∷ motor_vehicle ∷ moped ∷ []
hierarchy_chain speed_pedelec = all ∷ vehicle ∷ motor_vehicle ∷ speed_pedelec ∷ []
hierarchy_chain mofa = all ∷ vehicle ∷ motor_vehicle ∷ mofa ∷ []
hierarchy_chain small_electric_vehicle = all ∷ vehicle ∷ motor_vehicle ∷ small_electric_vehicle ∷ []
hierarchy_chain motorcar = all ∷ vehicle ∷ motor_vehicle ∷ motorcar ∷ []
hierarchy_chain motorhome = all ∷ vehicle ∷ motor_vehicle ∷ motorhome ∷ []
hierarchy_chain tourist_bus = all ∷ vehicle ∷ motor_vehicle ∷ tourist_bus ∷ []
hierarchy_chain coach = all ∷ vehicle ∷ motor_vehicle ∷ coach ∷ []
hierarchy_chain goods = all ∷ vehicle ∷ motor_vehicle ∷ goods ∷ []
hierarchy_chain hgv = all ∷ vehicle ∷ motor_vehicle ∷ goods ∷ hgv ∷ []
hierarchy_chain hgv_articulated = all ∷ vehicle ∷ motor_vehicle ∷ goods ∷ hgv ∷ hgv_articulated ∷ []
hierarchy_chain bdouble = all ∷ vehicle ∷ motor_vehicle ∷ goods ∷ hgv ∷ bdouble ∷ []
hierarchy_chain agricultural = all ∷ vehicle ∷ motor_vehicle ∷ agricultural ∷ []
hierarchy_chain auto_rickshaw = all ∷ vehicle ∷ motor_vehicle ∷ auto_rickshaw ∷ []
hierarchy_chain nev = all ∷ vehicle ∷ motor_vehicle ∷ nev ∷ []
hierarchy_chain golf_cart = all ∷ vehicle ∷ motor_vehicle ∷ golf_cart ∷ []
hierarchy_chain microcar = all ∷ vehicle ∷ motor_vehicle ∷ microcar ∷ []
hierarchy_chain atv = all ∷ vehicle ∷ motor_vehicle ∷ atv ∷ []
hierarchy_chain ohv = all ∷ vehicle ∷ motor_vehicle ∷ ohv ∷ []
hierarchy_chain snowmobile = all ∷ vehicle ∷ motor_vehicle ∷ snowmobile ∷ []
hierarchy_chain psv = all ∷ vehicle ∷ motor_vehicle ∷ psv ∷ []
hierarchy_chain bus = all ∷ vehicle ∷ motor_vehicle ∷ psv ∷ bus ∷ []
hierarchy_chain taxi = all ∷ vehicle ∷ motor_vehicle ∷ taxi ∷ []
hierarchy_chain minibus = all ∷ vehicle ∷ motor_vehicle ∷ psv ∷ bus ∷ minibus ∷ []
hierarchy_chain share_taxi = all ∷ vehicle ∷ motor_vehicle ∷ taxi ∷ share_taxi ∷ []
hierarchy_chain hov = all ∷ vehicle ∷ motor_vehicle ∷ hov ∷ []
hierarchy_chain carpool = all ∷ vehicle ∷ motor_vehicle ∷ hov ∷ carpool ∷ []
hierarchy_chain car_sharing = all ∷ vehicle ∷ motor_vehicle ∷ car_sharing ∷ []
hierarchy_chain emergency = all ∷ vehicle ∷ motor_vehicle ∷ emergency ∷ []
hierarchy_chain hazmat = all ∷ vehicle ∷ motor_vehicle ∷ hazmat ∷ []
hierarchy_chain hazmat_water = all ∷ vehicle ∷ motor_vehicle ∷ hazmat ∷ hazmat_water ∷ []
hierarchy_chain school_bus = all ∷ vehicle ∷ motor_vehicle ∷ psv ∷ bus ∷ school_bus ∷ []
hierarchy_chain disabled = all ∷ vehicle ∷ motor_vehicle ∷ disabled ∷ []
hierarchy_chain water_access = water_access ∷ []
hierarchy_chain swimming = water_access ∷ swimming ∷ []
hierarchy_chain ice_skates = water_access ∷ ice_skates ∷ []
hierarchy_chain boat = water_access ∷ boat ∷ []
hierarchy_chain motorboat = water_access ∷ boat ∷ motorboat ∷ []
hierarchy_chain sailboat = water_access ∷ boat ∷ sailboat ∷ []
hierarchy_chain canoe = water_access ∷ boat ∷ canoe ∷ []
hierarchy_chain fishing_vessel = water_access ∷ boat ∷ fishing_vessel ∷ []
hierarchy_chain ship = water_access ∷ boat ∷ ship ∷ []
hierarchy_chain passenger = water_access ∷ boat ∷ ship ∷ passenger ∷ []
hierarchy_chain cargo = water_access ∷ boat ∷ ship ∷ cargo ∷ []
hierarchy_chain bulk = water_access ∷ boat ∷ ship ∷ cargo ∷ bulk ∷ []
hierarchy_chain tanker = water_access ∷ boat ∷ ship ∷ cargo ∷ tanker ∷ []
hierarchy_chain tanker_gas = water_access ∷ boat ∷ ship ∷ cargo ∷ tanker ∷ tanker_gas ∷ []
hierarchy_chain tanker_oil = water_access ∷ boat ∷ ship ∷ cargo ∷ tanker ∷ tanker_oil ∷ []
hierarchy_chain tanker_chemical = water_access ∷ boat ∷ ship ∷ cargo ∷ tanker ∷ tanker_chemical ∷ []
hierarchy_chain tanker_singlehull =
    water_access ∷ boat ∷ ship ∷ cargo ∷ tanker ∷ tanker_singlehull ∷ []
hierarchy_chain container = water_access ∷ boat ∷ ship ∷ cargo ∷ container ∷ []
hierarchy_chain imdg = water_access ∷ boat ∷ ship ∷ imdg ∷ []
hierarchy_chain isps = water_access ∷ boat ∷ ship ∷ isps ∷ []
hierarchy_chain rail_access = rail_access ∷ []
hierarchy_chain train = rail_access ∷ train ∷ []
hierarchy_chain tram = rail_access ∷ tram ∷ []
hierarchy_chain metro = rail_access ∷ metro ∷ []

unfoldable pub specificity_level : TransportMode → ℕ
unfolding hierarchy_chain
specificity_level m = length (hierarchy_chain m)

-- `slice::contains`
unfoldable pub contains : TransportMode → List TransportMode → Bool
unfolding mode_eq
contains m [] = false
contains m (x ∷ xs) = mode_eq x m || contains m xs

-- The `any` over the restrictions.
unfoldable pub any_in : List TransportMode → List TransportMode → Bool
unfolding contains
any_in chain [] = false
any_in chain (r ∷ rs) = contains r chain || any_in chain rs

unfoldable pub matches_any_restriction : TransportMode → List TransportMode → Bool
unfolding any_in hierarchy_chain
matches_any_restriction m restrictions = any_in (hierarchy_chain m) restrictions

unfoldable pub parent_modes : TransportMode → List TransportMode
unfolding hierarchy_chain
parent_modes m =
    let chain = hierarchy_chain m in
    if ltb 1 (length chain) then take (length chain - 1) chain else []

-- `slice::last`
unfoldable pub last : List TransportMode → Option TransportMode
last [] = none
last (x ∷ []) = some x
last (x ∷ y ∷ ys) = last (y ∷ ys)

unfoldable pub immediate_parent : TransportMode → Option TransportMode
unfolding parent_modes last
immediate_parent m = last (parent_modes m)
