-- ===== src/Codec/Transport/Modes.antt =====
-- libs/routers_codec/src/osm/parsers/primitives/transport.rs: every mode, in the order of the
-- discriminants, and tests of all of them.
use routers.Common.{◌≡◌, refl, some, List, [], ◌∷◌, get_elem?}
use routers.Codec.Transport.Mode.{
  TransportMode, discriminant, all, foot, dog, ski, ski_nordic, ski_alpine, ski_telemark,
  inline_skates, horse, portage, bicycle, electric_bicycle, mtb, cargo_bike, kick_scooter, carriage,
  cycle_rickshaw, hand_cart, trailer, caravan, vehicle, motor_vehicle, motorcycle, moped,
  speed_pedelec, mofa, small_electric_vehicle, motorcar, motorhome, tourist_bus, coach, goods, hgv,
  hgv_articulated, bdouble, agricultural, auto_rickshaw, nev, golf_cart, microcar, atv, ohv,
  snowmobile, psv, bus, taxi, minibus, share_taxi, hov, carpool, car_sharing, emergency, hazmat,
  hazmat_water, school_bus, disabled, water_access, swimming, ice_skates, boat, motorboat, sailboat,
  canoe, fishing_vessel, ship, passenger, cargo, bulk, tanker, tanker_gas, tanker_oil,
  tanker_chemical, tanker_singlehull, container, imdg, isps, rail_access, train, tram, metro,
}

abbrev pub modes : List TransportMode
modes =
    all ∷ foot ∷ dog ∷ ski ∷ ski_nordic ∷ ski_alpine ∷ ski_telemark ∷ inline_skates ∷ horse
    ∷ portage ∷ bicycle ∷ electric_bicycle ∷ mtb ∷ cargo_bike ∷ kick_scooter ∷ carriage
    ∷ cycle_rickshaw ∷ hand_cart ∷ trailer ∷ caravan ∷ vehicle ∷ motor_vehicle ∷ motorcycle ∷ moped
    ∷ speed_pedelec ∷ mofa ∷ small_electric_vehicle ∷ motorcar ∷ motorhome ∷ tourist_bus ∷ coach
    ∷ goods ∷ hgv ∷ hgv_articulated ∷ bdouble ∷ agricultural ∷ auto_rickshaw ∷ nev ∷ golf_cart
    ∷ microcar ∷ atv ∷ ohv ∷ snowmobile ∷ psv ∷ bus ∷ taxi ∷ minibus ∷ share_taxi ∷ hov ∷ carpool
    ∷ car_sharing ∷ emergency ∷ hazmat ∷ hazmat_water ∷ school_bus ∷ disabled ∷ water_access
    ∷ swimming ∷ ice_skates ∷ boat ∷ motorboat ∷ sailboat ∷ canoe ∷ fishing_vessel ∷ ship
    ∷ passenger ∷ cargo ∷ bulk ∷ tanker ∷ tanker_gas ∷ tanker_oil ∷ tanker_chemical
    ∷ tanker_singlehull ∷ container ∷ imdg ∷ isps ∷ rail_access ∷ train ∷ tram ∷ metro ∷ []

-- A mode stands in the list at its discriminant.
pub discriminant-modes : (m : TransportMode) → get_elem? modes (discriminant m) ≡ some m
unfolding discriminant
discriminant-modes all = refl
discriminant-modes foot = refl
discriminant-modes dog = refl
discriminant-modes ski = refl
discriminant-modes ski_nordic = refl
discriminant-modes ski_alpine = refl
discriminant-modes ski_telemark = refl
discriminant-modes inline_skates = refl
discriminant-modes horse = refl
discriminant-modes portage = refl
discriminant-modes bicycle = refl
discriminant-modes electric_bicycle = refl
discriminant-modes mtb = refl
discriminant-modes cargo_bike = refl
discriminant-modes kick_scooter = refl
discriminant-modes carriage = refl
discriminant-modes cycle_rickshaw = refl
discriminant-modes hand_cart = refl
discriminant-modes trailer = refl
discriminant-modes caravan = refl
discriminant-modes vehicle = refl
discriminant-modes motor_vehicle = refl
discriminant-modes motorcycle = refl
discriminant-modes moped = refl
discriminant-modes speed_pedelec = refl
discriminant-modes mofa = refl
discriminant-modes small_electric_vehicle = refl
discriminant-modes motorcar = refl
discriminant-modes motorhome = refl
discriminant-modes tourist_bus = refl
discriminant-modes coach = refl
discriminant-modes goods = refl
discriminant-modes hgv = refl
discriminant-modes hgv_articulated = refl
discriminant-modes bdouble = refl
discriminant-modes agricultural = refl
discriminant-modes auto_rickshaw = refl
discriminant-modes nev = refl
discriminant-modes golf_cart = refl
discriminant-modes microcar = refl
discriminant-modes atv = refl
discriminant-modes ohv = refl
discriminant-modes snowmobile = refl
discriminant-modes psv = refl
discriminant-modes bus = refl
discriminant-modes taxi = refl
discriminant-modes minibus = refl
discriminant-modes share_taxi = refl
discriminant-modes hov = refl
discriminant-modes carpool = refl
discriminant-modes car_sharing = refl
discriminant-modes emergency = refl
discriminant-modes hazmat = refl
discriminant-modes hazmat_water = refl
discriminant-modes school_bus = refl
discriminant-modes disabled = refl
discriminant-modes water_access = refl
discriminant-modes swimming = refl
discriminant-modes ice_skates = refl
discriminant-modes boat = refl
discriminant-modes motorboat = refl
discriminant-modes sailboat = refl
discriminant-modes canoe = refl
discriminant-modes fishing_vessel = refl
discriminant-modes ship = refl
discriminant-modes passenger = refl
discriminant-modes cargo = refl
discriminant-modes bulk = refl
discriminant-modes tanker = refl
discriminant-modes tanker_gas = refl
discriminant-modes tanker_oil = refl
discriminant-modes tanker_chemical = refl
discriminant-modes tanker_singlehull = refl
discriminant-modes container = refl
discriminant-modes imdg = refl
discriminant-modes isps = refl
discriminant-modes rail_access = refl
discriminant-modes train = refl
discriminant-modes tram = refl
discriminant-modes metro = refl
