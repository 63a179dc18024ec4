-- ===== src/Codec/Transport/Restricted.antt =====
-- libs/routers_codec/src/osm/parsers/primitives/transport.rs: `hierarchy_chain_flags` and
-- `is_restricted_by`.
use routers.Common.{Bool}
use routers.Codec.Transport.Mode.{
  TransportMode, all, foot, dog, ski, ski_nordic, ski_alpine, ski_telemark, inline_skates, horse,
  portage, bicycle, electric_bicycle, mtb, cargo_bike, kick_scooter, carriage, cycle_rickshaw,
  hand_cart, trailer, caravan, vehicle, motor_vehicle, motorcycle, moped, speed_pedelec, mofa,
  small_electric_vehicle, motorcar, motorhome, tourist_bus, coach, goods, hgv, hgv_articulated,
  bdouble, agricultural, auto_rickshaw, nev, golf_cart, microcar, atv, ohv, snowmobile, psv, bus,
  taxi, minibus, share_taxi, hov, carpool, car_sharing, emergency, hazmat, hazmat_water, school_bus,
  disabled, water_access, swimming, ice_skates, boat, motorboat, sailboat, canoe, fishing_vessel,
  ship, passenger, cargo, bulk, tanker, tanker_gas, tanker_oil, tanker_chemical, tanker_singlehull,
  container, imdg, isps, rail_access, train, tram, metro,
}
use routers.Codec.Transport.Flags.{FlagSet, to_flag}

module _ (S : FlagSet) where
  infixl 50 ◌∪◌
  -- The union with the constant of a mode.
  abbrev ◌∪◌ : S.Flags → TransportMode → S.Flags
  set ∪ m = S.union set (to_flag S m)

  unfoldable pub hierarchy_chain_flags : TransportMode → S.Flags
  unfolding to_flag
  hierarchy_chain_flags all = to_flag S all
  hierarchy_chain_flags foot = to_flag S all ∪ foot
  hierarchy_chain_flags dog = to_flag S all ∪ dog
  hierarchy_chain_flags ski = to_flag S all ∪ ski
  hierarchy_chain_flags ski_nordic = to_flag S all ∪ ski ∪ ski_nordic
  hierarchy_chain_flags ski_alpine = to_flag S all ∪ ski ∪ ski_alpine
  hierarchy_chain_flags ski_telemark = to_flag S all ∪ ski ∪ ski_telemark
  hierarchy_chain_flags inline_skates = to_flag S all ∪ inline_skates
  hierarchy_chain_flags horse = to_flag S all ∪ horse
  hierarchy_chain_flags portage = to_flag S all ∪ portage
  hierarchy_chain_flags vehicle = to_flag S all ∪ vehicle
  hierarchy_chain_flags bicycle = to_flag S all ∪ vehicle ∪ bicycle
  hierarchy_chain_flags electric_bicycle = to_flag S all ∪ vehicle ∪ bicycle ∪ electric_bicycle
  hierarchy_chain_flags mtb = to_flag S all ∪ vehicle ∪ bicycle ∪ mtb
  hierarchy_chain_flags cargo_bike = to_flag S all ∪ vehicle ∪ bicycle ∪ cargo_bike
  hierarchy_chain_flags kick_scooter = to_flag S all ∪ vehicle ∪ kick_scooter
  hierarchy_chain_flags carriage = to_flag S all ∪ vehicle ∪ carriage
  hierarchy_chain_flags cycle_rickshaw = to_flag S all ∪ vehicle ∪ cycle_rickshaw
  hierarchy_chain_flags hand_cart = to_flag S all ∪ vehicle ∪ hand_cart
  hierarchy_chain_flags trailer = to_flag S all ∪ vehicle ∪ trailer
  hierarchy_chain_flags caravan = to_flag S all ∪ vehicle ∪ caravan
  hierarchy_chain_flags motor_vehicle = to_flag S all ∪ vehicle ∪ motor_vehicle
  hierarchy_chain_flags motorcycle = to_flag S all ∪ vehicle ∪ motor_vehicle ∪ motorcycle
  hierarchy_chain_flags moped = to_flag S all ∪ vehicle ∪ motor_vehicle ∪ moped
  hierarchy_chain_flags speed_pedelec = to_flag S all ∪ vehicle ∪ motor_vehicle ∪ speed_pedelec
  hierarchy_chain_flags mofa = to_flag S all ∪ vehicle ∪ motor_vehicle ∪ mofa
  hierarchy_chain_flags small_electric_vehicle =
      to_flag S all ∪ vehicle ∪ motor_vehicle ∪ small_electric_vehicle
  hierarchy_chain_flags motorcar = to_flag S all ∪ vehicle ∪ motor_vehicle ∪ motorcar
  hierarchy_chain_flags motorhome = to_flag S all ∪ vehicle ∪ motor_vehicle ∪ motorhome
  hierarchy_chain_flags tourist_bus = to_flag S all ∪ vehicle ∪ motor_vehicle ∪ tourist_bus
  hierarchy_chain_flags coach = to_flag S all ∪ vehicle ∪ motor_vehicle ∪ coach
  hierarchy_chain_flags goods = to_flag S all ∪ vehicle ∪ motor_vehicle ∪ goods
  hierarchy_chain_flags hgv = to_flag S all ∪ vehicle ∪ motor_vehicle ∪ goods ∪ hgv
  hierarchy_chain_flags hgv_articulated =
      to_flag S all ∪ vehicle ∪ motor_vehicle ∪ goods ∪ hgv ∪ hgv_articulated
  hierarchy_chain_flags bdouble = to_flag S all ∪ vehicle ∪ motor_vehicle ∪ goods ∪ hgv ∪ bdouble
  hierarchy_chain_flags agricultural = to_flag S all ∪ vehicle ∪ motor_vehicle ∪ agricultural
  hierarchy_chain_flags auto_rickshaw = to_flag S all ∪ vehicle ∪ motor_vehicle ∪ auto_rickshaw
  hierarchy_chain_flags nev = to_flag S all ∪ vehicle ∪ motor_vehicle ∪ nev
  hierarchy_chain_flags golf_cart = to_flag S all ∪ vehicle ∪ motor_vehicle ∪ golf_cart
  hierarchy_chain_flags microcar = to_flag S all ∪ vehicle ∪ motor_vehicle ∪ microcar
  hierarchy_chain_flags atv = to_flag S all ∪ vehicle ∪ motor_vehicle ∪ atv
  hierarchy_chain_flags ohv = to_flag S all ∪ vehicle ∪ motor_vehicle ∪ ohv
  hierarchy_chain_flags snowmobile = to_flag S all ∪ vehicle ∪ motor_vehicle ∪ snowmobile
  hierarchy_chain_flags psv = to_flag S all ∪ vehicle ∪ motor_vehicle ∪ psv
  hierarchy_chain_flags bus = to_flag S all ∪ vehicle ∪ motor_vehicle ∪ psv ∪ bus
  hierarchy_chain_flags taxi = to_flag S all ∪ vehicle ∪ motor_vehicle ∪ taxi
  hierarchy_chain_flags minibus = to_flag S all ∪ vehicle ∪ motor_vehicle ∪ psv ∪ bus ∪ minibus
  hierarchy_chain_flags share_taxi = to_flag S all ∪ vehicle ∪ motor_vehicle ∪ taxi ∪ share_taxi
  hierarchy_chain_flags hov = to_flag S all ∪ vehicle ∪ motor_vehicle ∪ hov
  hierarchy_chain_flags carpool = to_flag S all ∪ vehicle ∪ motor_vehicle ∪ hov ∪ carpool
  hierarchy_chain_flags car_sharing = to_flag S all ∪ vehicle ∪ motor_vehicle ∪ car_sharing
  hierarchy_chain_flags emergency = to_flag S all ∪ vehicle ∪ motor_vehicle ∪ emergency
  hierarchy_chain_flags hazmat = to_flag S all ∪ vehicle ∪ motor_vehicle ∪ hazmat
  hierarchy_chain_flags hazmat_water =
      to_flag S all ∪ vehicle ∪ motor_vehicle ∪ hazmat ∪ hazmat_water
  hierarchy_chain_flags school_bus =
      to_flag S all ∪ vehicle ∪ motor_vehicle ∪ psv ∪ bus ∪ school_bus
  hierarchy_chain_flags disabled = to_flag S all ∪ vehicle ∪ motor_vehicle ∪ disabled
  hierarchy_chain_flags water_access = to_flag S water_access
  hierarchy_chain_flags swimming = to_flag S water_access ∪ swimming
  hierarchy_chain_flags ice_skates = to_flag S water_access ∪ ice_skates
  hierarchy_chain_flags boat = to_flag S water_access ∪ boat
  hierarchy_chain_flags motorboat = to_flag S water_access ∪ boat ∪ motorboat
  hierarchy_chain_flags sailboat = to_flag S water_access ∪ boat ∪ sailboat
  hierarchy_chain_flags canoe = to_flag S water_access ∪ boat ∪ canoe
  hierarchy_chain_flags fishing_vessel = to_flag S water_access ∪ boat ∪ fishing_vessel
  hierarchy_chain_flags ship = to_flag S water_access ∪ boat ∪ ship
  hierarchy_chain_flags passenger = to_flag S water_access ∪ boat ∪ ship ∪ passenger
  hierarchy_chain_flags cargo = to_flag S water_access ∪ boat ∪ ship ∪ cargo
  hierarchy_chain_flags bulk = to_flag S water_access ∪ boat ∪ ship ∪ cargo ∪ bulk
  hierarchy_chain_flags tanker = to_flag S water_access ∪ boat ∪ ship ∪ cargo ∪ tanker
  hierarchy_chain_flags tanker_gas =
      to_flag S water_access ∪ boat ∪ ship ∪ cargo ∪ tanker ∪ tanker_gas
  hierarchy_chain_flags tanker_oil =
      to_flag S water_access ∪ boat ∪ ship ∪ cargo ∪ tanker ∪ tanker_oil
  hierarchy_chain_flags tanker_chemical =
      to_flag S water_access ∪ boat ∪ ship ∪ cargo ∪ tanker ∪ tanker_chemical
  hierarchy_chain_flags tanker_singlehull =
      to_flag S water_access ∪ boat ∪ ship ∪ cargo ∪ tanker ∪ tanker_singlehull
  hierarchy_chain_flags container = to_flag S water_access ∪ boat ∪ ship ∪ cargo ∪ container
  hierarchy_chain_flags imdg = to_flag S water_access ∪ boat ∪ ship ∪ imdg
  hierarchy_chain_flags isps = to_flag S water_access ∪ boat ∪ ship ∪ isps
  hierarchy_chain_flags rail_access = to_flag S rail_access
  hierarchy_chain_flags train = to_flag S rail_access ∪ train
  hierarchy_chain_flags tram = to_flag S rail_access ∪ tram
  hierarchy_chain_flags metro = to_flag S rail_access ∪ metro

  unfoldable pub is_restricted_by : TransportMode → TransportMode → Bool
  unfolding hierarchy_chain_flags to_flag
  is_restricted_by m restriction_mode =
      S.includes (hierarchy_chain_flags m) (to_flag S restriction_mode)
