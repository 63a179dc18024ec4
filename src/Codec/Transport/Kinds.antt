-- ===== src/Codec/Transport/Kinds.antt =====
-- libs/routers_codec/src/osm/parsers/primitives/transport.rs: the kinds of transport.
use routers.Common.{Bool, true, false}
use routers.Codec.Transport.Mode.{
  TransportMode, all, foot, dog, ski, ski_nordic, ski_alpine, ski_telemark, inline_skates, horse,
  portage, bicycle, electric_bicycle, mtb, cargo_bike, kick_scooter, carriage, cycle_rickshaw,
  hand_cart, trailer, caravan, vehicle, motor_vehicle, motorcycle, moped, speed_pedelec, mofa,
  small_electric_vehicle, motorcar, motorhome, tourist_bus, coach, goods, hgv, hgv_articulated,
  bdouble, agricultural, auto_rickshaw, nev, golf_cart, microcar, atv, ohv, snowmobile, psv, bus,
  taxi, minibus, share_taxi, hov, carpool, car_sharing, emergency, hazmat, hazmat_water, school_bus,
  disabled, water_access, swimming, ice_skates, boat, motorboat, sailboat, canoe, fishing_vessel,
  ship, passenger, cargo, bulk, tanker, tanker_gas, tanker_oil, tanker_chemical, tanker_singlehull,
  container, imdg, isps, rail_access, train, tram, metro,
}

unfoldable pub is_land : TransportMode → Bool
is_land all = true
is_land foot = true
is_land dog = true
is_land ski = true
is_land ski_nordic = true
is_land ski_alpine = true
is_land ski_telemark = true
is_land inline_skates = true
is_land horse = true
is_land portage = true
is_land bicycle = true
is_land electric_bicycle = true
is_land mtb = true
is_land cargo_bike = true
is_land kick_scooter = true
is_land carriage = true
is_land cycle_rickshaw = true
is_land hand_cart = true
is_land trailer = true
is_land caravan = true
is_land vehicle = true
is_land motor_vehicle = true
is_land motorcycle = true
is_land moped = true
is_land speed_pedelec = true
is_land mofa = true
is_land small_electric_vehicle = true
is_land motorcar = true
is_land motorhome = true
is_land tourist_bus = true
is_land coach = true
is_land goods = true
is_land hgv = true
is_land hgv_articulated = true
is_land bdouble = true
is_land agricultural = true
is_land auto_rickshaw = true
is_land nev = true
is_land golf_cart = true
is_land microcar = true
is_land atv = true
is_land ohv = true
is_land snowmobile = true
is_land psv = true
is_land bus = true
is_land taxi = true
is_land minibus = true
is_land share_taxi = true
is_land hov = true
is_land carpool = true
is_land car_sharing = true
is_land emergency = true
is_land hazmat = true
is_land hazmat_water = true
is_land school_bus = true
is_land disabled = true
is_land _ = false

unfoldable pub is_water : TransportMode → Bool
is_water water_access = true
is_water swimming = true
is_water ice_skates = true
is_water boat = true
is_water motorboat = true
is_water sailboat = true
is_water canoe = true
is_water fishing_vessel = true
is_water ship = true
is_water passenger = true
is_water cargo = true
is_water bulk = true
is_water tanker = true
is_water tanker_gas = true
is_water tanker_oil = true
is_water tanker_chemical = true
is_water tanker_singlehull = true
is_water container = true
is_water imdg = true
is_water isps = true
is_water _ = false

unfoldable pub is_rail : TransportMode → Bool
is_rail rail_access = true
is_rail train = true
is_rail tram = true
is_rail metro = true
is_rail _ = false

unfoldable pub is_motorized : TransportMode → Bool
is_motorized motor_vehicle = true
is_motorized motorcycle = true
is_motorized moped = true
is_motorized speed_pedelec = true
is_motorized mofa = true
is_motorized small_electric_vehicle = true
is_motorized motorcar = true
is_motorized motorhome = true
is_motorized tourist_bus = true
is_motorized coach = true
is_motorized goods = true
is_motorized hgv = true
is_motorized hgv_articulated = true
is_motorized bdouble = true
is_motorized agricultural = true
is_motorized auto_rickshaw = true
is_motorized nev = true
is_motorized golf_cart = true
is_motorized microcar = true
is_motorized atv = true
is_motorized ohv = true
is_motorized snowmobile = true
is_motorized psv = true
is_motorized bus = true
is_motorized taxi = true
is_motorized minibus = true
is_motorized share_taxi = true
is_motorized emergency = true
is_motorized motorboat = true
is_motorized _ = false

unfoldable pub is_non_motorized : TransportMode → Bool
is_non_motorized bicycle = true
is_non_motorized electric_bicycle = true
is_non_motorized mtb = true
is_non_motorized cargo_bike = true
is_non_motorized kick_scooter = true
is_non_motorized carriage = true
is_non_motorized cycle_rickshaw = true
is_non_motorized hand_cart = true
is_non_motorized trailer = true
is_non_motorized caravan = true
is_non_motorized _ = false
