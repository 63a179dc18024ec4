-- ===== src/Codec/Transport/Flags.antt =====
-- libs/routers_codec/src/osm/parsers/primitives/transport.rs: `bitflag`, `hierarchy_chain_flags`
-- and `is_restricted_by`, over any implementation of the flag sets of the bitflags crate.
use routers.Common.{ℕ, Bool, ◌≡◌, ◌==◌, ◌||◌, ◌<◌}
use routers.Codec.Transport.Mode.{
  TransportMode, all, foot, dog, ski, ski_nordic, ski_alpine, ski_telemark, inline_skates, horse,
  portage, bicycle, electric_bicycle, mtb, cargo_bike, kick_scooter, carriage, cycle_rickshaw,
  hand_cart, trailer, caravan, vehicle, motor_vehicle, motorcycle, moped, speed_pedelec, mofa,
  small_electric_vehicle, motorcar, motorhome, tourist_bus, coach, goods, hgv, hgv_articulated,
  bdouble, agricultural, auto_rickshaw, nev, golf_cart, microcar, atv, ohv, snowmobile, psv, bus,
  taxi, minibus, share_taxi, hov, carpool, car_sharing, emergency, hazmat, hazmat_water, school_bus,
  disabled, water_access, swimming, ice_skates, boat, motorboat, sailboat, canoe, fishing_vessel,
  ship, passenger, cargo, bulk, tanker, tanker_gas, tanker_oil, tanker_chemical, tanker_singlehull,
  container, imdg, isps, rail_access, train, tram, metro,
}

-- What the code uses of a `u128` set made by `bitflags!`: the set `1 << i`, and its laws for the bits
-- that exist.
pub record FlagSet : Type 1 where
  pub Flags : Type 0
  pub flag : ℕ → Flags
  pub union : Flags → Flags → Flags
  pub includes : Flags → Flags → Bool
  pub includes-flag : (i j : ℕ) → i < 128 → j < 128 → includes (flag i) (flag j) ≡ (i == j)
  pub includes-union :
      (a b : Flags) (j : ℕ)
      → j < 128
      → includes (union a b) (flag j) ≡ (includes a (flag j) || includes b (flag j))

-- The constants of `TransportModeSet`: `1 << bit`.
unfoldable pub bit : TransportMode → ℕ
bit all = 0
bit foot = 1
bit dog = 2
bit ski = 3
bit ski_nordic = 4
bit ski_alpine = 5
bit ski_telemark = 6
bit inline_skates = 7
bit horse = 8
bit portage = 9
bit bicycle = 10
bit electric_bicycle = 11
bit mtb = 12
bit cargo_bike = 13
bit kick_scooter = 14
bit carriage = 15
bit cycle_rickshaw = 16
bit hand_cart = 17
bit trailer = 18
bit caravan = 19
bit vehicle = 20
bit motor_vehicle = 21
bit motorcycle = 22
bit moped = 23
bit speed_pedelec = 24
bit mofa = 25
bit small_electric_vehicle = 26
bit motorcar = 27
bit motorhome = 28
bit tourist_bus = 29
bit coach = 30
bit goods = 31
bit hgv = 32
bit hgv_articulated = 33
bit bdouble = 34
bit agricultural = 35
bit auto_rickshaw = 36
bit nev = 37
bit golf_cart = 38
bit microcar = 39
bit atv = 40
bit ohv = 41
bit snowmobile = 42
bit psv = 43
bit bus = 44
bit taxi = 45
bit minibus = 46
bit share_taxi = 47
bit hov = 48
bit carpool = 49
bit car_sharing = 50
bit emergency = 51
bit hazmat = 52
bit hazmat_water = 53
bit school_bus = 54
bit disabled = 55
bit water_access = 56
bit swimming = 57
bit ice_skates = 58
bit boat = 59
bit motorboat = 60
bit sailboat = 61
bit canoe = 62
bit fishing_vessel = 63
bit ship = 64
bit passenger = 65
bit cargo = 66
bit bulk = 67
bit tanker = 68
bit tanker_gas = 69
bit tanker_oil = 70
bit tanker_chemical = 71
bit tanker_singlehull = 72
bit container = 73
bit imdg = 74
bit isps = 75
bit rail_access = 76
bit train = 77
bit tram = 78
bit metro = 79

module _ (S : FlagSet) where
  unfoldable pub to_flag : TransportMode → S.Flags
  unfolding bit
  to_flag m = S.flag (bit m)
