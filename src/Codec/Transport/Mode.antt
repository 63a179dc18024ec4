-- ===== src/Codec/Transport/Mode.antt =====
-- libs/routers_codec/src/osm/parsers/primitives/transport.rs: the modes of transport, their
-- discriminants, and the list of them in the order of their discriminants.
use routers.Common.{ℕ, Bool, ◌==◌}

pub data TransportMode : Type 0 where
  all : TransportMode
  foot : TransportMode
  dog : TransportMode
  ski : TransportMode
  ski_nordic : TransportMode
  ski_alpine : TransportMode
  ski_telemark : TransportMode
  inline_skates : TransportMode
  horse : TransportMode
  portage : TransportMode
  bicycle : TransportMode
  electric_bicycle : TransportMode
  mtb : TransportMode
  cargo_bike : TransportMode
  kick_scooter : TransportMode
  carriage : TransportMode
  cycle_rickshaw : TransportMode
  hand_cart : TransportMode
  trailer : TransportMode
  caravan : TransportMode
  vehicle : TransportMode
  motor_vehicle : TransportMode
  motorcycle : TransportMode
  moped : TransportMode
  speed_pedelec : TransportMode
  mofa : TransportMode
  small_electric_vehicle : TransportMode
  motorcar : TransportMode
  motorhome : TransportMode
  tourist_bus : TransportMode
  coach : TransportMode
  goods : TransportMode
  hgv : TransportMode
  hgv_articulated : TransportMode
  bdouble : TransportMode
  agricultural : TransportMode
  auto_rickshaw : TransportMode
  nev : TransportMode
  golf_cart : TransportMode
  microcar : TransportMode
  atv : TransportMode
  ohv : TransportMode
  snowmobile : TransportMode
  psv : TransportMode
  bus : TransportMode
  taxi : TransportMode
  minibus : TransportMode
  share_taxi : TransportMode
  hov : TransportMode
  carpool : TransportMode
  car_sharing : TransportMode
  emergency : TransportMode
  hazmat : TransportMode
  hazmat_water : TransportMode
  school_bus : TransportMode
  disabled : TransportMode
  water_access : TransportMode
  swimming : TransportMode
  ice_skates : TransportMode
  boat : TransportMode
  motorboat : TransportMode
  sailboat : TransportMode
  canoe : TransportMode
  fishing_vessel : TransportMode
  ship : TransportMode
  passenger : TransportMode
  cargo : TransportMode
  bulk : TransportMode
  tanker : TransportMode
  tanker_gas : TransportMode
  tanker_oil : TransportMode
  tanker_chemical : TransportMode
  tanker_singlehull : TransportMode
  container : TransportMode
  imdg : TransportMode
  isps : TransportMode
  rail_access : TransportMode
  train : TransportMode
  tram : TransportMode
  metro : TransportMode

-- The `repr(u8)` discriminant.
unfoldable pub discriminant : TransportMode → ℕ
discriminant all = 0
discriminant foot = 1
discriminant dog = 2
discriminant ski = 3
discriminant ski_nordic = 4
discriminant ski_alpine = 5
discriminant ski_telemark = 6
discriminant inline_skates = 7
discriminant horse = 8
discriminant portage = 9
discriminant bicycle = 10
discriminant electric_bicycle = 11
discriminant mtb = 12
discriminant cargo_bike = 13
discriminant kick_scooter = 14
discriminant carriage = 15
discriminant cycle_rickshaw = 16
discriminant hand_cart = 17
discriminant trailer = 18
discriminant caravan = 19
discriminant vehicle = 20
discriminant motor_vehicle = 21
discriminant motorcycle = 22
discriminant moped = 23
discriminant speed_pedelec = 24
discriminant mofa = 25
discriminant small_electric_vehicle = 26
discriminant motorcar = 27
discriminant motorhome = 28
discriminant tourist_bus = 29
discriminant coach = 30
discriminant goods = 31
discriminant hgv = 32
discriminant hgv_articulated = 33
discriminant bdouble = 34
discriminant agricultural = 35
discriminant auto_rickshaw = 36
discriminant nev = 37
discriminant golf_cart = 38
discriminant microcar = 39
discriminant atv = 40
discriminant ohv = 41
discriminant snowmobile = 42
discriminant psv = 43
discriminant bus = 44
discriminant taxi = 45
discriminant minibus = 46
discriminant share_taxi = 47
discriminant hov = 48
discriminant carpool = 49
discriminant car_sharing = 50
discriminant emergency = 51
discriminant hazmat = 52
discriminant hazmat_water = 53
discriminant school_bus = 54
discriminant disabled = 55
discriminant water_access = 56
discriminant swimming = 57
discriminant ice_skates = 58
discriminant boat = 59
discriminant motorboat = 60
discriminant sailboat = 61
discriminant canoe = 62
discriminant fishing_vessel = 63
discriminant ship = 64
discriminant passenger = 65
discriminant cargo = 66
discriminant bulk = 67
discriminant tanker = 68
discriminant tanker_gas = 69
discriminant tanker_oil = 70
discriminant tanker_chemical = 71
discriminant tanker_singlehull = 72
discriminant container = 73
discriminant imdg = 74
discriminant isps = 75
discriminant rail_access = 76
discriminant train = 77
discriminant tram = 78
discriminant metro = 79

-- The derived `PartialEq`.
unfoldable pub mode_eq : TransportMode → TransportMode → Bool
unfolding discriminant
mode_eq a b = discriminant a == discriminant b
