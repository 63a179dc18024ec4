-- ===== src/Codec/Transport/Matching.antt =====
-- libs/routers_codec/src/osm/parsers/primitives/transport.rs: the flags of a chain stand for the
-- chain, so that the two tests of restrictions agree.
use routers.Common.{
  ◌<◌, ◌≡◌, refl, ap, ap₂, sym, ◌∙◌, Bool, true, false, ◌||◌, List, [], ◌∷◌, ◌==◌, arith, length,
  length-append, ltb, ltb→lt, ==_iff,
}
use routers.Codec.Transport.Mode.{
  TransportMode, discriminant, mode_eq, all, foot, dog, ski, ski_nordic, ski_alpine, ski_telemark,
  inline_skates, horse, portage, bicycle, electric_bicycle, mtb, cargo_bike, kick_scooter, carriage,
  cycle_rickshaw, hand_cart, trailer, caravan, vehicle, motor_vehicle, motorcycle, moped,
  speed_pedelec, mofa, small_electric_vehicle, motorcar, motorhome, tourist_bus, coach, goods, hgv,
  hgv_articulated, bdouble, agricultural, auto_rickshaw, nev, golf_cart, microcar, atv, ohv,
  snowmobile, psv, bus, taxi, minibus, share_taxi, hov, carpool, car_sharing, emergency, hazmat,
  hazmat_water, school_bus, disabled, water_access, swimming, ice_skates, boat, motorboat, sailboat,
  canoe, fishing_vessel, ship, passenger, cargo, bulk, tanker, tanker_gas, tanker_oil,
  tanker_chemical, tanker_singlehull, container, imdg, isps, rail_access, train, tram, metro,
}
use routers.Codec.Transport.Modes.{modes}
use routers.Codec.Transport.Chain.{
  hierarchy_chain, contains, parent_modes, any_in, matches_any_restriction,
}
use routers.Codec.Transport.Flags.{FlagSet, bit, to_flag}
use routers.Codec.Transport.Restricted.{hierarchy_chain_flags, is_restricted_by}
use routers.Codec.Transport.Laws.{hierarchy_chain-parent_modes}
use routers.Codec.Transport.Checks.{every, of_modes}

small_bits : every (λ m. ltb (bit m) 128) modes ≡ true
unfolding every bit
small_bits = refl

bit-lt : (m : TransportMode) → bit m < 128
bit-lt m = ltb→lt (bit m) 128 (of_modes (λ m. ltb (bit m) 128) small_bits m)

bits_are : every (λ m. bit m == discriminant m) modes ≡ true
unfolding every bit discriminant
bits_are = refl

bit-discriminant : (m : TransportMode) → bit m ≡ discriminant m
bit-discriminant m =
    (==_iff (bit m) (discriminant m)).0 (of_modes (λ x. bit x == discriminant x) bits_are m)

abbrev pub any_mode : (TransportMode → Bool) → List TransportMode → Bool
any_mode f [] = false
any_mode f (m ∷ ms) = f m || any_mode f ms

or_false : (a : Bool) → (a || false) ≡ a
or_false a = ground arith

or_assoc : (a b c : Bool) → ((a || b) || c) ≡ (a || (b || c))
or_assoc a b c = ground arith

chain_length : (m : TransportMode) → 0 < length (hierarchy_chain m)
chain_length m =
    omega
      (arith, ap length (hierarchy_chain-parent_modes m), length-append (parent_modes m) (m ∷ []))

module _ (S : FlagSet) where
  union_of : S.Flags → List TransportMode → S.Flags
  union_of set [] = set
  union_of set (m ∷ ms) = union_of (S.union set (to_flag S m)) ms

  union_chain : List TransportMode → S.Flags → S.Flags
  unfolding union_of
  union_chain [] set = set
  union_chain (m ∷ ms) set = union_of (to_flag S m) ms

  includes-to_flag : (m r : TransportMode) → S.includes (to_flag S m) (to_flag S r) ≡ mode_eq m r
  unfolding to_flag mode_eq
  includes-to_flag m r =
      S.includes-flag (bit m) (bit r) (bit-lt m) (bit-lt r)
      ∙ ap₂ (λ x y. x == y) (bit-discriminant m) (bit-discriminant r)

  includes-union_of :
      (set : S.Flags) (ms : List TransportMode) (r : TransportMode)
      → S.includes (union_of set ms) (to_flag S r) ≡ (S.includes set (to_flag S r) || contains r ms)
  unfolding union_of contains to_flag
  includes-union_of set [] r = sym (or_false (S.includes set (to_flag S r)))
  includes-union_of set (m ∷ ms) r =
      includes-union_of (S.union set (to_flag S m)) ms r
      ∙ ap (λ b. b || contains r ms)
          (S.includes-union set (to_flag S m) (bit r) (bit-lt r)
            ∙ ap (λ b. S.includes set (to_flag S r) || b) (includes-to_flag m r))
      ∙ or_assoc (S.includes set (to_flag S r)) (mode_eq m r) (contains r ms)

  includes-union_chain :
      (ms : List TransportMode) (set : S.Flags) (r : TransportMode)
      → 0 < length ms
      → S.includes (union_chain ms set) (to_flag S r) ≡ contains r ms
  unfolding union_chain contains
  includes-union_chain [] set r h = absurd (omega arith)
  includes-union_chain (m ∷ ms) set r h =
      includes-union_of (to_flag S m) ms r ∙ ap (λ b. b || contains r ms) (includes-to_flag m r)

  -- The flags are the union of the constants of the chain.
  flags-chain :
      (m : TransportMode)
      → hierarchy_chain_flags S m ≡ union_chain (hierarchy_chain m) (to_flag S m)
  unfolding hierarchy_chain_flags hierarchy_chain union_chain union_of
  flags-chain all = refl
  flags-chain foot = refl
  flags-chain dog = refl
  flags-chain ski = refl
  flags-chain ski_nordic = refl
  flags-chain ski_alpine = refl
  flags-chain ski_telemark = refl
  flags-chain inline_skates = refl
  flags-chain horse = refl
  flags-chain portage = refl
  flags-chain bicycle = refl
  flags-chain electric_bicycle = refl
  flags-chain mtb = refl
  flags-chain cargo_bike = refl
  flags-chain kick_scooter = refl
  flags-chain carriage = refl
  flags-chain cycle_rickshaw = refl
  flags-chain hand_cart = refl
  flags-chain trailer = refl
  flags-chain caravan = refl
  flags-chain vehicle = refl
  flags-chain motor_vehicle = refl
  flags-chain motorcycle = refl
  flags-chain moped = refl
  flags-chain speed_pedelec = refl
  flags-chain mofa = refl
  flags-chain small_electric_vehicle = refl
  flags-chain motorcar = refl
  flags-chain motorhome = refl
  flags-chain tourist_bus = refl
  flags-chain coach = refl
  flags-chain goods = refl
  flags-chain hgv = refl
  flags-chain hgv_articulated = refl
  flags-chain bdouble = refl
  flags-chain agricultural = refl
  flags-chain auto_rickshaw = refl
  flags-chain nev = refl
  flags-chain golf_cart = refl
  flags-chain microcar = refl
  flags-chain atv = refl
  flags-chain ohv = refl
  flags-chain snowmobile = refl
  flags-chain psv = refl
  flags-chain bus = refl
  flags-chain taxi = refl
  flags-chain minibus = refl
  flags-chain share_taxi = refl
  flags-chain hov = refl
  flags-chain carpool = refl
  flags-chain car_sharing = refl
  flags-chain emergency = refl
  flags-chain hazmat = refl
  flags-chain hazmat_water = refl
  flags-chain school_bus = refl
  flags-chain disabled = refl
  flags-chain water_access = refl
  flags-chain swimming = refl
  flags-chain ice_skates = refl
  flags-chain boat = refl
  flags-chain motorboat = refl
  flags-chain sailboat = refl
  flags-chain canoe = refl
  flags-chain fishing_vessel = refl
  flags-chain ship = refl
  flags-chain passenger = refl
  flags-chain cargo = refl
  flags-chain bulk = refl
  flags-chain tanker = refl
  flags-chain tanker_gas = refl
  flags-chain tanker_oil = refl
  flags-chain tanker_chemical = refl
  flags-chain tanker_singlehull = refl
  flags-chain container = refl
  flags-chain imdg = refl
  flags-chain isps = refl
  flags-chain rail_access = refl
  flags-chain train = refl
  flags-chain tram = refl
  flags-chain metro = refl

  -- A mode is restricted by exactly the modes of its chain.
  pub is_restricted_by-contains :
      (m r : TransportMode) → is_restricted_by S m r ≡ contains r (hierarchy_chain m)
  unfolding is_restricted_by to_flag
  is_restricted_by-contains m r =
      ap (λ set. S.includes set (to_flag S r)) (flags-chain m)
      ∙ includes-union_chain (hierarchy_chain m) (to_flag S m) r (chain_length m)

  -- A mode matches a list of restrictions when it is restricted by one of them.
  pub matches_any_restriction-is_restricted_by :
      (m : TransportMode) (rs : List TransportMode)
      → matches_any_restriction m rs ≡ any_mode (is_restricted_by S m) rs
  unfolding matches_any_restriction any_in
  matches_any_restriction-is_restricted_by m [] = refl
  matches_any_restriction-is_restricted_by m (r ∷ rs) =
      ap₂ ◌||◌ (sym (is_restricted_by-contains m r)) (matches_any_restriction-is_restricted_by m rs)
