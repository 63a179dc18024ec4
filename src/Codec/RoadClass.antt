-- ===== src/Codec/RoadClass.antt =====
-- libs/routers_codec/src/osm/parsers/primitives/road_class.rs: the classes of roads and their weights.
use routers.Common.{ℕ, ◌≤◌, ◌<◌, ◌≡◌, ◌↔◌, ◌⊎◌, List, [], ◌∷◌, some, get_elem?}

pub data RoadClass : Type 0 where
  motorway : RoadClass
  motorway_link : RoadClass
  trunk : RoadClass
  trunk_link : RoadClass
  primary : RoadClass
  primary_link : RoadClass
  secondary : RoadClass
  secondary_link : RoadClass
  tertiary : RoadClass
  tertiary_link : RoadClass
  unclassified : RoadClass
  residential : RoadClass
  living_street : RoadClass
  service : RoadClass
  pedestrian : RoadClass
  track : RoadClass
  raceway : RoadClass
  bus_guideway : RoadClass
  busway : RoadClass
  escape : RoadClass
  road : RoadClass

unfoldable pub weighting : RoadClass → ℕ
weighting motorway = 1
weighting motorway_link = 2
weighting trunk = 3
weighting trunk_link = 4
weighting primary = 5
weighting primary_link = 6
weighting secondary = 7
weighting secondary_link = 8
weighting tertiary = 9
weighting tertiary_link = 10
weighting residential = 10
weighting busway = 10
weighting bus_guideway = 10
weighting unclassified = 10
weighting living_street = 50
weighting service = 50
weighting road = 50
weighting raceway = 100
weighting escape = 100
weighting track = 100
weighting pedestrian = 100

-- The through roads, from the most to the least important as their comments put it, and the links of all but
-- the last of them.
abbrev pub through_roads : List RoadClass
through_roads = motorway ∷ trunk ∷ primary ∷ secondary ∷ tertiary ∷ unclassified ∷ []

abbrev pub link_roads : List RoadClass
link_roads = motorway_link ∷ trunk_link ∷ primary_link ∷ secondary_link ∷ tertiary_link ∷ []

-- Where a through road stands in the order of importance: more important than another exactly if it weighs less.
abbrev pub IsThrough : ℕ → RoadClass → Type 0
IsThrough i c =
    (get_elem? through_roads i ≡ some c)
    × ((j : ℕ) (d : RoadClass)
        → get_elem? through_roads j ≡ some d
        → (i < j) ↔ (weighting c < weighting d))

-- The links of a through road: they weigh more than it and all more important ones, and no more than any that
-- is less important.
abbrev pub IsLink : ℕ → RoadClass → Type 0
IsLink i c =
    (get_elem? link_roads i ≡ some c)
    × ((j : ℕ) (d : RoadClass)
        → get_elem? through_roads j ≡ some d
        → (j ≤ i → weighting d < weighting c) × (i < j → weighting c ≤ weighting d))

-- Any other road: it weighs no less than every through road and every link.
abbrev pub IsOther : RoadClass → Type 0
IsOther c =
    (j : ℕ) (d : RoadClass)
    → (get_elem? through_roads j ≡ some d) ⊎ (get_elem? link_roads j ≡ some d)
    → weighting d ≤ weighting c

abbrev pub Ranked : RoadClass → Type 0
Ranked c = ((i : ℕ) × IsThrough i c) ⊎ ((i : ℕ) × IsLink i c) ⊎ IsOther c
