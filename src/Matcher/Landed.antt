-- ===== src/Matcher/Landed.antt =====
-- Where each weighed boundary ends, when the loop fills them in order.
use routers.Common.{
  ℕ, suc, ◌≤◌, ◌<◌, ◌≡◌, ◌≢◌, ap, ◌∙◌, sym, List, [], ◌∷◌, map, some, All, arith, inl, inr, length,
  get_elem?, get_elem?-set_self, lt_of_get_elem?, set, if◌then◌else◌, Bool-cases,
}
use routers.Common.Outcome.{Outcome, ok, err, panic, ok-injective}
use routers.Trellis.Types.{LayerId, TrellisError, Transition, resolved, pending}
use routers.Trellis.Graph.{Trellis}
use routers.Trellis.Edit.{fill_transition, stored_weight}
use routers.Trellis.Effects.{fill_transition_lem}
use routers.Trellis.Valid.{IsValid}
use routers.Matcher.Weigh.{all_absent, fill_all}
use routers.Matcher.Fill.{FitsIn, fill_one, FitsIn-All, fill_all-Filled}

-- The keys of the matrices ascend from `lo` on.
abbrev pub Ascends : ℕ → List (LayerId × List ℕ) → Type 0
Ascends lo [] = Unit
Ascends lo (bm ∷ rest) = (lo ≤ bm.0) × Ascends (suc bm.0) rest

-- What becomes of a pending boundary that was weighed.
abbrev pub landed : List ℕ → Transition
landed matrix = if all_absent matrix then pending else resolved (map stored_weight matrix)

-- A weighed boundary of the trellis is as the loop leaves it.
abbrev pub HasLanded : Trellis → LayerId × List ℕ → Type 0
HasLanded u bm = get_elem? u.transitions bm.0 ≡ some (landed bm.1)

-- A boundary that is still to be filled.
abbrev pub Waits : Trellis → LayerId × List ℕ → Type 0
Waits t bm = get_elem? t.transitions bm.0 ≡ some pending

keys_above :
    (lo i : ℕ) (ms : List (LayerId × List ℕ))
    → i < lo
    → Ascends lo ms
    → All (λ (bm : LayerId × List ℕ). bm.0 ≢ i) ms
keys_above lo i [] h asc = tt
keys_above lo i (bm ∷ rest) h asc = (
  λ e. absurd (omega (arith, e, asc.0)),
  keys_above (suc bm.0) i rest (omega (arith, asc.0)) asc.1,
)

one_landed :
    (b : LayerId) (m : List ℕ) (t u : Trellis)
    → b < length t.transitions
    → get_elem? t.transitions b ≡ some pending
    → IsValid t
    → FitsIn t.widths (b, m)
    → (if all_absent m then ok t else fill_transition b m t) ≡ ok u
    → HasLanded u (b, m)
one_landed b m t u inside waits v f e = elim (Bool-cases (all_absent m)) [
  | inl absent ↦
      let same : t ≡ u =
        ok-injective t u (ap (λ c. if c then ok t else fill_transition b m t) (sym absent) ∙ e) in
      rw (absent, ← same) waits
  | inr bridged ↦
      let done = fill_transition_lem b m t f.cur f.next v f.cur_eq f.next_eq f.size f.checked in
      let same : record t { transitions = set t.transitions b (resolved (map stored_weight m)) }
          ≡ u =
        ok-injective
          (record t { transitions = set t.transitions b (resolved (map stored_weight m)) }) u
          (sym done ∙ ap (λ c. if c then ok t else fill_transition b m t) (sym bridged) ∙ e) in
      rw (bridged, ← same)
        (get_elem?-set_self t.transitions b (resolved (map stored_weight m)) inside)
]

Waits-after :
    (b lo : ℕ) (t u : Trellis) (ms : List (LayerId × List ℕ))
    → ((i : ℕ) → b ≢ i → get_elem? u.transitions i ≡ get_elem? t.transitions i)
    → b < lo
    → Ascends lo ms
    → All (Waits t) ms
    → All (Waits u) ms
Waits-after b lo t u [] kept h asc k = tt
Waits-after b lo t u (bm ∷ rest) kept h asc k = (
  kept bm.0 (λ e. absurd (omega (arith, e, asc.0))) ∙ k.0,
  Waits-after b (suc bm.0) t u rest kept (omega (arith, asc.0)) asc.1 k.1,
)

-- Every matrix lands, when its boundary is pending and the keys ascend.
pub fill_all-HasLanded :
    (ms : List (LayerId × List ℕ)) (lo : ℕ) (t u : Trellis)
    → IsValid t
    → All (FitsIn t.widths) ms
    → Ascends lo ms
    → All (Waits t) ms
    → fill_all ms t ≡ ok u
    → All (HasLanded u) ms
unfolding fill_all
fill_all-HasLanded [] lo t u v fits asc waits e = tt
fill_all-HasLanded ((b, m) ∷ rest) lo t u v (here, fits) asc (wait, waits) e =
    let (z, filled, one) = fill_one b m t v here in
    let fits' = FitsIn-All t.widths z.widths rest (sym one.widths_eq) fits in
    let loop : fill_all rest z ≡ ok u =
      ap
        (λ (r : Outcome TrellisError Trellis). elim r [
          | ok x ↦ fill_all rest x
          | err x ↦ err (x, t)
          | panic ↦ panic
        ])
        (sym filled)
      ∙ e in
    let (y, ended, more) = fill_all-Filled rest z one.valid fits' in
    let same : y ≡ u = ok-injective y u (sym ended ∙ loop) in
    let here' = one_landed b m t z (lt_of_get_elem? t.transitions b wait) wait v here filled in
    (
      ap (λ (x : Trellis). get_elem? x.transitions b) (sym same)
          ∙ more.others b (keys_above (suc b) b rest (omega arith) asc.1)
          ∙ here',
      fill_all-HasLanded rest (suc b) z u one.valid fits' asc.1
          (Waits-after b (suc b) t z rest (λ i h. one.others i (h, tt)) (omega arith) asc.1 waits)
          loop,
    )
