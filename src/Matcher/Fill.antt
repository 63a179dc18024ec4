-- ===== src/Matcher/Fill.antt =====
-- The loop that fills the weighed boundaries.
use routers.Common.{
  ℕ, suc, ◌*◌, ◌≡◌, ◌≢◌, refl, ◌∙◌, sym, subst, List, [], ◌∷◌, map, some, All, inl, inr, length,
  get_elem?, get_elem?-set_ne, set, if◌then◌else◌, Bool-cases,
}
use routers.Common.Outcome.{ok, Safe}
use routers.Trellis.Types.{LayerId, resolved}
use routers.Trellis.Graph.{Trellis}
use routers.Trellis.Edit.{check_rows, fill_transition, stored_weight}
use routers.Trellis.Effects.{fill_transition_lem}
use routers.Trellis.Valid.{IsValid, fill_transition-Safe}
use routers.Matcher.Weigh.{all_absent, fill_all}

-- A matrix that fits a boundary of the trellis.
pub record FitsIn (widths : List ℕ) (bm : LayerId × List ℕ) : Type 0 where
  pub cur : ℕ
  pub next : ℕ
  pub cur_eq : get_elem? widths bm.0 ≡ some cur
  pub next_eq : get_elem? widths (suc bm.0) ≡ some next
  pub size : length bm.1 ≡ cur * next
  pub checked : check_rows bm.1 ≡ ok tt

-- What the loop leaves: a valid trellis of the same layers, with the transitions of the boundaries that
-- are not filled as they were.
pub record Filled (t u : Trellis) (ms : List (LayerId × List ℕ)) : Type 0 where
  pub valid : IsValid u
  pub widths_eq : u.widths ≡ t.widths
  pub nodes_eq : u.nodes ≡ t.nodes
  pub others :
      (i : ℕ)
      → All (λ (bm : LayerId × List ℕ). bm.0 ≢ i) ms
      → get_elem? u.transitions i ≡ get_elem? t.transitions i

pub fill_one :
    (b : LayerId) (m : List ℕ) (t : Trellis)
    → IsValid t
    → FitsIn t.widths (b, m)
    → (u : Trellis) × ((if all_absent m then ok t else fill_transition b m t) ≡ ok u)
      × Filled t u ((b, m) ∷ [])
fill_one b m t v f = elim (Bool-cases (all_absent m)) [
  | inl absent ↦ (
    t,
    rw absent refl,
    record { valid = v; widths_eq = refl; nodes_eq = refl; others = λ i h. refl },
  )
  | inr bridged ↦
      let done = fill_transition_lem b m t f.cur f.next v f.cur_eq f.next_eq f.size f.checked in
      (
        record t { transitions = set t.transitions b (resolved (map stored_weight m)) },
        rw bridged done,
        record {
          valid = subst (Safe IsValid) done (fill_transition-Safe b m t v);
          widths_eq = refl;
          nodes_eq = refl;
          others = λ i h. get_elem?-set_ne t.transitions b i (resolved (map stored_weight m)) h.0;
        },
      )
]

pub FitsIn-All :
    (xs ys : List ℕ) (ms : List (LayerId × List ℕ))
    → xs ≡ ys
    → All (FitsIn xs) ms
    → All (FitsIn ys) ms
FitsIn-All xs ys ms e h = subst (λ ws. All (FitsIn ws) ms) e h

-- The loop over matrices that fit ends without an error.
pub fill_all-Filled :
    (ms : List (LayerId × List ℕ)) (t : Trellis)
    → IsValid t
    → All (FitsIn t.widths) ms
    → (u : Trellis) × (fill_all ms t ≡ ok u) × Filled t u ms
unfolding fill_all
fill_all-Filled [] t v h =
    (t, refl, record { valid = v; widths_eq = refl; nodes_eq = refl; others = λ i h. refl })
fill_all-Filled ((b, m) ∷ rest) t v (here, fits) =
    let (u, filled, one) = fill_one b m t v here in
    let (z, loop, more) =
      fill_all-Filled rest u one.valid
        (FitsIn-All t.widths u.widths rest (sym one.widths_eq) fits) in
    (
      z,
      rw (filled, fill_all) loop,
      record {
        valid = more.valid;
        widths_eq = more.widths_eq ∙ one.widths_eq;
        nodes_eq = more.nodes_eq ∙ one.nodes_eq;
        others = λ i h. more.others i h.1 ∙ one.others i (h.0, tt);
      },
    )
