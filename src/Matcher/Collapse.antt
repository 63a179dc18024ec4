-- ===== src/Matcher/Collapse.antt =====
-- The breaks that `frontier_collapse` of libs/routers_transition/src/weigh/mod.rs names.
use mathlib.Core.List.{Memᴰ}
use mathlib.Core.List.Memᴰ
use mathlib.Core.Option.{some-injective}
use native.Mathlib.Numerals.{add-one}
use routers.Common.{
  ℕ, zero, suc, ◌+◌, ◌≤◌, ◌<◌, ◌≡◌, refl, ap, ◌∙◌, sym, subst, List, [], ◌∷◌, some, arith, length,
  get_elem?, get_elem?-some, u32_mod, All-get_elem?,
}
use routers.Common.Maybe.{◌>>=◌}
use routers.Trellis.Types.{LayerId, NodeId}
use routers.Trellis.Graph.{Trellis, boundaries, range_from}
use routers.Trellis.Shape.{IsShaped-length}
use routers.Trellis.Valid.{IsValid, IsWidth}
use routers.Matcher.Frontier.{next_frontier, collapse_from, frontier_collapse}
use routers.Matcher.Pending.{boundaries_lem}
use routers.Matcher.Live.{range_from-Mem, Mem-range_from}
use routers.Matcher.Alive.{IsLive, IsLive-lt, IsFrontier, Inside, Passed, next_frontier-Passed}

step_break :
    (t : Trellis) (b width : ℕ) (rest xs : List ℕ)
    → get_elem? t.widths (suc b) ≡ some width
    → next_frontier t b width xs ≡ some []
    → collapse_from t (b ∷ rest) xs
      ≡ (collapse_from t rest (range_from 0 width) >>= λ breaks. some (b ∷ breaks))
unfolding collapse_from
step_break t b width rest xs p q = rw (collapse_from, add-one, p, q) refl

step_on :
    (t : Trellis) (b width : ℕ) (rest xs : List ℕ) (n : NodeId) (ns : List NodeId)
    → get_elem? t.widths (suc b) ≡ some width
    → next_frontier t b width xs ≡ some (n ∷ ns)
    → collapse_from t (b ∷ rest) xs ≡ collapse_from t rest (n ∷ ns)
unfolding collapse_from
step_on t b width rest xs n ns p q = rw (collapse_from, add-one, p, q) refl

width_after :
    (t : Trellis) (l k : ℕ)
    → IsValid t
    → l + suc k ≡ length t.transitions
    → (width : ℕ) × (get_elem? t.widths (suc l) ≡ some width)
width_after t l k v e =
    get_elem?-some t.widths (suc l) (omega (arith, IsShaped-length t.widths t.transitions v.shape))

Inside-below :
    (t : Trellis) (l width : ℕ) (xs : List NodeId)
    → get_elem? t.widths l ≡ some width
    → ((n : NodeId) → Memᴰ n xs → n < width)
    → Inside t l xs
Inside-below t l width xs at h = λ n m. (width, at, h n m)

range_below : (width : ℕ) (n : NodeId) → Memᴰ n (range_from 0 width) → n < width
range_below width n m = omega (arith, (Mem-range_from 0 width n m).1)

-- The loop does not panic, wherever it starts.
collapse_from-total :
    (t : Trellis) (l k : ℕ) (xs : List NodeId)
    → IsValid t
    → l + k ≡ length t.transitions
    → Inside t l xs
    → (breaks : List LayerId) × (collapse_from t (range_from l k) xs ≡ some breaks)
unfolding collapse_from range_from
collapse_from-total t l zero xs v e inside = ([], refl)
collapse_from-total t l (suc k) xs v e inside =
    let (width, at) = width_after t l k v e in
    let (out, passed) = next_frontier-Passed t l width xs v at inside in
    of_next width at (λ ys h. collapse_from-total t (suc l) k ys v (omega arith) h) out passed.found
      passed.below
  where
    of_next :
        (width : ℕ)
        → get_elem? t.widths (suc l) ≡ some width
        → ((ys : List NodeId)
            → Inside t (suc l) ys
            → (breaks : List LayerId) × (collapse_from t (range_from (suc l) k) ys ≡ some breaks))
        → (out : List NodeId) → next_frontier t l width xs ≡ some out
        → ((n : NodeId) → Memᴰ n out → n < width)
        → (breaks : List LayerId) × (collapse_from t (l ∷ range_from (suc l) k) xs ≡ some breaks)
    of_next width at later [] found below =
        let (breaks, rest) =
          later (range_from 0 width)
            (Inside-below t (suc l) width (range_from 0 width) at (range_below width)) in
        (l ∷ breaks, step_break t l width (range_from (suc l) k) xs at found ∙ rw rest refl)
    of_next width at later (n ∷ ns) found below =
        let (breaks, rest) = later (n ∷ ns) (Inside-below t (suc l) width (n ∷ ns) at below) in
        (breaks, step_on t l width (range_from (suc l) k) xs n ns at found ∙ rest)

-- What the breaks say: with none, a path of present edges reaches the last layer; the first one is the
-- boundary that no such path crosses, while one reaches it.
abbrev pub Diagnosed : Trellis → ℕ → List LayerId → Type 0
Diagnosed t final [] = (n : NodeId) × IsLive t final n
Diagnosed t final (b ∷ bs) =
    (b < final) × ((n : NodeId) × IsLive t b n) × ((n : NodeId) → IsLive t (suc b) n → ⊥)

IsFrontier-step :
    (t : Trellis) (l width : ℕ) (xs out : List NodeId)
    → get_elem? t.widths (suc l) ≡ some width
    → IsFrontier t l xs
    → Passed t l width xs out
    → IsFrontier t (suc l) out
IsFrontier-step t l width xs out at f p = record {
  sound = λ n m.
      let (s, source, x, weight, real) = p.from_source n m in
      (width, at, p.below n m, s, f.sound s source, x, weight, real);
  complete = λ n (w, w_eq, n_lt, s, live, x, weight, real).
      p.to_target n s x (subst (λ k. n < k) (some-injective w width (sym w_eq ∙ at)) n_lt)
        (f.complete s live) weight real;
}

collapse_from-Diagnosed :
    (t : Trellis) (l k : ℕ) (first : NodeId) (others : List NodeId)
    → IsValid t
    → l + k ≡ length t.transitions
    → IsFrontier t l (first ∷ others)
    → (breaks : List LayerId) × (collapse_from t (range_from l k) (first ∷ others) ≡ some breaks)
      × Diagnosed t (l + k) breaks
unfolding collapse_from range_from
collapse_from-Diagnosed t l zero first others v e f = (
  [],
  refl,
  (first, subst (λ i. IsLive t i first) (plus_zero l) (f.sound first (Memᴰ.head refl))),
)
  where
    plus_zero : (n : ℕ) → n ≡ n + 0
    plus_zero n = omega arith
collapse_from-Diagnosed t l (suc k) first others v e f =
    let (width, at) = width_after t l k v e in
    let (out, passed) =
      next_frontier-Passed t l width (first ∷ others) v at (λ n m. IsLive-lt t l n (f.sound n m)) in
    of_next width at (λ n ns g. collapse_from-Diagnosed t (suc l) k n ns v (omega arith) g) out
      passed.found (IsFrontier-step t l width (first ∷ others) out at f passed)
  where
    step : (n m : ℕ) → suc n + m ≡ n + suc m
    step n m = omega arith

    of_next :
        (width : ℕ)
        → get_elem? t.widths (suc l) ≡ some width
        → ((n : NodeId) (ns : List NodeId)
            → IsFrontier t (suc l) (n ∷ ns)
            → (breaks : List LayerId) × (collapse_from t (range_from (suc l) k) (n ∷ ns)
                ≡ some breaks)
              × Diagnosed t (suc l + k) breaks)
        → (out : List NodeId) → next_frontier t l width (first ∷ others) ≡ some out
        → IsFrontier t (suc l) out
        → (breaks : List LayerId) × (collapse_from t (l ∷ range_from (suc l) k) (first ∷ others)
            ≡ some breaks)
          × Diagnosed t (l + suc k) breaks
    of_next width at later [] found g =
        let (breaks, rest) =
          collapse_from-total t (suc l) k (range_from 0 width) v (omega arith)
            (Inside-below t (suc l) width (range_from 0 width) at (range_below width)) in
        (
          l ∷ breaks,
          step_break t l width (range_from (suc l) k) (first ∷ others) at found ∙ rw rest refl,
          (
            omega arith,
            (first, f.sound first (Memᴰ.head refl)),
            λ n live. Memᴰ.not-nil (g.complete n live),
          ),
        )
    of_next width at later (n ∷ ns) found g =
        let (breaks, rest, said) = later n ns g in
        (
          breaks,
          step_on t l width (range_from (suc l) k) (first ∷ others) n ns at found ∙ rest,
          subst (λ i. Diagnosed t i breaks) (step l k) said,
        )

zero_plus : (n : ℕ) → 0 + n ≡ n
zero_plus n = omega arith

frontier_collapse_lem :
    (t : Trellis) (width : ℕ)
    → get_elem? t.widths 0 ≡ some width
    → frontier_collapse t ≡ collapse_from t (boundaries t) (range_from 0 width)
unfolding frontier_collapse
frontier_collapse_lem t width e = rw (frontier_collapse, e) refl

-- On a valid trellis of at most 2^32 layers `frontier_collapse` does not panic. If it names no boundary,
-- a path of present edges reaches the last layer; otherwise the first boundary it names is the first
-- that no such path crosses.
pub frontier_collapse-Diagnosed :
    (t : Trellis)
    → IsValid t
    → length t.transitions ≤ u32_mod
    → (breaks : List LayerId) × (frontier_collapse t ≡ some breaks)
      × Diagnosed t (length t.transitions) breaks
frontier_collapse-Diagnosed t v small =
    let (width, at) = get_elem?-some t.widths 0 v.has_layer in
    let positive : 0 < width = (All-get_elem? IsWidth t.widths 0 v.widths_ok at).0 in
    let (breaks, found, said) = from_first width at (range_from 0 width) refl positive in
    (
      breaks,
      frontier_collapse_lem t width at
          ∙ ap (λ bs. collapse_from t bs (range_from 0 width)) (boundaries_lem t small)
          ∙ found,
      said,
    )
  where
    from_first :
        (width : ℕ)
        → get_elem? t.widths 0 ≡ some width
        → (xs : List NodeId) → range_from 0 width ≡ xs
        → 0 < width
        → (breaks : List LayerId) × (collapse_from t
              (range_from 0 (length t.transitions))
              (range_from 0 width)
            ≡ some breaks)
          × Diagnosed t (length t.transitions) breaks
    from_first width at xs e positive = of_list xs e
      where
        f : IsFrontier t 0 (range_from 0 width)
        f = record {
          sound = λ n m. (width, at, range_below width n m);
          complete = λ n (w, w_eq, h).
              range_from-Mem 0 width n (omega arith)
                (omega (arith, h, some-injective w width (sym w_eq ∙ at)));
        }

        of_list :
            (ys : List NodeId)
            → range_from 0 width ≡ ys
            → (breaks : List LayerId) × (collapse_from t
                  (range_from 0 (length t.transitions))
                  (range_from 0 width)
                ≡ some breaks)
              × Diagnosed t (length t.transitions) breaks
        of_list [] q =
            absurd (
              Memᴰ.not-nil
                (subst (Memᴰ 0) q (range_from-Mem 0 width 0 (omega arith) (omega arith))))
        of_list (n ∷ ns) q =
            let (breaks, found, said) =
              collapse_from-Diagnosed t 0 (length t.transitions) n ns v (omega arith)
                (subst (IsFrontier t 0) q f) in
            (
              breaks,
              ap (collapse_from t (range_from 0 (length t.transitions))) q ∙ found,
              subst (λ i. Diagnosed t i breaks) (zero_plus (length t.transitions)) said,
            )
