-- ===== src/Solver/Narrow.antt =====
-- The frontier that `converged_layer` keeps: sorted, without repetition, and with the same nodes.
use mathlib.Core.List.{Memᴰ}
use mathlib.Core.List.Memᴰ
use routers.Common.{
  ℕ, ◌≤◌, ◌<◌, ◌≡◌, ◌≢◌, ◌↔◌, refl, ap, ◌∙◌, sym, subst, ◌⊎◌, inl, inr, List, [], ◌∷◌, true, false,
  arith, length, leb, ◌==◌, le→leb, ℕ_discrete, dec_le, eq→==,
}
use routers.Solver.Convergence.{insert, sort, dedup_from, dedup}

-- Each item is at most, or less than, the next.
abbrev pub IsAscending : List ℕ → Type 0
IsAscending [] = Unit
IsAscending (x ∷ []) = Unit
IsAscending (x ∷ y ∷ ys) = (x ≤ y) × IsAscending (y ∷ ys)

abbrev pub IsStrict : List ℕ → Type 0
IsStrict [] = Unit
IsStrict (x ∷ []) = Unit
IsStrict (x ∷ y ∷ ys) = (x < y) × IsStrict (y ∷ ys)

gt→leb : (a b : ℕ) → b < a → leb a b ≡ false
gt→leb a b h = ground arith

ne→== : (a b : ℕ) → a ≢ b → (a == b) ≡ false
ne→== a b h = ground arith

insert-here : (n x : ℕ) (xs : List ℕ) → n ≤ x → insert n (x ∷ xs) ≡ n ∷ x ∷ xs
unfolding insert
insert-here n x xs h = rw (le→leb n x h) refl

insert-later : (n x : ℕ) (xs : List ℕ) → x < n → insert n (x ∷ xs) ≡ x ∷ insert n xs
unfolding insert
insert-later n x xs h = rw (gt→leb n x h) refl

insert-IsAscending : (n : ℕ) (xs : List ℕ) → IsAscending xs → IsAscending (insert n xs)
unfolding insert
insert-IsAscending n [] h = tt
insert-IsAscending n (x ∷ []) h = elim (dec_le n x) [
  | yes le ↦ rw (le→leb n x le) (le, tt)
  | no gt ↦ rw (gt→leb n x (omega arith)) (omega arith, tt)
]
insert-IsAscending n (x ∷ y ∷ ys) h = elim (dec_le n x) [
  | yes le ↦ rw (le→leb n x le) (le, h)
  | no gt ↦ rw (gt→leb n x (omega arith)) (after (omega arith) (insert-IsAscending n (y ∷ ys) h.1))
]
  where
    after : x ≤ n → IsAscending (insert n (y ∷ ys)) → IsAscending (x ∷ insert n (y ∷ ys))
    after low k = elim (dec_le n y) [
      | yes le ↦ subst (λ l. IsAscending (x ∷ l)) (sym (insert-here n y ys le)) (low, (le, h.1))
      | no gt ↦
          subst (λ l. IsAscending (x ∷ l)) (sym (insert-later n y ys (omega arith)))
            (h.0, subst IsAscending (insert-later n y ys (omega arith)) k)
    ]

pub sort-IsAscending : (xs : List ℕ) → IsAscending (sort xs)
unfolding sort
sort-IsAscending [] = tt
sort-IsAscending (x ∷ xs) = insert-IsAscending x (sort xs) (sort-IsAscending xs)

Mem-insert : (n m : ℕ) (xs : List ℕ) → Memᴰ m (insert n xs) → (m ≡ n) ⊎ Memᴰ m xs
unfolding insert
Mem-insert n m [] h = elim (Memᴰ.cases_cons h) [ inl e ↦ inl e | inr k ↦ inr k ]
Mem-insert n m (x ∷ xs) h = elim (dec_le n x) [
  | yes le ↦ Memᴰ.cases_cons (subst (Memᴰ m) (insert-here n x xs le) h)
  | no gt ↦ elim (Memᴰ.cases_cons (subst (Memᴰ m) (insert-later n x xs (omega arith)) h)) [
    | inl e ↦ inr (Memᴰ.head e)
    | inr k ↦ elim (Mem-insert n m xs k) [ inl e ↦ inl e | inr j ↦ inr (Memᴰ.tail j) ]
  ]
]

insert-Mem : (n m : ℕ) (xs : List ℕ) → (m ≡ n) ⊎ Memᴰ m xs → Memᴰ m (insert n xs)
unfolding insert
insert-Mem n m [] (inl e) = Memᴰ.head e
insert-Mem n m [] (inr k) = absurd (Memᴰ.not-nil k)
insert-Mem n m (x ∷ xs) h = elim (dec_le n x) [
  | yes le ↦
      subst (Memᴰ m) (sym (insert-here n x xs le))
        (elim h [ inl e ↦ Memᴰ.head e | inr k ↦ Memᴰ.tail k ])
  | no gt ↦ subst (Memᴰ m) (sym (insert-later n x xs (omega arith))) (elim h [
    | inl e ↦ Memᴰ.tail (insert-Mem n m xs (inl e))
    | inr k ↦ elim (Memᴰ.cases_cons k) [
      | inl e ↦ Memᴰ.head e
      | inr j ↦ Memᴰ.tail (insert-Mem n m xs (inr j))
    ]
  ])
]

Mem-sort : (m : ℕ) (xs : List ℕ) → Memᴰ m (sort xs) → Memᴰ m xs
unfolding sort
Mem-sort m [] h = h
Mem-sort m (x ∷ xs) h = elim (Mem-insert x m (sort xs) h) [
  | inl e ↦ Memᴰ.head e
  | inr k ↦ Memᴰ.tail (Mem-sort m xs k)
]

sort-Mem : (m : ℕ) (xs : List ℕ) → Memᴰ m xs → Memᴰ m (sort xs)
unfolding sort
sort-Mem m [] h = h
sort-Mem m (x ∷ xs) h = elim (Memᴰ.cases_cons h) [
  | inl e ↦ insert-Mem x m (sort xs) (inl e)
  | inr k ↦ insert-Mem x m (sort xs) (inr (sort-Mem m xs k))
]

-- A repeated item is dropped, another one is kept.
dedup_from-same : (x y : ℕ) (ys : List ℕ) → x ≡ y → dedup_from x (y ∷ ys) ≡ dedup_from x ys
unfolding dedup_from
dedup_from-same x y ys e =
    ap (λ b. elim b [ true ↦ dedup_from x ys | false ↦ x ∷ dedup_from y ys ]) (eq→== x y e)

dedup_from-other : (x y : ℕ) (ys : List ℕ) → x ≢ y → dedup_from x (y ∷ ys) ≡ x ∷ dedup_from y ys
unfolding dedup_from
dedup_from-other x y ys h =
    ap (λ b. elim b [ true ↦ dedup_from x ys | false ↦ x ∷ dedup_from y ys ]) (ne→== x y h)

dedup_from-Mem : (m x : ℕ) (ys : List ℕ) → Memᴰ m (x ∷ ys) → Memᴰ m (dedup_from x ys)
unfolding dedup_from
dedup_from-Mem m x [] h = h
dedup_from-Mem m x (y ∷ ys) h = elim (ℕ_discrete x y) [
  | yes e ↦ subst (Memᴰ m) (sym (dedup_from-same x y ys e)) (
      dedup_from-Mem m x ys (elim (Memᴰ.cases_cons h) [
        | inl k ↦ Memᴰ.head k
        | inr j ↦ elim (Memᴰ.cases_cons j) [
          | inl k ↦ Memᴰ.head (subst (λ z. m ≡ z) (sym e) k)
          | inr i ↦ Memᴰ.tail i
        ]
      ]))
  | no ne ↦ subst (Memᴰ m) (sym (dedup_from-other x y ys ne)) (elim (Memᴰ.cases_cons h) [
    | inl k ↦ Memᴰ.head k
    | inr j ↦ Memᴰ.tail (dedup_from-Mem m y ys j)
  ])
]

Mem-dedup_from : (m x : ℕ) (ys : List ℕ) → Memᴰ m (dedup_from x ys) → Memᴰ m (x ∷ ys)
unfolding dedup_from
Mem-dedup_from m x [] h = h
Mem-dedup_from m x (y ∷ ys) h = elim (ℕ_discrete x y) [
  | yes e ↦
      elim (Memᴰ.cases_cons (Mem-dedup_from m x ys (subst (Memᴰ m) (dedup_from-same x y ys e) h))) [
        | inl k ↦ Memᴰ.head k
        | inr j ↦ Memᴰ.tail (Memᴰ.tail j)
      ]
  | no ne ↦ elim (Memᴰ.cases_cons (subst (Memᴰ m) (dedup_from-other x y ys ne) h)) [
    | inl k ↦ Memᴰ.head k
    | inr j ↦ Memᴰ.tail (Mem-dedup_from m y ys j)
  ]
]

dedup_from_cons : (x : ℕ) (ys : List ℕ) → (rest : List ℕ) × (dedup_from x ys ≡ x ∷ rest)
unfolding dedup_from
dedup_from_cons x [] = ([], refl)
dedup_from_cons x (y ∷ ys) = elim (ℕ_discrete x y) [
  | yes e ↦ let (rest, q) = dedup_from_cons x ys in (rest, dedup_from-same x y ys e ∙ q)
  | no ne ↦ (dedup_from y ys, dedup_from-other x y ys ne)
]

drop_second : (x y : ℕ) (ys : List ℕ) → IsAscending (x ∷ y ∷ ys) → IsAscending (x ∷ ys)
drop_second x y [] h = tt
drop_second x y (z ∷ zs) h = (omega (arith, h.0, h.1.0), h.1.1)

dedup_from-IsStrict : (x : ℕ) (ys : List ℕ) → IsAscending (x ∷ ys) → IsStrict (dedup_from x ys)
unfolding dedup_from
dedup_from-IsStrict x [] h = tt
dedup_from-IsStrict x (y ∷ ys) h = elim (ℕ_discrete x y) [
  | yes e ↦
      subst IsStrict (sym (dedup_from-same x y ys e))
        (dedup_from-IsStrict x ys (drop_second x y ys h))
  | no ne ↦
      let (rest, q) = dedup_from_cons y ys in
      subst IsStrict (sym (dedup_from-other x y ys ne ∙ ap (λ l. x ∷ l) q))
        (omega (arith, h.0, ne), subst IsStrict q (dedup_from-IsStrict y ys h.1))
]

dedup-IsStrict : (xs : List ℕ) → IsAscending xs → IsStrict (dedup xs)
unfolding dedup
dedup-IsStrict [] h = tt
dedup-IsStrict (x ∷ xs) h = dedup_from-IsStrict x xs h

dedup-Mem : (m : ℕ) (xs : List ℕ) → Memᴰ m xs → Memᴰ m (dedup xs)
unfolding dedup
dedup-Mem m [] h = h
dedup-Mem m (x ∷ xs) h = dedup_from-Mem m x xs h

Mem-dedup : (m : ℕ) (xs : List ℕ) → Memᴰ m (dedup xs) → Memᴰ m xs
unfolding dedup
Mem-dedup m [] h = h
Mem-dedup m (x ∷ xs) h = Mem-dedup_from m x xs h

-- The narrowed frontier has the same nodes.
pub narrow-Mem : (m : ℕ) (xs : List ℕ) → Memᴰ m xs ↔ Memᴰ m (dedup (sort xs))
narrow-Mem m xs =
    (λ h. dedup-Mem m (sort xs) (sort-Mem m xs h), λ h. Mem-sort m xs (Mem-dedup m (sort xs) h))

-- A list of one item, and a strict list of more.
pub all_one : (zs : List ℕ) → (length zs == 1) ≡ true → (c : ℕ) × ((m : ℕ) → Memᴰ m zs → m ≡ c)
all_one [] e = absurd (ground arith)
all_one (z ∷ []) e =
    (z, λ m h. elim (Memᴰ.cases_cons h) [ inl q ↦ q | inr k ↦ absurd (Memᴰ.not-nil k) ])
all_one (z ∷ y ∷ zs) e = absurd (ground arith)

pub two_of_strict :
    (zs : List ℕ) (k : ℕ)
    → IsStrict zs
    → (length zs == 1) ≡ false
    → Memᴰ k zs
    → (a : ℕ) × (b : ℕ) × Memᴰ a zs × Memᴰ b zs × (a ≢ b)
two_of_strict [] k s e h = absurd (Memᴰ.not-nil h)
two_of_strict (z ∷ []) k s e h = absurd (ground arith)
two_of_strict (z ∷ y ∷ zs) k s e h =
    (z, y, Memᴰ.head refl, Memᴰ.tail (Memᴰ.head refl), λ q. absurd (omega (arith, q, s.0)))

pub narrow_one :
    (xs : List ℕ) → (length (dedup (sort xs)) == 1) ≡ true → (c : ℕ) × ((m : ℕ) → Memᴰ m xs → m ≡ c)
narrow_one xs e =
    let (c, all) = all_one (dedup (sort xs)) e in (c, λ m h. all m ((narrow-Mem m xs).0 h))

pub narrow_two :
    (xs : List ℕ) (k : ℕ)
    → (length (dedup (sort xs)) == 1) ≡ false
    → Memᴰ k xs
    → (a : ℕ) × (b : ℕ) × Memᴰ a xs × Memᴰ b xs × (a ≢ b)
narrow_two xs k e h =
    let (a, b, ha, hb, ne) =
      two_of_strict (dedup (sort xs)) k (dedup-IsStrict (sort xs) (sort-IsAscending xs)) e
        ((narrow-Mem k xs).0 h) in
    (a, b, (narrow-Mem a xs).1 ha, (narrow-Mem b xs).1 hb, ne)
