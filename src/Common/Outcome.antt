-- ===== src/Common/Outcome.antt =====
-- What a Rust call can do: return `Ok`, return `Err`, or panic.
use mathlib.Core.Path.{◌≡◌, refl}
use mathlib.Core.Bool.{Bool, true, false}
use mathlib.Core.Option.{Option, none, some}
use native.Mathlib.Omega.{arith}

pub data Outcome {ℓ κ} (E : Type κ) (A : Type ℓ) : Type (ℓ ⊔ κ) where
  ok : A → Outcome E A
  err : E → Outcome E A
  panic : Outcome E A

infixl 5 ◌>>=◌ ◌>>◌
abbrev pub ◌>>=◌ {ℓ ℓ' κ} :
    {E : Type κ} {A : Type ℓ} {B : Type ℓ'} → Outcome E A → (A → Outcome E B) → Outcome E B
ok a >>= f = f a
err e >>= f = err e
panic >>= f = panic

abbrev pub ◌>>◌ {ℓ κ} : {E : Type κ} {B : Type ℓ} → Outcome E (Unit {0}) → Outcome E B → Outcome E B
m >> k = m >>= λ _. k

-- `if cond { return Err(e) }`
abbrev pub fail_if {κ} : {E : Type κ} → Bool → E → Outcome E (Unit {0})
fail_if true e = err e
fail_if false e = ok tt

-- `o.ok_or(e)?`
abbrev pub ok_or {ℓ κ} : {E : Type κ} {A : Type ℓ} → Option A → E → Outcome E A
ok_or none e = err e
ok_or (some a) e = ok a

-- An index or an `unwrap` that panics.
abbrev pub or_panic {ℓ κ} : {E : Type κ} {A : Type ℓ} → Option A → Outcome E A
or_panic none = panic
or_panic (some a) = ok a

-- A chain that returned: its first call returned, and the rest did from there.
pub >>=-eq-ok {κ ℓ ℓ'} :
    {E : Type κ} {A : Type ℓ} {B : Type ℓ'} (call : Outcome E A) (rest : A → Outcome E B) {out : B}
    → (call >>= rest) ≡ ok out
    → (mid : A) × (call ≡ ok mid) × (rest mid ≡ ok out)
>>=-eq-ok panic rest e = absurd (ground arith)
>>=-eq-ok (err x) rest e = absurd (ground arith)
>>=-eq-ok (ok mid) rest e = (mid, refl, e)

-- `o.expect(..)`: an error is a panic too.
abbrev pub expect {ℓ κ} : {E : Type κ} {A : Type ℓ} → Outcome E A → Option A
expect (ok a) = some a
expect (err e) = none
expect panic = none

-- The call does not panic, and what it returns, if it returns `Ok`, satisfies the predicate.
abbrev pub Safe {ℓ κ} : {E : Type κ} {A : Type ℓ} → (A → Type 0) → Outcome E A → Type 0
Safe P (ok a) = P a
Safe P (err e) = Unit
Safe P panic = ⊥

pub Safe-bind {ℓ ℓ' κ} :
    {E : Type κ} {A : Type ℓ} {B : Type ℓ'} (P : A → Type 0) (Q : B → Type 0) (m : Outcome E A)
    (f : A → Outcome E B)
    → Safe P m
    → ((a : A) → m ≡ ok a → P a → Safe Q (f a))
    → Safe Q (m >>= f)
Safe-bind P Q (ok a) f h k = k a refl h
Safe-bind P Q (err e) f h k = tt
Safe-bind P Q panic f h k = absurd h

-- A guard that passes, and one that stops the call.
pub Safe-fail_if {ℓ κ} :
    {E : Type κ} {B : Type ℓ} (Q : B → Type 0) (b : Bool) (e : E) (m : Outcome E B)
    → (b ≡ false → Safe Q m)
    → Safe Q (fail_if b e >> m)
Safe-fail_if Q true e m h = tt
Safe-fail_if Q false e m h = h refl

-- An index that is in range.
pub Safe-or_panic {ℓ ℓ' κ} :
    {E : Type κ} {A : Type ℓ} {B : Type ℓ'} (Q : B → Type 0) (o : Option A) (f : A → Outcome E B)
    (a : A)
    → o ≡ some a
    → Safe Q (f a)
    → Safe Q (or_panic o >>= f)
Safe-or_panic Q o f a e h = rw e h

pub Safe-map {ℓ κ} :
    {E : Type κ} {A : Type ℓ} (P Q : A → Type 0) (m : Outcome E A)
    → ((a : A) → P a → Q a)
    → Safe P m
    → Safe Q m
Safe-map P Q (ok a) k h = k a h
Safe-map P Q (err e) k h = tt
Safe-map P Q panic k h = h

pub ok-injective {ℓ κ} :
    {E : Type κ} {A : Type ℓ} (a b : A) → ◌≡◌ {A = Outcome E A} (ok a) (ok b) → a ≡ b
ok-injective a b e = cc
