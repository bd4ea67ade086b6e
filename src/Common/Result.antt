-- ===== src/Common/Result.antt =====
-- Go's pair of a value and an error, where the value counts only when the error is nil.
use mathlib.Core.Path.{◌≡◌, refl}
use mathlib.Core.Bool.{Bool, true, false}

pub data Result {ℓ κ} (E : Type ℓ) (A : Type κ) : Type (ℓ ⊔ κ) where
  ok : A → Result E A
  err : E → Result E A

-- The rest of a function after a call that may fail: an error is returned as it is.
infixl 5 ◌>>=◌
abbrev pub ◌>>=◌ {ℓ κ μ} :
    {E : Type ℓ} {A : Type κ} {B : Type μ} → Result E A → (A → Result E B) → Result E B
err failure >>= rest = err failure
ok value >>= rest = rest value

infixl 5 ◌>>◌
abbrev pub ◌>>◌ {ℓ κ} : {E : Type ℓ} {B : Type κ} → Result E (Unit {0}) → Result E B → Result E B
err failure >> rest = err failure
ok value >> rest = rest

-- `if !test { return failure }`
abbrev pub guard {ℓ} : {E : Type ℓ} → Bool → E → Result E (Unit {0})
guard test failure = elim test [ false ↦ err failure | true ↦ ok tt ]

-- What a successful chain shows about its first step.
pub >>=-succeeds {ℓ κ μ} :
    {E : Type ℓ} {A : Type κ} {B : Type μ} (first : Result E A) (rest : A → Result E B) {end : B}
    → (first >>= rest) ≡ ok end
    → (middle : A) × (first ≡ ok middle) × (rest middle ≡ ok end)
>>=-succeeds (err failure) rest reached = cc
>>=-succeeds (ok value) rest reached = (value, refl, reached)

pub guard-eq-ok {ℓ} : {E : Type ℓ} (t : Bool) (e : E) {u : Unit {0}} → guard t e ≡ ok u → t ≡ true
guard-eq-ok true e h = refl
guard-eq-ok false e h = cc

pub ok-injective {ℓ κ} :
    {E : Type ℓ} {A : Type κ} {a b : A} → ◌≡◌ {A = Result E A} (ok a) (ok b) → a ≡ b
ok-injective h = cc
