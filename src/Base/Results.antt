-- ===== src/Base/Results.antt =====
-- Checks that fail with an error: the value, or the first error.
use mathlib.Core.Path.{◌≡◌, refl}
use mathlib.Core.Logic.{◌⊎◌, inl, inr}
use mathlib.Core.Bool.{Bool}
use neo_transcoder.Base.Tests.{if◌then◌else◌}

pub data Checked {ℓ} (E : Type 0) (A : Type ℓ) : Type ℓ where
  ok : A → Checked E A
  err : E → Checked E A

infixl 5 ◌>>=◌ ◌>>◌
abbrev pub ◌>>=◌ {α β} :
    {E : Type 0} {A : Type α} {B : Type β} → Checked E A → (A → Checked E B) → Checked E B
err refusal >>= next = err refusal
ok value >>= next = next value

abbrev pub ◌>>◌ {β} : {E : Type 0} {B : Type β} → Checked E (Unit {0}) → Checked E B → Checked E B
check >> next = check >>= λ done. next

-- `if refused { return …, e }`
abbrev pub refuse_if : {E : Type 0} → Bool → E → Checked E (Unit {0})
refuse_if refused e = if refused then err e else ok tt

-- Where a chain succeeds, its first check did.
pub >>=-eq-ok {α β} :
    {E : Type 0} {A : Type α} {B : Type β} (check : Checked E A) (next : A → Checked E B)
    (result : B)
    → (check >>= next) ≡ ok result
    → (value : A) × (check ≡ ok value) × (next value ≡ ok result)
>>=-eq-ok (err refusal) next result e = cc
>>=-eq-ok (ok value) next result e = (value, refl, e)

pub Checked-cases {α} :
    {E : Type 0} {A : Type α} (check : Checked E A)
    → ((refusal : E) × (check ≡ err refusal)) ⊎ ((value : A) × (check ≡ ok value))
Checked-cases (err refusal) = inl (refusal, refl)
Checked-cases (ok value) = inr (value, refl)
