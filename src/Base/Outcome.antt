-- ===== src/Base/Outcome.antt =====
-- Calls that may raise: a value or an error, with the bind that `do` blocks use.
use mathlib.Core.Path.{◌≡◌, refl}
use mathlib.Core.Logic.{◌⊎◌, inl, inr}
use mathlib.Core.Bool.{Bool, true, false}
use mathlib.Core.Option.{Option, none, some}

pub data Result {ℓ} (E : Type ℓ) (A : Type ℓ) : Type ℓ where
  ok : A → Result E A
  err : E → Result E A

-- `if not b: raise e`
abbrev pub guard : {E : Type 0} → Bool → E → Result E (Unit {0})
guard b e = elim b [ true ↦ ok tt | false ↦ err e ]

infixl 5 ◌>>=◌
abbrev pub ◌>>=◌ : {E A B : Type 0} → Result E A → (A → Result E B) → Result E B
err raised >>= next = err raised
ok value >>= next = next value

abbrev pub or_raise : {E A : Type 0} → Option A → E → Result E A
or_raise none e = err e
or_raise (some a) e = ok a

abbrev pub is_some {ℓ} : {A : Type ℓ} → Option A → Bool
is_some none = false
is_some (some _) = true

abbrev pub is_none {ℓ} : {A : Type ℓ} → Option A → Bool
is_none none = true
is_none (some _) = false

infixl 5 ◌>>◌
abbrev pub ◌>>◌ : {E B : Type 0} → Result E (Unit {0}) → Result E B → Result E B
first >> second = first >>= λ done. second

pub Result-cases :
    {E A : Type 0} (r : Result E A) → ((a : A) × (r ≡ ok a)) ⊎ ((e : E) × (r ≡ err e))
Result-cases (ok a) = inl (a, refl)
Result-cases (err e) = inr (e, refl)

-- Inversion of a chain that did not raise.
pub >>=-eq-ok :
    {E A B : Type 0} (m : Result E A) (next : A → Result E B) {result : B}
    → (m >>= next) ≡ ok result
    → (value : A) × (m ≡ ok value) × (next value ≡ ok result)
>>=-eq-ok (err raised) next raises = absurd (cc)
>>=-eq-ok (ok value) next returned = (value, refl, returned)
