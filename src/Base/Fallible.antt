-- ===== src/Base/Fallible.antt =====
-- A Go pair of a value and an error, for the components that have one error type each.
use mathlib.Core.Path.{◌≡◌, refl}

pub data Fallible {ℓ κ} (E : Type ℓ) (A : Type κ) : Type (ℓ ⊔ κ) where
  ok : A → Fallible E A
  err : E → Fallible E A

infixl 5 ◌>>=◌
abbrev pub ◌>>=◌ {ℓ κ ι} :
    {E : Type ℓ} {S : Type κ} {T : Type ι} → Fallible E S → (S → Fallible E T) → Fallible E T
ok value >>= continue = continue value
err e >>= continue = err e

pub >>=-eq_ok {ℓ κ ι} :
    {E : Type ℓ} {S : Type κ} {T : Type ι} (first : Fallible E S) (continue : S → Fallible E T)
    {t : T}
    → (first >>= continue) ≡ ok t
    → (s : S) × (first ≡ ok s) × (continue s ≡ ok t)
>>=-eq_ok (ok s) continue h = (s, refl, h)
>>=-eq_ok (err e) continue h = cc

-- The two constructors at a stated type.
abbrev pub answered {ℓ κ} : (E : Type ℓ) {S : Type κ} → S → Fallible E S
answered E s = ok s

abbrev pub refused {ℓ κ} : {E : Type ℓ} (S : Type κ) → E → Fallible E S
refused S e = err e

pub ok-injective {ℓ κ} : {E : Type ℓ} {S : Type κ} {s t : S} → answered E s ≡ answered E t → s ≡ t
ok-injective h = cc

pub err-ne-ok {ℓ κ} : {E : Type ℓ} {S : Type κ} {e : E} {s : S} → refused S e ≡ answered E s → ⊥
err-ne-ok h = cc
