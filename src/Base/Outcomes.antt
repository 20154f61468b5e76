-- ===== src/Base/Outcomes.antt =====
-- How a call of the C++ code ends: it returns, it throws a `std::string`, or its behaviour is
-- undefined. The only handler is the one in `main`, which ends the program, so a throw carries
-- no state.

use mathlib.Core.Path.{◌≡◌, refl, ap}
use mathlib.Core.Bool.{Bool, true, false}

-- The strings that the sources throw.
pub data Error : Type 0 where
  system_error : Error
  zero_bytes : Error
  invalid_packet_length : Error
  header_size_mismatch : Error
  invalid_buffer_length : Error
  could_not_write : Error
  could_not_read : Error

pub data Result {ℓ} (A : Type ℓ) : Type ℓ where
  undefined : Result A
  throw : Error → Result A
  ok : A → Result A

-- The next statement runs only after a return.
infixl 5 ◌>>=◌
abbrev pub ◌>>=◌ {ℓ κ} : {A : Type ℓ} {B : Type κ} → Result A → (A → Result B) → Result B
undefined >>= next = undefined
throw message >>= next = throw message
ok value >>= next = next value

infixl 5 ◌>>◌
abbrev pub ◌>>◌ {ℓ} : {B : Type ℓ} → Result (Unit {0}) → Result B → Result B
test >> next = test >>= λ done. next

-- `if (!b) throw e;`
abbrev pub require : Bool → Error → Result (Unit {0})
require true e = ok tt
require false e = throw e

-- An access whose behaviour is defined only where `b` holds.
abbrev pub in_bounds : Bool → Result (Unit {0})
in_bounds true = ok tt
in_bounds false = undefined

-- A bind that returns is one whose first part returned.
pub >>=-eq-ok {ℓ κ} :
    {A : Type ℓ} {B : Type κ} (first : Result A) (next : A → Result B) {y : B}
    → (first >>= next) ≡ ok y
    → (x : A) × (first ≡ ok x) × (next x ≡ ok y)
>>=-eq-ok undefined next same = cc
>>=-eq-ok (throw message) next same = cc
>>=-eq-ok (ok x) next same = (x, refl, same)

pub ok-injective {ℓ} : {A : Type ℓ} {a b : A} → ok a ≡ ok b → a ≡ b
ok-injective {a = a} h = ap (λ r. elim r [ ok x ↦ x | throw e ↦ a | undefined ↦ a ]) h

pub >>=-assoc {ℓ κ μ} :
    {A : Type ℓ} {B : Type κ} {C : Type μ} (m : Result A) (f : A → Result B) (g : B → Result C)
    → ((m >>= f) >>= g) ≡ (m >>= λ a. f a >>= g)
>>=-assoc (ok a) f g = refl
>>=-assoc (throw e) f g = refl
>>=-assoc undefined f g = refl
