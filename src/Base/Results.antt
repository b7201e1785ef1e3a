-- ===== src/Base/Results.antt =====
-- What a C++ call can end in: a value, or an exception, a failed `assert` or undefined behaviour.
use Prim.Native.Nat.{ℕ, ◌<◌}
use mathlib.Core.Path.{◌≡◌, refl}
use mathlib.Core.Bool.{Bool, true, false}
use mathlib.Core.List.{List}
use mathlib.Core.Logic.{◌⊎◌, inl, inr}
use mathlib.Core.Option.{Option, none, some}
use ni_traktor_kontrol_f.Base.Lists.{length, get_elem?, get_or, set, get_elem?-eq-get_or}
use ni_traktor_kontrol_f.Base.Tests.{ltb, lt→ltb, if◌then◌else◌}

pub data Error : Type 0 where
  -- `std::out_of_range`, `std::invalid_argument`, `std::bad_variant_access`, `std::bad_alloc`
  out_of_range invalid_argument bad_variant_access bad_alloc : Error
  -- `HidDeviceError`, `HidDevicePermissionDenied`, `F1HidDevException`
  hid_error permission_denied hid_dev_exception : Error
  -- `JackWrapperException`, `JackClientException`
  jack_wrapper_exception jack_client_exception : Error
  -- `std::system_error`, and the end of the program by `std::terminate`
  system_error terminated : Error
  -- a failed `assert`, and what the C++ standard leaves undefined
  assert_failed undefined : Error

pub data Result {ℓ} (A : Type ℓ) : Type ℓ where
  ok : A → Result A
  err : Error → Result A

-- An error ends the calls that follow.
infixl 5 ◌>>=◌
abbrev pub ◌>>=◌ {ℓ κ} :
    {A : Type ℓ} {B : Type κ} (call : Result A) (rest : A → Result B) → Result B
err x >>= rest = err x
ok v >>= rest = rest v

infixl 5 ◌>>◌
abbrev pub ◌>>◌ {κ} : {B : Type κ} (call : Result (Unit {0})) (rest : Result B) → Result B
call >> rest = call >>= λ done. rest

-- `assert(b)`.
abbrev pub check : Bool → Result (Unit {0})
check true = ok tt
check false = err assert_failed

abbrev pub from_option {ℓ} : {A : Type ℓ} → Error → Option A → Result A
from_option e none = err e
from_option e (some a) = ok a

module _ {ℓ} {A : Type ℓ} where
  -- Reading and writing item `i` of an array of fixed size, with what happens out of range.
  abbrev pub index : Error → List A → ℕ → Result A
  index e xs i = from_option e (get_elem? xs i)

  abbrev pub store : Error → List A → ℕ → A → Result (List A)
  store e xs i v = elim (ltb i (length xs)) [ true ↦ ok (set xs i v) | false ↦ err e ]

  -- `std::array::at`.
  abbrev pub at : List A → ℕ → Result A
  at = index out_of_range

  abbrev pub set_at : List A → ℕ → A → Result (List A)
  set_at = store out_of_range

  pub index-lt :
      (e : Error) (xs : List A) (i : ℕ) (d : A) → i < length xs → index e xs i ≡ ok (get_or xs i d)
  index-lt e xs i d h = rw (get_elem?-eq-get_or xs i d h)

  pub store-lt :
      (e : Error) (xs : List A) (i : ℕ) (v : A) → i < length xs → store e xs i v ≡ ok (set xs i v)
  store-lt e xs i v h = rw (lt→ltb i (length xs) h, store)

-- A result that is a value with a property.
abbrev pub Returns {ℓ κ} : {A : Type ℓ} → (A → Type κ) → Result A → Type (ℓ ⊔ κ)
Returns {A} P r = (a : A) × (r ≡ ok a) × P a

pub Result-cases {ℓ} :
    {A : Type ℓ} (r : Result A) → ((a : A) × (r ≡ ok a)) ⊎ ((e : Error) × (r ≡ err e))
Result-cases (ok a) = inl (a, refl)
Result-cases (err e) = inr (e, refl)

-- A result that is one of two values has what both have.
pub Returns-if {ℓ κ} :
    {A : Type ℓ} (P : A → Type κ) (b : Bool) {r : Result A} {x y : A}
    → r ≡ ok (if b then x else y)
    → P x
    → P y
    → Returns P r
Returns-if P true e p q = (_, e, p)
Returns-if P false e p q = (_, e, q)

pub ok-injective {ℓ} : {A : Type ℓ} {a b : A} → ok a ≡ ok b → a ≡ b
ok-injective e = cc

-- A chain of calls in which the second ones end alike.
pub bind_congr {ℓ κ} :
    {A : Type ℓ} {B : Type κ} (call : Result A) {f g : A → Result B}
    → ((a : A) → f a ≡ g a)
    → (call >>= f) ≡ (call >>= g)
bind_congr (ok a) h = h a
bind_congr (err e) h = refl

pub bind_assoc {ℓ κ μ} :
    {A : Type ℓ} {B : Type κ} {C : Type μ} (call : Result A) (f : A → Result B) (g : B → Result C)
    → ((call >>= f) >>= g) ≡ (call >>= λ a. f a >>= g)
bind_assoc (ok a) f g = refl
bind_assoc (err e) f g = refl

-- A call that is followed by others has a value if they have one.
pub bind-ok :
    {A B : Type 0} (call : Result A) (rest : A → Result B) {b : B}
    → (call >>= rest) ≡ ok b
    → (a : A) × (call ≡ ok a) × (rest a ≡ ok b)
bind-ok (ok a) rest e = (a, refl, e)
bind-ok (err x) rest e = absurd cc

-- What holds of the value of a call, if it has one.
abbrev pub Ends : {A : Type 0} → (A → Type 0) → Result A → Type 0
Ends P (ok a) = P a
Ends P (err e) = Unit

pub Ends-bind :
    {A B : Type 0} (P : A → Type 0) (Q : B → Type 0) (call : Result A) (rest : A → Result B)
    → Ends P call
    → ((a : A) → P a → Ends Q (rest a))
    → Ends Q (call >>= rest)
Ends-bind P Q (ok a) rest p h = h a p
Ends-bind P Q (err e) rest p h = tt
