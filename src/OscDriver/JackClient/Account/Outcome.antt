-- ===== src/OscDriver/JackClient/Account/Outcome.antt =====
-- What a call leaves behind if it returns.
use ni_traktor_kontrol_f.Base.{
  ◌≡◌, refl, subst, Option, some, none, Result, ok, err, Error, from_option, check, Bool, true,
  false, ◌>>=◌,
}

-- A property of what a call returns, if it returns.
pub data After {A : Type 0} (P : A → Type 0) : Result A → Type 0 where
  returned : {a : A} → P a → After P (ok a)
  thrown : {e : Error} → After P (err e)

pub After-ok : {A : Type 0} {P : A → Type 0} {a : A} → After P (ok a) → P a
After-ok (returned p) = p

pub After-of : {A : Type 0} {P : A → Type 0} {r : Result A} {a : A} → After P r → r ≡ ok a → P a
After-of {P = P} p e = After-ok (subst (After P) e p)

pub After-bind :
    {A B : Type 0} {P : A → Type 0} (Q : B → Type 0) (r : Result A) (f : A → Result B)
    → After P r
    → ((a : A) → P a → After Q (f a))
    → After Q (r >>= f)
After-bind Q (ok a) f p q = q a (After-ok p)
After-bind Q (err e) f p q = thrown

pub After-option :
    {A : Type 0} (e : Error) (o : Option A) → After (λ a. o ≡ some a) (from_option e o)
After-option e none = thrown
After-option e (some a) = returned refl

pub After-check :
    {B : Type 0} (Q : B → Type 0) (b : Bool) (f : Unit {0} → Result B)
    → (b ≡ true → After Q (f tt))
    → After Q (check b >>= f)
After-check Q true f q = q refl
After-check Q false f q = thrown
