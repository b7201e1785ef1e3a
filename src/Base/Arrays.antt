-- ===== src/Base/Arrays.antt =====
-- Lists that are tabulated or mapped.
use Prim.Native.Nat.{ℕ, zero, suc, ◌+◌, ◌<◌, ◌≤◌}
use mathlib.Core.Path.{◌≡◌, refl, ap, ap₂}
use mathlib.Core.List.{List, [], ◌∷◌, map}
use native.Mathlib.Omega.{arith}
use ni_traktor_kontrol_f.Base.Lists.{length, tabulate, All}

pub tabulate_congr {ℓ} :
    {A : Type ℓ} (n i : ℕ) {f g : ℕ → A}
    → ((j : ℕ) → i ≤ j → j < i + n → f j ≡ g j)
    → tabulate n i f ≡ tabulate n i g
tabulate_congr zero i h = refl
tabulate_congr (suc n) i h =
    ap₂ (λ x xs. x ∷ xs) (h i (omega arith) (omega arith))
      (tabulate_congr n (suc i) (λ j p q. h j (omega arith) (omega arith)))

pub All-tabulate {ℓ κ} :
    {A : Type ℓ} (P : A → Type κ) (n i : ℕ) (f : ℕ → A)
    → ((j : ℕ) → i ≤ j → j < i + n → P (f j))
    → All P (tabulate n i f)
All-tabulate P zero i f h = tt
All-tabulate P (suc n) i f h = (
  h i (omega arith) (omega arith),
  All-tabulate P n (suc i) f (λ j p q. h j (omega arith) (omega arith)),
)

pub All-map {ℓ κ} :
    {A B : Type ℓ} (P : B → Type κ) (f : A → B) (xs : List A)
    → ((a : A) → P (f a))
    → All P (map f xs)
All-map P f [] h = tt
All-map P f (x ∷ xs) h = (h x, All-map P f xs h)

pub length-map {ℓ} : {A B : Type ℓ} (f : A → B) (xs : List A) → length (map f xs) ≡ length xs
length-map f [] = refl
length-map f (x ∷ xs) = ap suc (length-map f xs)
