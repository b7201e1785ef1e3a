-- ===== src/OscDriver/InputChange/Rising.antt =====
-- The lists of a difference (F1InputState.cpp) name each button at most once, in ascending order.
use ni_traktor_kontrol_f.Base.{
  ℕ, suc, ◌+◌, ◌<◌, ◌≤◌, ◌≡◌, refl, Bool, true, false, List, [], ◌∷◌, length, All, arith,
}
use ni_traktor_kontrol_f.OscDriver.InputChange.Follow.{turned, set_all, set_all-cons}

-- Buttons in ascending order from `k` on, below `n`.
unfoldable pub IsRising : (k n : ℕ) → List ℕ → Type 0
IsRising k n [] = Unit
IsRising k n (b ∷ bs) = (k ≤ b) × (b < n) × IsRising (suc b) n bs

pub IsRising-All : (k n : ℕ) (bs : List ℕ) → IsRising k n bs → All (λ b. b < n) bs
unfolding IsRising
IsRising-All k n [] r = tt
IsRising-All k n (b ∷ bs) r = (r.1, IsRising-All (suc b) n bs r.2)

IsRising-earlier : (k n : ℕ) (bs : List ℕ) → IsRising (suc k) n bs → IsRising k n bs
unfolding IsRising
IsRising-earlier k n [] r = tt
IsRising-earlier k n (b ∷ bs) r = (omega (arith, r.0), r.1, r.2)

pub turned-IsRising :
    (b : Bool) (i n : ℕ) (xs ys : List Bool) → i + length xs ≤ n → IsRising i n (turned b i xs ys)
unfolding turned IsRising
turned-IsRising b i n [] ys h = tt
turned-IsRising b i n (x ∷ xs) [] h = tt
turned-IsRising true i n (true ∷ xs) (false ∷ ys) h =
    (omega arith, omega arith, turned-IsRising true (suc i) n xs ys (omega arith))
turned-IsRising true i n (true ∷ xs) (true ∷ ys) h =
    IsRising-earlier i n _ (turned-IsRising true (suc i) n xs ys (omega arith))
turned-IsRising true i n (false ∷ xs) (y ∷ ys) h =
    IsRising-earlier i n _ (turned-IsRising true (suc i) n xs ys (omega arith))
turned-IsRising false i n (false ∷ xs) (true ∷ ys) h =
    (omega arith, omega arith, turned-IsRising false (suc i) n xs ys (omega arith))
turned-IsRising false i n (false ∷ xs) (false ∷ ys) h =
    IsRising-earlier i n _ (turned-IsRising false (suc i) n xs ys (omega arith))
turned-IsRising false i n (true ∷ xs) (y ∷ ys) h =
    IsRising-earlier i n _ (turned-IsRising false (suc i) n xs ys (omega arith))

-- Whoever switches the pressed buttons on and then the released ones off has the new state, too.
pub set_all_pressed_first :
    (new old : List Bool)
    → length new ≡ length old
    → set_all false (turned false 0 new old) (set_all true (turned true 0 new old) old) ≡ new
unfolding set_all turned
set_all_pressed_first [] [] n = refl
set_all_pressed_first [] (y ∷ ys) n = absurd (omega arith)
set_all_pressed_first (x ∷ xs) [] n = absurd (omega arith)
set_all_pressed_first (true ∷ xs) (true ∷ ys) n = rw (
  set_all-cons true true 0 xs ys ys,
  set_all-cons false true 0 xs ys (set_all true (turned true 0 xs ys) ys),
  set_all_pressed_first xs ys (omega arith),
)
set_all_pressed_first (true ∷ xs) (false ∷ ys) n = rw (
  set_all-cons true true 0 xs ys ys,
  set_all-cons false true 0 xs ys (set_all true (turned true 0 xs ys) ys),
  set_all_pressed_first xs ys (omega arith),
)
set_all_pressed_first (false ∷ xs) (true ∷ ys) n = rw (
  set_all-cons true true 0 xs ys ys,
  set_all-cons false false 0 xs ys (set_all true (turned true 0 xs ys) ys),
  set_all_pressed_first xs ys (omega arith),
)
set_all_pressed_first (false ∷ xs) (false ∷ ys) n = rw (
  set_all-cons true false 0 xs ys ys,
  set_all-cons false false 0 xs ys (set_all true (turned true 0 xs ys) ys),
  set_all_pressed_first xs ys (omega arith),
)
