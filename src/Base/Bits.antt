-- ===== src/Base/Bits.antt =====
-- Bits of a byte, and the joining of two bytes into a word.
use Prim.Native.Nat.{
  ℕ, zero, suc, ◌+◌, ◌*◌, ◌/◌, ◌%◌, ◌^◌, ◌≤◌, ◌<◌, max, bit_and, bit_or, digits, bit_or-bitwise,
}
use mathlib.Core.Path.{◌≡◌, refl}
use mathlib.Core.Bool.{Bool, true, false, ◌&&◌, not}
use native.Mathlib.Nat.{pow-suc}
use native.Mathlib.Omega.{arith}
use ni_traktor_kontrol_f.Base.Tests.{if◌then◌else◌, ◌==◌, ==_iff, same_bool, same_bool_iff, leb}

-- A Boolean test that every number below a bound passes, by evaluation.
unfoldable pub passed_below : (bound : ℕ) (test : ℕ → Bool) → Bool
passed_below zero test = true
passed_below (suc k) test = if test k then passed_below k test else false

pub passed_below_lem :
    (k : ℕ) (test : ℕ → Bool) (i : ℕ) → passed_below k test ≡ true → i < k → test i ≡ true
unfolding passed_below
passed_below_lem zero test i e l = absurd (omega arith)
passed_below_lem (suc k) test i e l = ground (arith, passed_below_lem k test i)

-- `((1U << k) & b) != 0U`.
unfoldable pub bit_set : ℕ → ℕ → Bool
bit_set k b = not (bit_and (2 ^ k) b == 0)

abbrev pub bit_value : Bool → ℕ
bit_value true = 1
bit_value false = 0

bit_set_table :
    passed_below 8 (λ k. passed_below 256 (λ b. same_bool (bit_set k b) (b / 2 ^ k % 2 == 1)))
    ≡ true
unfolding passed_below bit_set
bit_set_table = refl

pub bit_set_lem : (k b : ℕ) → k < 8 → b < 256 → bit_set k b ≡ (b / 2 ^ k % 2 == 1)
bit_set_lem k b p q = (same_bool_iff _ _).0 (
    passed_below_lem 256 (λ c. same_bool (bit_set k c) (c / 2 ^ k % 2 == 1)) b
      (passed_below_lem 8
        (λ j. passed_below 256 (λ c. same_bool (bit_set j c) (c / 2 ^ j % 2 == 1))) k bit_set_table
        p)
      q)

pub bit_value-odd : (b : Bool) → (bit_value b == 1) ≡ b
bit_value-odd true = refl
bit_value-odd false = refl

-- `(b & (1U << k)) >> k`.
unfoldable pub bit_of : ℕ → ℕ → ℕ
bit_of b k = bit_and b (2 ^ k) / 2 ^ k

bit_of_table : passed_below 8 (λ k. passed_below 256 (λ b. bit_of b k == b / 2 ^ k % 2)) ≡ true
unfolding passed_below bit_of
bit_of_table = refl

pub bit_of_lem : (k b : ℕ) → k < 8 → b < 256 → bit_of b k ≡ b / 2 ^ k % 2
bit_of_lem k b p q = (==_iff _ _).0 (
    passed_below_lem 256 (λ c. bit_of c k == c / 2 ^ k % 2) b
      (passed_below_lem 8 (λ j. passed_below 256 (λ c. bit_of c j == c / 2 ^ j % 2)) k bit_of_table
        p)
      q)

-- What `bit_or` stands for, with `k` steps.
abbrev joined_digits : (k x y : ℕ) → ℕ
joined_digits = digits (λ d. d) max

-- More steps than the number needs change nothing.
joined_digits_lem : (x y j k : ℕ) → x ≤ j → x ≤ k → joined_digits j x y ≡ joined_digits k x y
joined_digits_lem zero y zero zero h g = refl
joined_digits_lem zero y zero (suc k) h g = refl
joined_digits_lem zero y (suc j) zero h g = refl
joined_digits_lem zero y (suc j) (suc k) h g = refl
joined_digits_lem (suc x) y zero k h g = absurd (omega (arith, h))
joined_digits_lem (suc x) y (suc j) zero h g = absurd (omega (arith, g))
joined_digits_lem (suc x) y (suc j) (suc k) h g =
    omega (arith, joined_digits_lem (suc x / 2) (y / 2) j k (omega (arith, h)) (omega (arith, g)))

-- The lowest digits apart.
bit_or-halves : (x y : ℕ) → bit_or x y ≡ max (x % 2) (y % 2) + 2 * bit_or (x / 2) (y / 2)
bit_or-halves zero y = omega (arith, bit_or-bitwise 0 y, bit_or-bitwise 0 (y / 2))
bit_or-halves (suc x) y =
    let same = joined_digits_lem (suc x / 2) (y / 2) x (suc x / 2) (omega arith) (omega arith) in
    omega (arith, same, bit_or-bitwise (suc x / 2) (y / 2), bit_or-bitwise (suc x) y)

-- Halving a low part and a shifted high part together.
or_half : (lo hi : ℕ) → bit_or (lo / 2) hi ≡ lo / 2 + hi → bit_or lo (2 * hi) ≡ lo + 2 * hi
or_half lo hi h =
    let e : 2 * hi / 2 ≡ hi = omega arith in
    let h' : bit_or (lo / 2) (2 * hi / 2) ≡ lo / 2 + hi = rw e h in
    omega (arith, bit_or-halves lo (2 * hi))

or_shift : (k lo hi : ℕ) → lo < 2 ^ k → bit_or lo (2 ^ k * hi) ≡ lo + 2 ^ k * hi
or_shift zero zero hi h = omega (arith, bit_or-bitwise 0 (2 ^ 0 * hi))
or_shift zero (suc lo) hi h = absurd (omega arith)
or_shift (suc k) lo hi h =
    let p : 2 ^ suc k ≡ 2 * 2 ^ k = omega (arith, pow-suc 2 k) in
    let e : 2 ^ suc k * hi ≡ 2 * (2 ^ k * hi) = rw p (omega arith) in
    rw e (or_half lo (2 ^ k * hi) (or_shift k (lo / 2) hi (omega (arith, p))))

-- `lo | hi << 8` of a byte `lo` is the word of both.
pub bit_or_bytes : (lo hi : ℕ) → lo < 256 → bit_or lo (hi * 256) ≡ lo + hi * 256
bit_or_bytes lo hi h =
    let e : hi * 256 ≡ 2 ^ 8 * hi = omega arith in rw e (or_shift 8 lo hi (omega arith))

-- `status & 0xf0`, `status & 0x0f` and the status bit, over a byte.
masks_table :
    passed_below 256 (λ b.
      (bit_and b 0xf0 == b / 16 * 16)
      && (bit_and b 0x0f == b % 16)
      && (bit_and b 0xff == b)
      && same_bool (not (bit_and b 0x80 == 0)) (leb 128 b))
    ≡ true
unfolding passed_below
masks_table = refl

pub masks_lem :
    (b : ℕ)
    → b < 256
    → (bit_and b 0xf0 ≡ b / 16 * 16)
      × (bit_and b 0x0f ≡ b % 16)
      × (bit_and b 0xff ≡ b)
      × (not (bit_and b 0x80 == 0) ≡ leb 128 b)
masks_lem b h =
    let t =
      passed_below_lem 256
        (λ b.
          (bit_and b 0xf0 == b / 16 * 16)
          && (bit_and b 0x0f == b % 16)
          && (bit_and b 0xff == b)
          && same_bool (not (bit_and b 0x80 == 0)) (leb 128 b))
        b masks_table h in
    ground (arith, same_bool_iff (not (bit_and b 0x80 == 0)) (leb 128 b))
