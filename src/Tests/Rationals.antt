-- ===== src/Tests/Rationals.antt =====
-- An instance of the floating-point parameter: exact fractions, with rounding by half a unit.
use ni_traktor_kontrol_f.Base.{ℕ, ◌+◌, ◌*◌, ◌/◌, ◌≤◌, ◌<◌, arith}
use native.Mathlib.Nat.{mul-le-mul_right, mul_comm, mul-one, div-lt_iff_lt-mul}
use ni_traktor_kontrol_f.IoMapper.Floats.{Floats, FloatLaws}

abbrev Fraction : Type 0
Fraction = ℕ × ℕ

abbrev times : Fraction → Fraction → Fraction
times a b = (a.0 * b.0, a.1 * b.1)

abbrev quotient : Fraction → Fraction → Fraction
quotient a b = (a.0 * b.1, a.1 * b.0)

abbrev nearest : Fraction → ℕ
nearest a = (2 * a.0 + a.1) / (2 * a.1)

abbrev whole : Fraction → ℕ
whole a = a.0 / a.1

abbrev pub fractions : Floats
fractions = record {
  Float = Fraction;
  Double = Fraction;
  one_fifth = (1, 5);
  one = (1, 1);
  double_one = (1, 1);
  widen = λ f. f;
  of_ℕ = λ n. (n, 1);
  mul = times;
  div = quotient;
  scale_float = λ f c. (f.0 * c, f.1);
  roundl_byte = nearest;
  lround_byte = nearest;
  trunc_double = whole;
  trunc_float = whole;
}

pub whole-le : (a b c : ℕ) → 0 < b → a ≤ c * b → whole (a, b) ≤ c
whole-le a b c p h =
    let lt : a / b < c + 1 = (div-lt_iff_lt-mul p).1 (omega (arith, h, p)) in omega (arith, lt)

pub nearest-le : (a b c : ℕ) → 0 < b → a ≤ c * b → nearest (a, b) ≤ c
nearest-le a b c p h =
    let lt : (2 * a + b) / (2 * b) < c + 1 =
      (div-lt_iff_lt-mul (omega (arith, p))).1 (omega (arith, h, p)) in
    omega (arith, lt)

pub scaled : (a b c : ℕ) → a ≤ b → a * c ≤ c * b
scaled a b c h = rw (mul_comm c b) (mul-le-mul_right c h)

pub scaled_one : (a b c : ℕ) → a ≤ b → a * (c * 1) ≤ c * b
scaled_one a b c h = rw (mul-one c) (scaled a b c h)

abbrev pub fraction_laws : FloatLaws fractions
fraction_laws = record {
  IsUnit = λ f. (0 < f.1) × (f.0 ≤ f.1);
  one_fifth_unit = omega arith;
  one_unit = omega arith;
  lround-le = λ f c u h.
      nearest-le (f.0 * c) (f.1 * 1) c (omega (arith, u.0))
        (scaled f.0 (f.1 * 1) c (omega (arith, u.1)));
  trunc_float-le = λ f c u h. whole-le (f.0 * c) f.1 c u.0 (scaled f.0 f.1 c u.1);
  trunc_double-le = λ v m c l p b h.
      whole-le (v * 1 * c) (1 * (1 * m) * 1) c (omega (arith, p))
        (scaled (v * 1) (1 * (1 * m) * 1) c (omega (arith, l)));
  roundl-le = λ v m n l p b h.
      nearest-le (v * (n * 1)) (1 * (1 * m)) n (omega (arith, p))
        (scaled_one v (1 * (1 * m)) n (omega (arith, l)));
}
