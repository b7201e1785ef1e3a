-- ===== src/IoMapper/Floats.antt =====
-- `float` and `double` are the platform's: the mapper takes their operations as a parameter.
use ni_traktor_kontrol_f.Base.{ℕ, ◌<◌, ◌≤◌}

pub record Floats : Type 1 where
  pub Float : Type 0
  pub Double : Type 0
  -- `0.2F`, `1.F`, `1.0`
  pub one_fifth : Float
  pub one : Float
  pub double_one : Double
  -- the promotion of a `float`, and `static_cast<double>` of a number
  pub widen : Float → Double
  pub of_ℕ : ℕ → Double
  pub mul : Double → Double → Double
  pub div : Double → Double → Double
  -- a `float` times a byte
  pub scale_float : Float → ℕ → Float
  -- `std::roundl` and `std::lround`, cast to a byte
  pub roundl_byte : Double → ℕ
  pub lround_byte : Double → ℕ
  -- `static_cast<std::uint8_t>`, which cuts off the fraction
  pub trunc_double : Double → ℕ
  pub trunc_float : Float → ℕ

-- What the mapper relies on of IEEE arithmetic: a factor from 0 to 1 makes no byte larger, also
-- after rounding to the nearest whole number, and the quotient `n / m` takes the numbers up to `m`
-- to numbers up to `n`.
pub record FloatLaws (fl : Floats) : Type 1 where
  pub IsUnit : fl.Float → Type 0
  pub one_fifth_unit : IsUnit fl.one_fifth
  pub one_unit : IsUnit fl.one
  pub lround-le :
      (f : fl.Float) (c : ℕ)
      → IsUnit f
      → c < 256
      → fl.lround_byte (fl.mul (fl.widen f) (fl.of_ℕ c)) ≤ c
  pub trunc_float-le :
      (f : fl.Float) (c : ℕ) → IsUnit f → c < 256 → fl.trunc_float (fl.scale_float f c) ≤ c
  pub trunc_double-le :
      (v m c : ℕ)
      → v ≤ m
      → 0 < m
      → m < 256
      → c < 256
      → fl.trunc_double (fl.mul (fl.mul (fl.of_ℕ v) (fl.div fl.double_one (fl.of_ℕ m))) (fl.of_ℕ c))
        ≤ c
  pub roundl-le :
      (v m n : ℕ)
      → v ≤ m
      → 0 < m
      → m < 65536
      → n < 256
      → fl.roundl_byte (fl.mul (fl.of_ℕ v) (fl.div (fl.of_ℕ n) (fl.of_ℕ m))) ≤ n
