-- ===== src/F1Device/Helpers/Laws.antt =====
-- What the static helpers promise.
use ni_traktor_kontrol_f.Base.{
  ℕ, zero, suc, ◌+◌, ◌-◌, ◌*◌, ◌/◌, ◌%◌, ◌<◌, ◌≤◌, ◌≡◌, refl, err, Option, none, some, out_of_range,
  arith, Returns, lt→leb_false, le→leb,
}
use ni_traktor_kontrol_f.F1Device.SegmentChar.{SegmentChar, d0, d1, d2, d3, d4, d5, d6, d7, d8, d9}
use ni_traktor_kontrol_f.F1Device.Helpers.{matrix_pos, digit_to_segment, num_to_segments}

-- The digit that a character of the display shows.
abbrev pub shown : SegmentChar → Option ℕ
shown d0 = some 0
shown d1 = some 1
shown d2 = some 2
shown d3 = some 3
shown d4 = some 4
shown d5 = some 5
shown d6 = some 6
shown d7 = some 7
shown d8 = some 8
shown d9 = some 9
shown _ = none

digit_lem : (d : ℕ) → d < 10 → Returns (λ c. shown c ≡ some d) (digit_to_segment d)
unfolding digit_to_segment
digit_lem zero h = (d0, refl, refl)
digit_lem (suc zero) h = (d1, refl, refl)
digit_lem (suc (suc zero)) h = (d2, refl, refl)
digit_lem (suc (suc (suc zero))) h = (d3, refl, refl)
digit_lem (suc (suc (suc (suc zero)))) h = (d4, refl, refl)
digit_lem (suc (suc (suc (suc (suc zero))))) h = (d5, refl, refl)
digit_lem (suc (suc (suc (suc (suc (suc zero)))))) h = (d6, refl, refl)
digit_lem (suc (suc (suc (suc (suc (suc (suc zero))))))) h = (d7, refl, refl)
digit_lem (suc (suc (suc (suc (suc (suc (suc (suc zero)))))))) h = (d8, refl, refl)
digit_lem (suc (suc (suc (suc (suc (suc (suc (suc (suc zero))))))))) h = (d9, refl, refl)
digit_lem (suc (suc (suc (suc (suc (suc (suc (suc (suc (suc d)))))))))) h = absurd (omega arith)

-- A number below 100 is shown by its two decimal digits; any other number is refused with
-- `std::out_of_range`, and no assertion fails.
pub num_to_segments_lem :
    (num : ℕ)
    → (num < 100
        → Returns
            (λ c.
              (hi : ℕ) × (lo : ℕ) × (shown c.0 ≡ some hi)
              × (shown c.1 ≡ some lo)
              × (hi < 10)
              × (lo < 10)
              × (hi * 10 + lo ≡ num))
            (num_to_segments num))
      × (100 ≤ num → num_to_segments num ≡ err out_of_range)
unfolding num_to_segments
num_to_segments_lem num = (
  λ h.
      let (hi, eh, sh) = digit_lem (num / 10) (omega arith) in
      let (lo, el, sl) = digit_lem (num - num / 10 * 10) (omega arith) in
      (
        (hi, lo),
        rw (lt→leb_false num 100 h, eh, el),
        (num / 10, num - num / 10 * 10, sh, sl, omega arith, omega arith, omega arith),
      ),
  λ h. rw (le→leb 100 num h),
)

-- The coordinates of the 4 × 4 matrix number its buttons: each index below 16 belongs to exactly one
-- pair of coordinates, the column being the remainder and the row the quotient.
pub matrix_pos_lem :
    (x y : ℕ)
    → x < 4
    → y < 4
    → (matrix_pos x y < 16) × (matrix_pos x y % 4 ≡ x) × (matrix_pos x y / 4 ≡ y)
unfolding matrix_pos
matrix_pos_lem x y p q = omega arith
