-- ===== src/F1Device/Output/Layout/Segments.antt =====
-- The loop over the segments in update_out_report (F1Device.cpp).
use ni_traktor_kontrol_f.Base.{
  ℕ, ◌+◌, ◌*◌, ◌/◌, ◌%◌, ◌^◌, ◌<◌, ◌≡◌, List, ok, set, arith, length-set, ◌==◌, if◌then◌else◌,
  store-lt, out_of_range,
}
use native.Mathlib.Decide.{dec_lt}
use ni_traktor_kontrol_f.Base.Bits.{bit_of, bit_of_lem}
use ni_traktor_kontrol_f.Base.Loops.{repeat, for_range-ok}
use ni_traktor_kontrol_f.F1Device.SegmentChar.{SegmentChar, to_byte}
use ni_traktor_kontrol_f.F1Device.Types.{Brightness, OutputState}
use ni_traktor_kontrol_f.F1Device.Output.{write_segments}
use ni_traktor_kontrol_f.F1Device.Output.Sendable.{IsBright}
use ni_traktor_kontrol_f.F1Device.Output.Layout.Buttons.{IsReport}

-- The level of segment `i` of a display: its brightness if the character lights it.
abbrev pub segment_level : SegmentChar → Brightness → ℕ → Brightness
segment_level c b i = if (to_byte c / 2 ^ i % 2) == 1 then b else 0

to_byte-lt : (c : SegmentChar) → to_byte c < 256
unfolding to_byte
to_byte-lt SegmentChar.blank = omega arith
to_byte-lt _ = omega arith

segment_lem :
    (c : SegmentChar) (b i : ℕ)
    → i < 8
    → IsBright b
    → bit_of (to_byte c) i * b % 256 ≡ segment_level c b i
segment_lem c b i p h = rw (bit_of_lem i (to_byte c) p (to_byte-lt c)) (two (to_byte c / 2 ^ i))
  where
    two : (v : ℕ) → v % 2 * b % 256 ≡ (if (v % 2) == 1 then b else 0)
    two v = elim (dec_lt (v % 2) 1) [
      | yes l ↦ let e : v % 2 ≡ 0 = omega arith in rw e (omega arith)
      | no l ↦ let e : v % 2 ≡ 1 = omega arith in rw e (omega arith)
    ]

abbrev pub segment_step : OutputState → ℕ → List ℕ → List ℕ
segment_step o i report =
    set (set report (0x09 + i) (segment_level o.segment_left_char o.segment_left_brightness i))
      (0x01 + i) (segment_level o.segment_right_char o.segment_right_brightness i)

pub segments_ok :
    (o : OutputState) (report : List ℕ)
    → IsBright o.segment_left_brightness
    → IsBright o.segment_right_brightness
    → IsReport report
    → (write_segments o report ≡ ok (repeat 7 1 (segment_step o) report))
      × IsReport (repeat 7 1 (segment_step o) report)
unfolding write_segments
segments_ok o report hl hr r =
    for_range-ok IsReport _ (segment_step o) 7 1 report
      (λ j t _ l p.
        let left = segment_level o.segment_left_char o.segment_left_brightness j in
        let right = segment_level o.segment_right_char o.segment_right_brightness j in
        (
          rw
              (
                segment_lem o.segment_left_char o.segment_left_brightness j (omega arith) hl,
                segment_lem o.segment_right_char o.segment_right_brightness j (omega arith) hr,
                store-lt out_of_range t (0x09 + j) left (omega arith),
              )
              (store-lt out_of_range (set t (0x09 + j) left) (0x01 + j) right
                (omega (arith, length-set t (0x09 + j) left))),
          omega (arith, length-set {0}),
        ))
      r
