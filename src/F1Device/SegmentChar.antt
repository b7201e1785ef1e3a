-- ===== src/F1Device/SegmentChar.antt =====
-- `F1Device::SegmentChar` of driver/src/tkf1/F1Device.hpp.
use ni_traktor_kontrol_f.Base.{ℕ}

pub data SegmentChar : Type 0 where
  blank underline midline topline : SegmentChar
  d0 d1 d2 d3 d4 d5 d6 d7 d8 d9 : SegmentChar
  letter_a letter_c letter_e letter_f letter_h letter_l : SegmentChar
  letter_o letter_p letter_s letter_u : SegmentChar

-- `static_cast<std::uint8_t>`: the enumerators' values. Two letters share theirs with digits.
unfoldable pub to_byte : SegmentChar → ℕ
to_byte blank = 0b0000_0000
to_byte underline = 0b1000_0000
to_byte midline = 0b0000_0010
to_byte topline = 0b0001_0000
to_byte d0 = 0b1111_1100
to_byte d1 = 0b0000_1100
to_byte d2 = 0b1101_1010
to_byte d3 = 0b1001_1110
to_byte d4 = 0b0010_1110
to_byte d5 = 0b1011_0110
to_byte d6 = 0b1111_0110
to_byte d7 = 0b0001_1100
to_byte d8 = 0b1111_1110
to_byte d9 = 0b0011_1110
to_byte letter_a = 0b0111_1110
to_byte letter_c = 0b1111_0000
to_byte letter_e = 0b1111_0010
to_byte letter_f = 0b0111_0010
to_byte letter_h = 0b0110_1110
to_byte letter_l = 0b1110_0000
to_byte letter_o = 0b1111_1100
to_byte letter_p = 0b1111_1010
to_byte letter_s = 0b1011_0110
to_byte letter_u = 0b1110_1100
