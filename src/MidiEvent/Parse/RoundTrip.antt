-- ===== src/MidiEvent/Parse/RoundTrip.antt =====
-- Parsing what `to_bytes` wrote, and progress of the parser.
use ni_traktor_kontrol_f.Base.{
  ℕ, ◌+◌, ◌*◌, ◌/◌, ◌%◌, ◌<◌, ◌≤◌, ◌==◌, ==_iff, ◌≡◌, refl, ◌∙◌, true, false, List, [], ◌∷◌, ◌++◌,
  bit_and, bit_or, ok, arith, length, All, le→leb, lt→leb_false,
}
use ni_traktor_kontrol_f.Base.Bits.{passed_below, passed_below_lem, masks_lem}
use ni_traktor_kontrol_f.MidiEvent.Types.{
  MidiType, MidiEvent, type_byte, type_of_byte, is_status_byte, is_system, to_bytes, note_off,
  note_on, polyphonic_aftertouch, control_change, program_change, monophonic_aftertouch, pitch_bend,
  system_message,
}
use ni_traktor_kontrol_f.MidiEvent.Parse.{parse}
use ni_traktor_kontrol_f.MidiEvent.Parse.Plain.{
  readable, from_status, take_data, begun, plain_status, parse-readable,
}

-- The events that can be sent: no system message, four bits of channel, seven bits of data.
pub record IsVoice (e : MidiEvent) : Type 0 where
  pub voice : is_system e.type ≡ false
  pub channel_4 : e.channel < 16
  pub data1_7 : e.data1 < 128
  pub data2_7 : e.data2 < 128

abbrev pub IsData : ℕ → Type 0
IsData b = b < 128

pub status-data : (b : ℕ) → b < 128 → is_status_byte b ≡ false
unfolding is_status_byte
status-data b h = (masks_lem b (omega arith)).3 ∙ lt→leb_false b 128 h

status-high : (b : ℕ) → 128 ≤ b → b < 256 → is_status_byte b ≡ true
unfolding is_status_byte
status-high b h l = (masks_lem b l).3 ∙ le→leb 128 b h

or_row :
    (b : ℕ)
    → passed_below 16 (λ c. bit_or b c == b + c) ≡ true
    → (c : ℕ) → c < 16
    → bit_or b c ≡ b + c
or_row b table c h = (==_iff _ _).0 (passed_below_lem 16 (λ c. bit_or b c == b + c) c table h)

or_type : (t : MidiType) (c : ℕ) → c < 16 → bit_or (type_byte t) c ≡ type_byte t + c
unfolding type_byte passed_below
or_type note_off = or_row 0x80 refl
or_type note_on = or_row 0x90 refl
or_type polyphonic_aftertouch = or_row 0xa0 refl
or_type control_change = or_row 0xb0 refl
or_type program_change = or_row 0xc0 refl
or_type monophonic_aftertouch = or_row 0xd0 refl
or_type pitch_bend = or_row 0xe0 refl
or_type system_message = or_row 0xf0 refl

-- A type's byte is a multiple of 16 with the status bit, and stands for the type.
type_byte_lem :
    (t : MidiType)
    → (type_byte t / 16 * 16 ≡ type_byte t)
      × (128 ≤ type_byte t)
      × (type_byte t < 241)
      × (type_of_byte (type_byte t) ≡ t)
unfolding type_byte type_of_byte
type_byte_lem note_off = (refl, omega arith, omega arith, refl)
type_byte_lem _ = (refl, omega arith, omega arith, refl)

-- The status byte of an event: where it lies, and what its halves are.
module _ (t : MidiType) (c : ℕ) (h : c < 16) where
  abbrev status : ℕ
  status = bit_or (type_byte t) c % 256

  status_sum : (status ≡ type_byte t + c) × (128 ≤ status) × (status < 256)
  status_sum = omega (arith, or_type t c h, type_byte_lem t)

  status_halves : (bit_and status 0xf0 ≡ type_byte t) × (bit_and status 0x0f ≡ c)
  status_halves = omega (arith, masks_lem status status_sum.2, status_sum, type_byte_lem t)

  begun-status : begun status ≡ record { type = t; channel = c; data1 = 0; data2 = 0 }
  unfolding begun
  begun-status = rw (status_halves.0, status_halves.1, (type_byte_lem t).3)

  pub is_status_byte-status : is_status_byte status ≡ true
  is_status_byte-status = status-high status status_sum.1 status_sum.2

-- Data bytes before a status byte are skipped.
pub from_status-append :
    (junk bs : List ℕ) → All IsData junk → from_status (junk ++ bs) ≡ from_status bs
unfolding from_status
from_status-append [] bs a = refl
from_status-append (b ∷ junk) bs a = rw (status-data b a.0) (from_status-append junk bs a.1)

-- The three bytes of an event that can be sent.
unfoldable pub event_bytes : MidiEvent → List ℕ
event_bytes e = bit_or (type_byte e.type) e.channel % 256 ∷ e.data1 ∷ e.data2 ∷ []

pub to_bytes-event_bytes : (e : MidiEvent) → IsVoice e → to_bytes e ≡ ok (event_bytes e)
unfolding to_bytes event_bytes
to_bytes-event_bytes e v = rw v.voice

pub length-event_bytes : (e : MidiEvent) → length (event_bytes e) ≡ 3
unfolding event_bytes
length-event_bytes e = refl

pub from_status-event_bytes :
    (e : MidiEvent) (rest : List ℕ)
    → IsVoice e
    → from_status (event_bytes e ++ rest) ≡ event_bytes e ++ rest
unfolding from_status event_bytes
from_status-event_bytes e rest v = rw (is_status_byte-status e.type e.channel v.channel_4)

-- Two data bytes behind a status byte of a voice message.
plain_voice :
    (s a b : ℕ) (rest : List ℕ) (e : MidiEvent)
    → begun s ≡ e
    → is_system e.type ≡ false
    → a < 128
    → b < 128
    → plain_status (s ∷ a ∷ b ∷ rest) ≡ (record e { data1 = a; data2 = b }, from_status rest)
unfolding plain_status take_data
plain_voice s a b rest e g v p q = rw (g, v, status-data a p, status-data b q)

pub plain_status-event_bytes :
    (e : MidiEvent) (rest : List ℕ)
    → IsVoice e
    → plain_status (event_bytes e ++ rest) ≡ (e, from_status rest)
unfolding event_bytes
plain_status-event_bytes e rest v =
    plain_voice _ e.data1 e.data2 rest (record e { data1 = 0; data2 = 0 })
      (begun-status e.type e.channel v.channel_4) v.voice v.data1_7 v.data2_7

-- An event that can be sent is written as three bytes, and is read back from them wherever they
-- stand behind data bytes: the parser stops at the next status byte.
pub parse-to_bytes :
    (e : MidiEvent) (junk rest : List ℕ)
    → IsVoice e
    → All IsData junk
    → (bs : List ℕ) × (to_bytes e ≡ ok bs)
      × (length bs ≡ 3)
      × (parse (readable (junk ++ (bs ++ rest))) ≡ ok (e, readable (from_status rest)))
parse-to_bytes e junk rest v a = (
  event_bytes e,
  to_bytes-event_bytes e v,
  unfold event_bytes in refl,
  parse-readable (junk ++ (event_bytes e ++ rest))
      ∙ rw (
        from_status-append junk (event_bytes e ++ rest) a,
        from_status-event_bytes e rest v,
        plain_status-event_bytes e rest v,
      ),
)
