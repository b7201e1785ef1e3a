-- ===== src/MidiEvent/Parse.antt =====
-- `MidiEvent::parse`. It is a template over an iterator; the range from an iterator to the end is
-- the list of what reading each position gives, and the iterator that it returns is the range left.
pub mod Plain
pub mod Bounds
pub mod RoundTrip
pub mod Stream
use ni_traktor_kontrol_f.Base.{ℕ, if◌then◌else◌, Bool, List, [], ◌∷◌, bit_and, Result, ok, ◌>>=◌}
use ni_traktor_kontrol_f.MidiEvent.Types.{
  MidiEvent, empty_event, type_of_byte, is_status_byte, is_system,
}

abbrev pub Range : Type 0
Range = List (Result ℕ)

-- `for (; it != end && !is_status_byte(*it); ++it);`
unfoldable pub skip_data : Range → Result Range
skip_data [] = ok []
skip_data (c ∷ cs) =
    let rest = skip_data cs in do b ← c; if is_status_byte b then ok (c ∷ cs) else rest

-- The loop over the two bytes of `data.raw`; it stops at a status byte.
unfoldable pub read_data : MidiEvent → Range → Result (MidiEvent × Range)
read_data e [] = ok (e, [])
read_data e (c ∷ []) = do
  a ← c
  if is_status_byte a then ok (e, c ∷ []) else ok (record e { data1 = a }, [])
read_data e (c ∷ d ∷ cs) = do
  a ← c
  if is_status_byte a then ok (e, c ∷ d ∷ cs) else do
    b ← d
    if is_status_byte b
        then ok (record e { data1 = a }, d ∷ cs)
        else ok (record e { data1 = a; data2 = b }, cs)

-- From the status byte on.
unfoldable pub parse_status : Range → Result (MidiEvent × Range)
unfolding read_data skip_data
parse_status [] = ok (empty_event, [])
parse_status (c ∷ cs) = do
  status ← c
  let event = record empty_event {
    type = type_of_byte (bit_and status 0xf0);
    channel = bit_and status 0x0f;
  }
  parsed ←
      if is_system event.type
      then skip_data cs >>= (λ rest. ok (event, rest))
      else read_data event cs
  rest ← skip_data parsed.1
  ok (parsed.0, rest)

unfoldable pub parse : Range → Result (MidiEvent × Range)
unfolding parse_status skip_data
parse cs = skip_data cs >>= parse_status
