-- ===== src/MidiEvent/Parse/Stream.antt =====
-- Parsing a stream of events one after another, as the main loop of driver/src/main.cpp does.
use ni_traktor_kontrol_f.Base.{
  ℕ, zero, suc, ◌<◌, ◌≤◌, ◌≡◌, refl, ◌∙◌, List, [], ◌∷◌, ◌++◌, Result, ok, ◌>>=◌, inl, inr,
  Bool-cases, arith, length, All,
}
use ni_traktor_kontrol_f.MidiEvent.Types.{MidiEvent, to_bytes, is_status_byte, is_system}
use ni_traktor_kontrol_f.MidiEvent.Parse.{Range, parse}
use ni_traktor_kontrol_f.MidiEvent.Parse.Plain.{
  readable, from_status, take_data, begun, plain_status, parse-readable,
}
use ni_traktor_kontrol_f.MidiEvent.Parse.RoundTrip.{
  IsVoice, IsData, from_status-append, event_bytes, to_bytes-event_bytes, from_status-event_bytes,
  plain_status-event_bytes,
}

-- `n` calls of `parse`, each from where the last one stopped.
unfoldable pub parse_times : ℕ → Range → Result (List MidiEvent × Range)
parse_times zero cs = ok ([], cs)
parse_times (suc n) cs = do p ← parse cs; q ← parse_times n p.1; ok (p.0 ∷ q.0, q.1)

unfoldable pub write_all : List MidiEvent → Result (List ℕ)
write_all [] = ok []
write_all (e ∷ es) = do b ← to_bytes e; bs ← write_all es; ok (b ++ bs)

unfoldable pub bytes_of_all : List MidiEvent → List ℕ
bytes_of_all [] = []
bytes_of_all (e ∷ es) = event_bytes e ++ bytes_of_all es

write_all-voice : (es : List MidiEvent) → All IsVoice es → write_all es ≡ ok (bytes_of_all es)
unfolding write_all bytes_of_all
write_all-voice [] v = refl
write_all-voice (e ∷ es) v = rw (to_bytes-event_bytes e v.0, write_all-voice es v.1)

pub from_status-bytes_of_all :
    (es : List MidiEvent) → All IsVoice es → from_status (bytes_of_all es) ≡ bytes_of_all es
unfolding bytes_of_all
from_status-bytes_of_all [] v = unfold from_status in refl
from_status-bytes_of_all (e ∷ es) v = from_status-event_bytes e (bytes_of_all es) v.0

-- The first event of several, behind data bytes: the others are left.
pub parse-bytes_of_all :
    (junk : List ℕ) (e : MidiEvent) (es : List MidiEvent)
    → All IsData junk
    → All IsVoice (e ∷ es)
    → parse (readable (junk ++ bytes_of_all (e ∷ es))) ≡ ok (e, readable (bytes_of_all es))
unfolding bytes_of_all
parse-bytes_of_all junk e es a v =
    parse-readable (junk ++ (event_bytes e ++ bytes_of_all es))
    ∙ rw (
      from_status-append junk (event_bytes e ++ bytes_of_all es) a,
      from_status-event_bytes e (bytes_of_all es) v.0,
      plain_status-event_bytes e (bytes_of_all es) v.0,
      from_status-bytes_of_all es v.1,
    )

parse_times-bytes :
    (es : List MidiEvent)
    → All IsVoice es
    → parse_times (length es) (readable (bytes_of_all es)) ≡ ok (es, [])
unfolding parse_times bytes_of_all
parse_times-bytes [] v = refl
parse_times-bytes (e ∷ es) v = rw (parse-bytes_of_all [] e es tt v, parse_times-bytes es v.1)

-- Events that can be sent are written one behind another, and as many calls of the parser read back
-- the same events in the same order and leave nothing.
pub parse_times-write_all :
    (es : List MidiEvent)
    → All IsVoice es
    → (bs : List ℕ) × (write_all es ≡ ok bs) × (parse_times (length es) (readable bs) ≡ ok (es, []))
parse_times-write_all es v = (bytes_of_all es, write_all-voice es v, parse_times-bytes es v)

length-from_status : (bs : List ℕ) → length (from_status bs) ≤ length bs
unfolding from_status
length-from_status [] = omega arith
length-from_status (b ∷ bs) = elim (Bool-cases (is_status_byte b)) [
  | inl s ↦ rw s (omega arith)
  | inr d ↦ rw d (omega (arith, length-from_status bs))
]

length-take_data : (e : MidiEvent) (bs : List ℕ) → length (take_data e bs).1 ≤ length bs
unfolding take_data
length-take_data e [] = omega arith
length-take_data e (a ∷ []) = ground arith
length-take_data e (a ∷ b ∷ bs) = ground arith

length-plain_status : (b : ℕ) (bs : List ℕ) → length (plain_status (b ∷ bs)).1 ≤ length bs
unfolding plain_status
length-plain_status b bs = elim (Bool-cases (is_system (begun b).type)) [
  | inl s ↦ rw s (omega (arith, length-from_status bs, length-from_status (from_status bs)))
  | inr d ↦
      rw d (
        omega (arith, length-take_data (begun b) bs, length-from_status (take_data (begun b) bs).1))
]

pub plain_progress :
    (bs : List ℕ) → 0 < length bs → length (plain_status (from_status bs)).1 < length bs
plain_progress bs h = go (from_status bs) (length-from_status bs)
  where
    go : (cs : List ℕ) → length cs ≤ length bs → length (plain_status cs).1 < length bs
    go [] l = unfold plain_status in h
    go (c ∷ cs) l = omega (arith, length-plain_status c cs)

-- The parser returns on every range that can be read, and leaves fewer bytes than it found if it
-- found any: reading until nothing is left ends.
parse_progress :
    (bs : List ℕ)
    → 0 < length bs
    → (e : MidiEvent) × (rest : List ℕ) × (parse (readable bs) ≡ ok (e, readable rest))
      × (length rest < length bs)
parse_progress bs h = (
  (plain_status (from_status bs)).0,
  (plain_status (from_status bs)).1,
  parse-readable bs,
  plain_progress bs h,
)
