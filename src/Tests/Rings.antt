-- ===== src/Tests/Rings.antt =====
-- A ring, a port and a memory layout that keep the documented laws: lists of bytes.
use mathlib.Core.Option.{none-ne-some, some-injective}
use ni_traktor_kontrol_f.Base.{
  ℕ, zero, suc, ◌+◌, ◌-◌, min, leb, if◌then◌else◌, ◌≡◌, refl, subst, Option, none, some, List, [],
  ◌∷◌, ◌++◌, length, take, drop, take-append-drop, length-drop, length-eq-zero, ap, get_elem?,
  le→leb, arith,
}
use ni_traktor_kontrol_f.Jack.{JackRing, JackMidi, Layout}
use ni_traktor_kontrol_f.MidiEvent.Types.{
  MidiType, MidiEvent, empty_event, midi_event, type_byte, type_of_byte, note_off,
}

-- The bytes stored, how many more fit, and how many behind the first one stand before the wrap.
pub record ByteRing : Type 0 where
  pub stored : List ℕ
  pub free : ℕ
  pub before_wrap : ℕ

abbrev pub make_ring : ℕ → Option ByteRing
make_ring zero = none
make_ring (suc n) = some (record { stored = []; free = n; before_wrap = n })

abbrev pub write_ring : ByteRing → List ℕ → ℕ × ByteRing
write_ring r bs =
    let n = min (length bs) r.free in
    (n, record r { stored = r.stored ++ take n bs; free = r.free - n })

abbrev pub read_ring : ByteRing → ℕ → List ℕ × ByteRing
read_ring r n =
    let bs = take n r.stored in
    (bs, record r { stored = drop n r.stored; free = r.free + length bs })

abbrev pub first_segment : ByteRing → List ℕ
first_segment r = take (suc r.before_wrap) r.stored

pub made_empty : (n : ℕ) (r : ByteRing) → make_ring n ≡ some r → (r.stored ≡ []) × (r.free ≡ n - 1)
made_empty zero r e = absurd (none-ne-some r e)
made_empty (suc n) r e =
    subst (λ x. (x.stored ≡ []) × (x.free ≡ suc n - 1)) (some-injective _ _ e) (refl, omega arith)

pub no_first : (n : ℕ) (xs : List ℕ) → length (take (suc n) xs) ≡ 0 → drop (suc n) xs ≡ []
no_first n [] e = refl
no_first n (x ∷ xs) e = absurd (omega arith)

pub still_none : (w n : ℕ) (xs : List ℕ) → drop (suc w) xs ≡ [] → drop (suc w) (drop n xs) ≡ []
still_none w n xs e = length-eq-zero _ (
    omega (
      arith,
      length-drop (suc w) (drop n xs),
      length-drop n xs,
      length-drop (suc w) xs,
      ap length e,
    ))

abbrev pub byte_ring : JackRing
byte_ring = record {
  Ring = ByteRing;
  contents = λ r. r.stored;
  room = λ n. n - 1;
  create = make_ring;
  read_space = λ r. length r.stored;
  write_space = λ r. r.free;
  write = write_ring;
  read = read_ring;
  read_advance = λ r n. record r { stored = drop n r.stored; free = r.free + n };
  read_vector = λ r. (first_segment r, drop (suc r.before_wrap) r.stored);
  create-contents = λ n r e. (made_empty n r e).0;
  create-space = λ n r e. (made_empty n r e).1;
  read_space-contents = λ r. refl;
  write-count = λ r bs. refl;
  write-contents = λ r bs. refl;
  write-space = λ r bs. omega arith;
  read-bytes = λ r n. refl;
  read-contents = λ r n. refl;
  read-space = λ r n. refl;
  advance-contents = λ r n h. refl;
  advance-space = λ r n h. refl;
  vector-contents = λ r. take-append-drop (suc r.before_wrap) r.stored;
  advance-segment = λ r n h e. still_none r.before_wrap n r.stored e;
  vector-first = λ r e. no_first r.before_wrap r.stored e;
}

-- The messages stored, and how many more bytes fit.
pub record ListPort : Type 0 where
  pub stored : List (List ℕ)
  pub free : ℕ

abbrev pub write_port : ListPort → List ℕ → Option ListPort
write_port p bs =
    if leb (length bs) p.free
    then some (record { stored = p.stored ++ (bs ∷ []); free = p.free - length bs })
    else none

abbrev pub list_midi : JackMidi
list_midi = record {
  Port = ListPort;
  messages = λ p. p.stored;
  overhead = 0;
  max_event_size = λ p. p.free;
  clear_buffer = λ p. record p { stored = [] };
  event_count = λ p. length p.stored;
  event_get = λ p i. get_elem? p.stored i;
  event_write = write_port;
  clear-messages = λ p. refl;
  clear-size = λ p. omega arith;
  count-messages = λ p. refl;
  get-messages = λ p i. refl;
  write-fits = λ p bs h. (
    record { stored = p.stored ++ (bs ∷ []); free = p.free - length bs },
    rw (le→leb (length bs) p.free h),
    refl,
    omega arith,
  );
}

abbrev pub decode_event : List ℕ → MidiEvent
decode_event (t ∷ c ∷ a ∷ b ∷ []) = midi_event (type_of_byte t) c a b
decode_event _ = empty_event

pub type_of_byte-type_byte : (t : MidiType) → type_of_byte (type_byte t) ≡ t
unfolding type_of_byte type_byte
type_of_byte-type_byte note_off = refl
type_of_byte-type_byte _ = refl

abbrev pub event_layout : Layout MidiEvent
unfolding type_byte
event_layout = record {
  sizeof = 4;
  encode = λ e. type_byte e.type ∷ e.channel ∷ e.data1 ∷ e.data2 ∷ [];
  decode = decode_event;
  sizeof_pos = omega arith;
  length-encode = λ e. refl;
  decode-encode = λ e. rw (type_of_byte-type_byte e.type);
}
