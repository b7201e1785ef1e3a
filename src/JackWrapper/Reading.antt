-- ===== src/JackWrapper/Reading.antt =====
-- Reading an event by `operator>>` (JackWrapper.cpp) from any bytes in the input ring.
use ni_traktor_kontrol_f.Base.{
  ℕ, zero, suc, ◌+◌, ◌-◌, ◌≤◌, ◌<◌, ◌≡◌, refl, ap, sym, subst, ◌∙◌, some, List, [], ◌∷◌, ◌++◌,
  length, drop, take, take-append-drop, length-append, length-drop, All, All-drop, All-tabulate,
  index, undefined, ltb, ok, Ends, Ends-bind, Bool-cases, inl, inr, arith,
}
use ni_traktor_kontrol_f.Jack.{JackRing}
use ni_traktor_kontrol_f.MidiEvent.Types.{MidiEvent}
use ni_traktor_kontrol_f.MidiEvent.Parse.{parse}
use ni_traktor_kontrol_f.MidiEvent.Parse.Bounds.{IsByte, IsFound, parse-IsFound}
use ni_traktor_kontrol_f.MidiEvent.Parse.Plain.{from_status, plain_status, parse-readable, readable}
use ni_traktor_kontrol_f.MidiEvent.Parse.Stream.{plain_progress}
use ni_traktor_kontrol_f.Ringbuffer.{Ringbuffer}
use ni_traktor_kontrol_f.Ringbuffer.Holds.{Holds}
use ni_traktor_kontrol_f.RingIterator.{
  RingbufferReadIterator, begin_iter, deref, is_readable, parse_at, range, readable_bytes,
}
use ni_traktor_kontrol_f.RingIterator.Segments.{at_offset}
use ni_traktor_kontrol_f.RingIterator.Parsing.{parse_at-one_segment}
use ni_traktor_kontrol_f.JackWrapper.{byte_layout, read_event}
use ni_traktor_kontrol_f.JackWrapper.Parsed.{distance-begin, encode_all-bytes, read_advance-Holds}

abbrev pub Bytes : List ℕ → Type 0
Bytes = All (λ b. b < 256)

Bytes-split : (xs ys : List ℕ) → Bytes (xs ++ ys) → Bytes xs × Bytes ys
Bytes-split [] ys a = (tt, a)
Bytes-split (x ∷ xs) ys a = let (b, c) = Bytes-split xs ys a.1 in ((a.0, b), c)

index-IsByte : (xs : List ℕ) (i : ℕ) → Bytes xs → IsByte (index undefined xs i)
index-IsByte [] i a = tt
index-IsByte (x ∷ xs) zero a = a.0
index-IsByte (x ∷ xs) (suc i) a = index-IsByte xs i a.1

-- Whatever an iterator reads is a byte of its segments.
deref-IsByte :
    (it : RingbufferReadIterator) → Bytes it.read_data.0 → Bytes it.read_data.1 → IsByte (deref it)
unfolding deref
deref-IsByte it a b = elim (Bool-cases (is_readable it)) [
  | inr e ↦ rw e tt
  | inl e ↦ elim (Bool-cases (ltb it.read_offset (length it.read_data.0))) [
    | inl f ↦ rw (e, f) (index-IsByte it.read_data.0 it.read_offset a)
    | inr f ↦ elim (Bool-cases (ltb 0 (length it.read_data.1))) [
      | inl g ↦ rw (e, f, g) (index-IsByte it.read_data.1 it.read_offset b)
      | inr g ↦ rw (e, f, g) tt
    ]
  ]
]

module _ (j : JackRing) where
  range-IsByte :
      (address : ℕ) (r : j.Ring)
      → Bytes (j.contents r)
      → All IsByte (range (begin_iter j address r))
  unfolding range begin_iter
  range-IsByte address r a =
      let (b, c) =
        Bytes-split (j.read_vector r).0 (j.read_vector r).1
          (subst Bytes (sym (j.vector-contents r)) a) in
      All-tabulate IsByte (length (j.read_vector r).0 + length (j.read_vector r).1 - 0) 0
        (λ i. deref (record { ringbuf = address; read_data = j.read_vector r; read_offset = i }))
        (λ i p q.
          deref-IsByte (record { ringbuf = address; read_data = j.read_vector r; read_offset = i })
            b c)

  -- The event found, and how far the iterator is then.
  Passed : (address : ℕ) → j.Ring → MidiEvent × RingbufferReadIterator → Type 0
  Passed address r p =
      (p.0.data2 < 128) × ((n : ℕ) × (p.1 ≡ at_offset j address r n) × (n ≤ length (j.contents r)))

  parse_at-Passed :
      (address : ℕ) (r : j.Ring)
      → Bytes (j.contents r)
      → Ends (Passed address r) (parse_at (begin_iter j address r))
  unfolding parse_at begin_iter Passed
  parse_at-Passed address r a =
      Ends-bind IsFound (Passed address r) (parse (range (begin_iter j address r))) _
        (parse-IsFound _ (range-IsByte address r a))
        (λ p f. (
          f.0,
          (
            readable_bytes (begin_iter j address r) - length p.1,
            refl,
            omega (
              arith,
              ap length (j.vector-contents r),
              length-append (j.read_vector r).0 (j.read_vector r).1,
            ),
          ),
        ))

  -- A ring of bytes whose read pointer was advanced by `n`.
  pub advanced-Holds :
      {places : ℕ} {b : Ringbuffer j} {q : List ℕ} (n : ℕ)
      → n ≤ length q
      → (h : Holds j byte_layout places b q)
      → Holds j byte_layout places (record b { buf = some (j.read_advance h.ring n) }) (drop n q)
  advanced-Holds {q = q} n l h =
      read_advance-Holds j (take n q) (drop n q) n (sym (take-append-drop n q))
        (omega (
          arith,
          ap length (take-append-drop n q),
          length-append (take n q) (drop n q),
          length-drop n q,
        ))
        h

  -- What an event read from a ring of the bytes `bs` leaves.
  unfoldable pub Read : (places : ℕ) (bs : List ℕ) → MidiEvent × Ringbuffer j → Type 0
  Read places bs r =
      (r.0.data2 < 128)
      × ((rest : List ℕ) × Bytes rest
          × (length rest ≤ length bs)
          × Holds j byte_layout places r.1 rest)

  -- On any ring of bytes `operator>>` returns an event with seven bits in its second byte of data, if
  -- it returns, and what is left is a ring of bytes.
  pub read_event-Read :
      {places : ℕ} {b : Ringbuffer j} {bs : List ℕ} (address : ℕ)
      → Bytes bs
      → (h : Holds j byte_layout places b bs) → Ends (Read places bs) (read_event j address b)
  unfolding read_event Read Passed
  read_event-Read {places} {b} {bs} address a h =
      let all : j.contents h.ring ≡ bs = h.bytes ∙ encode_all-bytes bs in
      rw h.is_ring (
        Ends-bind (Passed address h.ring) (Read places bs) (parse_at (begin_iter j address h.ring))
          _ (parse_at-Passed address h.ring (subst Bytes (sym all) a))
          (λ p f.
            let (d, (n, e, l)) = f in
            let few : n ≤ length bs = omega (arith, l, ap length all) in
            rw (e, distance-begin j address h.ring n)
              (
                d,
                (
                  drop n bs,
                  All-drop (λ b. b < 256) n bs a,
                  omega (arith, length-drop n bs),
                  advanced-Holds n few h,
                ),
              )))

  -- On one segment `operator>>` returns, and takes the bytes up to what the parser leaves.
  pub read_event-one_segment :
      {places : ℕ} {b : Ringbuffer j} {bs : List ℕ} (address : ℕ)
      (h : Holds j byte_layout places b bs)
      → (j.read_vector h.ring).1 ≡ []
      → 0 < length bs
      → (n : ℕ) × (read_event j address b
          ≡ ok (
            (plain_status (from_status bs)).0,
            record b { buf = some (j.read_advance h.ring n) },
          ))
        × (0 < n)
        × (n ≤ j.read_space h.ring)
        × (n ≡ length bs - length (plain_status (from_status bs)).1)
  unfolding read_event begin_iter
  read_event-one_segment {b = b} {bs = bs} address h one some_left =
      let all : j.contents h.ring ≡ bs = h.bytes ∙ encode_all-bytes bs in
      let rest = (plain_status (from_status bs)).1 in
      (
        length (j.contents h.ring) - length rest,
        rw (
          h.is_ring,
          parse_at-one_segment j address h.ring one 0 _ rest
              (ap (λ x. parse (readable x)) all ∙ parse-readable bs),
          distance-begin j address h.ring (length (j.contents h.ring) - length rest),
        ),
        omega (arith, plain_progress bs some_left, ap length all),
        omega (arith, j.read_space-contents h.ring),
        omega (arith, ap length all),
      )
