-- ===== src/JackWrapper/Input.antt =====
-- The way of MIDI bytes from JACK's process thread to `operator>>` (JackWrapper.cpp).
use mathlib.Core.List.{append-nil, append_assoc}
use ni_traktor_kontrol_f.Base.{
  ℕ, zero, suc, ◌+◌, ◌-◌, ◌≤◌, ◌<◌, leb, if◌then◌else◌, ◌≡◌, refl, ap, sym, subst, ◌∙◌, some, List,
  [], ◌∷◌, ◌++◌, length, take, get_elem?, take_whole, length-append, ok, Returns, Bool-cases, inl,
  inr, leb→le, leb_false→lt, le→leb, lt→leb_false, arith,
}
use ni_traktor_kontrol_f.Jack.{JackRing, JackMidi, Layout}
use ni_traktor_kontrol_f.MidiEvent.Types.{MidiEvent}
use ni_traktor_kontrol_f.Ringbuffer.{Ringbuffer}
use ni_traktor_kontrol_f.Ringbuffer.Holds.{Holds, full-Holds}
use ni_traktor_kontrol_f.Ringbuffer.Steps.{push-Holds}
use ni_traktor_kontrol_f.JackWrapper.{Wrapper, byte_layout, push_bytes, read_events, read_callback}

-- All bytes of a list of messages.
unfoldable pub concat : List (List ℕ) → List ℕ
concat [] = []
concat (m ∷ ms) = m ++ concat ms

-- The result of a callback: 0 if `bytes` fit into `room`.
abbrev pub fits_result : List ℕ → (room : ℕ) → ℕ
fits_result bytes room = if leb (length bytes) room then 0 else 1

take-append_le : (n : ℕ) (xs ys : List ℕ) → n ≤ length xs → take n (xs ++ ys) ≡ take n xs
take-append_le zero xs ys h = refl
take-append_le (suc n) [] ys h = absurd (omega arith)
take-append_le (suc n) (x ∷ xs) ys h = ap (λ r. x ∷ r) (take-append_le n xs ys (omega arith))

take-append_ge :
    (n : ℕ) (xs ys : List ℕ) → length xs ≤ n → take n (xs ++ ys) ≡ xs ++ take (n - length xs) ys
take-append_ge n [] ys h = ap (λ k. take k ys) (omega arith)
take-append_ge zero (x ∷ xs) ys h = absurd (omega arith)
take-append_ge (suc n) (x ∷ xs) ys h =
    ap (λ r. x ∷ r) (take-append_ge n xs ys (omega arith) ∙ ap (λ k. xs ++ take k ys) (omega arith))

no_bytes : (q : List ℕ) (n : ℕ) → q ++ take n [] ≡ q
no_bytes q zero = append-nil q
no_bytes q (suc n) = append-nil q

-- What changes when a byte finds no room, and when it takes some.
no_room :
    (q : List ℕ) (x : ℕ) (xs : List ℕ) {room : ℕ}
    → room ≡ 0
    → (fits_result (x ∷ xs) room ≡ 1) × (q ++ take room (x ∷ xs) ≡ q)
no_room q x xs h = rw (h, lt→leb_false 0 (suc (length xs)) (omega arith)) (refl, append-nil q)

one_taken :
    (q : List ℕ) (x : ℕ) (xs : List ℕ) {room less : ℕ}
    → room ≡ suc less
    → (fits_result (x ∷ xs) room ≡ fits_result xs less)
      × (q ++ take room (x ∷ xs) ≡ (q ++ (x ∷ [])) ++ take less xs)
one_taken q x xs {less = less} h =
    rw h (ap (λ b. if b then 0 else 1) shorter, sym (append_assoc q (x ∷ []) (take less xs)))
  where
    shorter : leb (suc (length xs)) (suc less) ≡ leb (length xs) less
    shorter = ground arith

-- What changes when a message finds enough room, and when it does not.
all_taken :
    (q m rest : List ℕ) {room less : ℕ}
    → length m ≤ room
    → room - length m ≡ less
    → (fits_result (m ++ rest) room ≡ fits_result rest less)
      × (q ++ take room (m ++ rest) ≡ (q ++ take room m) ++ take less rest)
all_taken q m rest {room} {less} h l = (
  rw (length-append m rest) (ap (λ b. if b then 0 else 1) shorter),
  rw (take_whole room m h, take-append_ge room m rest h, l)
      (sym (append_assoc q m (take less rest))),
)
  where
    shorter : leb (length m + length rest) room ≡ leb (length rest) less
    shorter = ground arith

part_taken :
    (q m rest : List ℕ) {room : ℕ}
    → room < length m
    → (fits_result (m ++ rest) room ≡ 1) × (q ++ take room (m ++ rest) ≡ q ++ take room m)
part_taken q m rest {room} h = (
  rw (length-append m rest, lt→leb_false room (length m + length rest) (omega arith)),
  ap (λ x. q ++ x) (take-append_le room m rest (omega arith)),
)

module _ (j : JackRing) (layout : Layout MidiEvent) (k : JackMidi) where
  -- What a loop that writes `bytes` behind `q` leaves: as many as fit, and whether all did.
  unfoldable pub Filled : (places : ℕ) (q bytes : List ℕ) → ℕ × Ringbuffer j → Type 0
  Filled places q bytes r =
      (r.0 ≡ fits_result bytes (places - length q))
      × Holds j byte_layout places r.1 (q ++ take (places - length q) bytes)

  push_bytes-nil :
      {places : ℕ} {b : Ringbuffer j} {q : List ℕ}
      → Holds j byte_layout places b q
      → Returns (Filled places q []) (ok (0, b))
  unfolding Filled
  push_bytes-nil {places} {b} {q} h = (
    (0, b),
    refl,
    (
      sym (ap (λ t. if t then 0 else 1) (le→leb 0 (places - length q) (omega arith))),
      subst (Holds j byte_layout places b) (sym (no_bytes q _)) h,
    ),
  )

  push_bytes-Filled :
      (bytes : List ℕ) {places : ℕ} {b : Ringbuffer j} {q : List ℕ}
      → Holds j byte_layout places b q
      → Returns (Filled places q bytes) (push_bytes j layout k bytes b)
  unfolding push_bytes Filled
  push_bytes-Filled [] h = push_bytes-nil h
  push_bytes-Filled (x ∷ xs) {places} {b} {q} h = elim (Bool-cases (leb places (length q))) [
    | inl is_full ↦
        let (f, t) =
          no_room q x xs {room = places - length q} (omega (arith, leb→le _ _ is_full)) in
        (
          (1, b),
          rw (full-Holds j byte_layout h, is_full),
          (sym f, subst (Holds j byte_layout places b) (sym t) h),
        )
    | inr room ↦
        let (c, e, after) = push-Holds j byte_layout h x (leb_false→lt _ _ room) in
        let (r, e', (res, last)) = push_bytes-Filled xs after in
        let (f, t) =
          one_taken q x xs {room = places - length q} {less = places - length (q ++ (x ∷ []))}
            (omega (arith, leb_false→lt _ _ room, length-append q (x ∷ []))) in
        (
          r,
          rw (full-Holds j byte_layout h, room, e, e'),
          (res ∙ sym f, subst (Holds j byte_layout places r.1) (sym t) last),
        )
  ]

  pub read_events-Filled :
      (ms : List (List ℕ)) (i : ℕ) {places : ℕ} {b : Ringbuffer j} {q : List ℕ} (port : k.Port)
      → ((n : ℕ) → k.event_get port (i + n) ≡ get_elem? ms n)
      → Holds j byte_layout places b q
      → Returns (Filled places q (concat ms)) (read_events j layout k (length ms) i port b)
  unfolding read_events Filled concat
  read_events-Filled [] i {places} {b} {q} port get h = push_bytes-nil h
  read_events-Filled (m ∷ ms) i {places} {b} {q} port get h =
      let (r, e, (res, after)) = push_bytes-Filled m h in
      elim (Bool-cases (leb (length m) (places - length q))) [
        | inl fits ↦
            let (r', e', (res', last)) = read_events-Filled ms (suc i) port next after in
            let (f, t) = all_taken q m (concat ms) (leb→le _ _ fits) (less (leb→le _ _ fits)) in
            (
              r',
              rw (here, e, res, fits, e'),
              (res' ∙ sym f, subst (Holds j byte_layout places r'.1) (sym t) last),
            )
        | inr short ↦
            let (f, t) = part_taken q m (concat ms) (leb_false→lt _ _ short) in
            (
              _,
              rw (here, e, res, short),
              (sym f, subst (Holds j byte_layout places r.1) (sym t) after),
            )
      ]
    where
      here : k.event_get port i ≡ some m
      here = ap (k.event_get port) {x = i} {y = i + 0} (omega arith) ∙ get 0

      next : (n : ℕ) → k.event_get port (suc i + n) ≡ get_elem? ms n
      next n = ap (k.event_get port) {x = suc i + n} {y = i + suc n} (omega arith) ∙ get (suc n)

      less :
          length m ≤ places - length q
          → places - length q - length m ≡ places - length (q ++ take (places - length q) m)
      less fits = omega (
        arith,
        length-append q (take (places - length q) m),
        ap length (take_whole (places - length q) m fits),
      )

  -- The read callback appends the bytes of all messages to the ring, in their order, as far as the
  -- ring has room for them, and returns 0 if and only if it has room for all.
  pub read_callback-Filled :
      {places : ℕ} {q : List ℕ} (port : k.Port) (w : Wrapper j layout)
      → Holds j byte_layout places w.in_buf q
      → (filled : Ringbuffer j) × (read_callback j layout k port w
          ≡ ok (
            fits_result (concat (k.messages port)) (places - length q),
            record w { in_buf = filled },
          ))
        × Holds j byte_layout places filled
            (q ++ take (places - length q) (concat (k.messages port)))
  unfolding read_callback Filled
  read_callback-Filled port w h =
      let (r, e, (res, after)) =
        read_events-Filled (k.messages port) 0 port
          (λ n. ap (k.event_get port) {x = 0 + n} {y = n} (omega arith) ∙ k.get-messages port n)
          h in
      (r.1, rw (k.count-messages port, e, res), after)
