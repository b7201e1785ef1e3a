-- ===== src/RingIterator/Segments.antt =====
-- What the iterator of RingbufferIterator.hpp reads from the two segments of the ring.
use mathlib.Core.List.{append-nil}
use ni_traktor_kontrol_f.Base.{
  ℕ, suc, ◌+◌, ◌-◌, ◌<◌, ◌≡◌, refl, ap, sym, ◌∙◌, List, [], ◌∷◌, ◌++◌, length, index, tabulate,
  Result, err, out_of_range, undefined, lt→ltb, ltb→lt, ltb_false→le, ltb, length-append,
  length-drop, drop, get_elem?-drop, get_elem?-append_left, get_elem?-append_right, from_option,
  ap₂, if◌then◌else◌, Bool-cases, inl, inr, arith,
}
use ni_traktor_kontrol_f.Jack.{JackRing}
use ni_traktor_kontrol_f.MidiEvent.Parse.Plain.{readable}
use ni_traktor_kontrol_f.RingIterator.{
  RingbufferReadIterator, deref, is_readable, begin_iter, range,
}

-- Positions that can all be read give the bytes that stand there.
tabulate-readable :
    (xs : List ℕ) (i : ℕ) (f : ℕ → Result ℕ)
    → ((k : ℕ) → k < length xs → f (i + k) ≡ index undefined xs k)
    → tabulate (length xs) i f ≡ readable xs
tabulate-readable [] i f h = refl
tabulate-readable (x ∷ xs) i f h =
    ap₂ (λ a rest. a ∷ rest) (ap f {x = i} {y = i + 0} (omega arith) ∙ h 0 (omega arith))
      (tabulate-readable xs (suc i) f
        λ k l. ap f {x = suc i + k} {y = i + suc k} (omega arith) ∙ h (suc k) (omega arith))

module _ (j : JackRing) (p : ℕ) (r : j.Ring) where
  abbrev pub at_offset : ℕ → RingbufferReadIterator
  at_offset i = record (begin_iter j p r) { read_offset = i }

  abbrev first : List ℕ
  first = (j.read_vector r).0

  abbrev second : List ℕ
  second = (j.read_vector r).1

  -- An iterator reads the right byte in the first segment of the ring; in the second segment it
  -- reads as many bytes too far as the first one has; behind both it throws std::out_of_range.
  pub deref-Segments :
      (i : ℕ)
      → deref (at_offset i) ≡ (
          if ltb i (length (j.read_vector r).0)
          then index undefined (j.contents r) i
          else if ltb i (length (j.contents r))
          then index undefined (j.contents r) (length (j.read_vector r).0 + i)
          else err out_of_range)
  unfolding deref is_readable begin_iter
  deref-Segments i =
      rw (sym (j.vector-contents r), length-append first second)
        (elim (Bool-cases (ltb i (length first))) [
          | inl a ↦ rw (
            a,
            lt→ltb i (length first + length second) (omega (arith, ltb→lt _ _ a)),
            get_elem?-append_left first second i (ltb→lt _ _ a),
          )
          | inr a ↦ elim (Bool-cases (ltb i (length first + length second))) [
            | inl b ↦ rw (
              a,
              b,
              lt→ltb 0 (length second) (omega (arith, ltb→lt _ _ b, ltb_false→le _ _ a)),
              get_elem?-append_right first second i,
            )
            | inr b ↦ rw (a, b)
          ]
        ])

  -- In a ring whose readable bytes stand in one segment, an iterator reads all of them from its
  -- position on.
  pub range-one_segment :
      (i : ℕ) → (j.read_vector r).1 ≡ [] → range (at_offset i) ≡ readable (drop i (j.contents r))
  unfolding range begin_iter
  range-one_segment i one =
      ap (λ n. tabulate n i (λ k. deref (at_offset k))) left
      ∙ tabulate-readable (drop i (j.contents r)) i (λ k. deref (at_offset k)) each
    where
      whole : first ≡ j.contents r
      whole = sym (append-nil first) ∙ ap (λ x. first ++ x) (sym one) ∙ j.vector-contents r

      left : length first + length second - i ≡ length (drop i (j.contents r))
      left = omega (arith, ap length whole, ap length one, length-drop i (j.contents r))

      each :
          (k : ℕ)
          → k < length (drop i (j.contents r))
          → deref (at_offset (i + k)) ≡ index undefined (drop i (j.contents r)) k
      each k l =
          deref-Segments (i + k)
          ∙ rw
              (lt→ltb (i + k) (length first)
                (omega (arith, ap length whole, length-drop i (j.contents r))))
              (ap (from_option undefined) (sym (get_elem?-drop i (j.contents r) k)))
