-- ===== src/Ringbuffer/Holds.antt =====
-- The items that a ring buffer holds (Ringbuffer.hpp), and what each operation does to them.
use mathlib.Core.List.{append_assoc}
use native.Mathlib.Nat.{mul-mod_left, mul-div_left, mul-le-mul_right}
use ni_traktor_kontrol_f.Base.{
  ℕ, suc, ◌+◌, ◌*◌, ◌≤◌, ◌<◌, leb, ltb, Bool, true, false, ◌≡◌, refl, ap, sym, ◌∙◌, some, List, [],
  ◌∷◌, ◌++◌, length, length-append, ok, lt→ltb, ge→ltb, leb→le, leb_false→lt, Bool-cases, inl, inr,
  arith,
}
use ni_traktor_kontrol_f.Jack.{JackRing, Layout}
use ni_traktor_kontrol_f.Ringbuffer.{Ringbuffer, assert_invariants, empty, full, size}

-- The bytes of a list of items.
unfoldable pub encode_all : {T : Type 0} → Layout T → List T → List ℕ
encode_all l [] = []
encode_all l (t ∷ ts) = l.encode t ++ encode_all l ts

abbrev pub is_nil : {T : Type 0} → List T → Bool
is_nil [] = true
is_nil (t ∷ ts) = false

module _ (j : JackRing) {T : Type 0} (l : Layout T) where
  -- The buffer holds the items `q`, the oldest first, and has room for `places` items in all.
  pub record Holds (places : ℕ) (b : Ringbuffer j) (q : List T) : Type 0 where
    pub ring : j.Ring
    pub is_ring : b.buf ≡ some ring
    pub bytes : j.contents ring ≡ encode_all l q
    pub enough : places * l.sizeof ≤ j.write_space ring + length q * l.sizeof
    pub not_more : j.write_space ring + length q * l.sizeof < places * l.sizeof + l.sizeof

  pub length-encode_all : (q : List T) → length (encode_all l q) ≡ length q * l.sizeof
  unfolding encode_all
  length-encode_all [] = omega arith
  length-encode_all (t ∷ ts) =
      omega (
        arith,
        length-append (l.encode t) (encode_all l ts),
        l.length-encode t,
        length-encode_all ts,
      )

  pub encode_all-append : (q p : List T) → encode_all l (q ++ p) ≡ encode_all l q ++ encode_all l p
  unfolding encode_all
  encode_all-append [] p = refl
  encode_all-append (t ∷ ts) p =
      ap (λ r. l.encode t ++ r) (encode_all-append ts p)
      ∙ sym (append_assoc (l.encode t) (encode_all l ts) (encode_all l p))

  ltb-is_nil : (q : List T) → 0 < l.sizeof → ltb (length q * l.sizeof) l.sizeof ≡ is_nil q
  ltb-is_nil [] p = lt→ltb (0 * l.sizeof) l.sizeof (omega arith)
  ltb-is_nil (t ∷ ts) p = ge→ltb (length (t ∷ ts) * l.sizeof) l.sizeof (omega arith)

  -- Less than one item fits exactly if all places are taken.
  ltb-leb : (n p s w : ℕ) → p * s ≤ w + n * s → w + n * s < p * s + s → ltb w s ≡ leb p n
  ltb-leb n p s w h k = elim (Bool-cases (leb p n)) [
    | inl le ↦ rw (le, lt→ltb w s (omega (arith, mul-le-mul_right s (leb→le p n le))))
    | inr gt ↦ rw (
      gt,
      ge→ltb w s (omega (arith, mul-le-mul_right {m = suc n} {n = p} s (leb_false→lt p n gt))),
    )
  ]

  module _ {places : ℕ} {b : Ringbuffer j} {q : List T} (h : Holds places b q) where
    pub read_space-Holds : j.read_space h.ring ≡ length q * l.sizeof
    read_space-Holds = j.read_space-contents h.ring ∙ ap length h.bytes ∙ length-encode_all q

    pub assert_invariants-Holds : assert_invariants j l b ≡ ok h.ring
    unfolding assert_invariants
    assert_invariants-Holds = rw (h.is_ring, read_space-Holds, mul-mod_left (length q) l.sizeof)

    pub size-Holds : size j l b ≡ ok (length q)
    unfolding size
    size-Holds =
        rw (assert_invariants-Holds, read_space-Holds, mul-div_left (length q) l.sizeof_pos)

    pub empty-Holds : empty j l b ≡ ok (is_nil q)
    unfolding empty
    empty-Holds = rw (assert_invariants-Holds, read_space-Holds, ltb-is_nil q l.sizeof_pos)

    pub full-Holds : full j l b ≡ ok (leb places (length q))
    unfolding full
    full-Holds = rw (
      assert_invariants-Holds,
      ltb-leb (length q) places l.sizeof (j.write_space h.ring) h.enough h.not_more,
    )
