-- ===== src/Ringbuffer/Copy.antt =====
-- The constructors of Ringbuffer.hpp: from a size, by copy and by move.
use mathlib.Core.List.{append-nil, append_assoc}
use native.Mathlib.Nat.{mul-le-mul_right, lt_of_mul-lt-mul_right}
use ni_traktor_kontrol_f.Base.{
  ℕ, suc, ◌+◌, ◌*◌, ◌≤◌, ◌<◌, ltb, ◌==◌, ==_iff, false, ◌≡◌, refl, ap, ap₂, subst, ◌⊎◌,
  length-eq-zero, sym, ◌∙◌, some, none, List, [], ◌++◌, length, length-append, err, bad_alloc,
  Returns, Bool-cases, Option-cases, inl, inr, arith,
}
use ni_traktor_kontrol_f.Jack.{JackRing, Layout}
use ni_traktor_kontrol_f.Ringbuffer.{Ringbuffer, byte_count, init_buf, copy_buf, construct, copy}
use ni_traktor_kontrol_f.Ringbuffer.Holds.{
  encode_all, length-encode_all, Holds, assert_invariants-Holds,
}
use ni_traktor_kontrol_f.Ringbuffer.Steps.{Wrote, write_whole-Wrote}

module _ (j : JackRing) {T : Type 0} (l : Layout T) where
  -- A ring made for `size` items has room for `places` of them.
  pub record HasRoom (places size : ℕ) : Type 0 where
    pub enough : places * l.sizeof ≤ j.room (byte_count l.sizeof size)
    pub not_more : j.room (byte_count l.sizeof size) < places * l.sizeof + l.sizeof

  Wrote-trans :
      {r s t : j.Ring} {xs ys : List ℕ}
      → Wrote j l r xs s
      → Wrote j l s ys t
      → Wrote j l r (xs ++ ys) t
  Wrote-trans {r} {s} {t} {xs} {ys} v w = record {
    bytes = w.bytes ∙ ap (λ x. x ++ ys) v.bytes ∙ append_assoc (j.contents r) xs ys;
    space = omega (arith, v.space, w.space, length-append xs ys);
  }

  copy_vector :
      (r o : j.Ring)
      → length ((j.read_vector o).0 ++ (j.read_vector o).1) ≤ j.write_space r
      → Returns (Wrote j l r ((j.read_vector o).0 ++ (j.read_vector o).1)) (copy_buf j l r o)
  unfolding copy_buf
  copy_vector r o fits = elim (Bool-cases (length first == 0)) [
    | inl none_left ↦ (
      r,
      rw none_left,
      record {
        bytes =
            sym (append-nil (j.contents r))
            ∙ ap (λ x. j.contents r ++ x)
                (sym (
                  ap₂ (λ x y. x ++ y) (length-eq-zero first ((==_iff _ 0).0 none_left))
                    (j.vector-first o ((==_iff _ 0).0 none_left))));
        space = omega (
          arith,
          length-append first second,
          (==_iff _ 0).0 none_left,
          ap length (j.vector-first o ((==_iff _ 0).0 none_left)),
        );
      },
    )
    | inr some_left ↦
        let (s, e, w) = write_whole-Wrote j l r first (omega (arith, length-append first second)) in
        elim (Bool-cases (ltb 0 (length second))) [
          | inl more ↦
              let (t, e', w') =
                write_whole-Wrote j l s second
                  (omega (arith, length-append first second, w.space)) in
              (t, rw (some_left, e, more, e'), Wrote-trans w w')
          | inr no_more ↦ (
            s,
            rw (some_left, e, no_more),
            subst (λ x. Wrote j l r x s)
                (sym (
                  ap (λ y. first ++ y) (length-eq-zero second (ltb_false→zero no_more))
                  ∙ append-nil first))
                w,
          )
        ]
  ]
    where
      first : List ℕ
      first = (j.read_vector o).0

      second : List ℕ
      second = (j.read_vector o).1

      ltb_false→zero : {n : ℕ} → ltb 0 n ≡ false → n ≡ 0
      ltb_false→zero h = ground arith

  copy_buf-Wrote :
      (r o : j.Ring)
      → length (j.contents o) ≤ j.write_space r
      → Returns (Wrote j l r (j.contents o)) (copy_buf j l r o)
  copy_buf-Wrote r o fits =
      subst (λ x. length x ≤ j.write_space r → Returns (Wrote j l r x) (copy_buf j l r o))
        (j.vector-contents o) (copy_vector r o) fits

  -- The constructor throws std::bad_alloc if JACK has no memory; otherwise the new ring buffer is
  -- empty.
  pub construct-Holds :
      (places size : ℕ)
      → HasRoom places size
      → ((j.create (byte_count l.sizeof size) ≡ none) × (construct j l size ≡ err bad_alloc))
        ⊎ Returns
            (λ b.
              Holds j l places b []
              × ((r : j.Ring) × (j.create (byte_count l.sizeof size) ≡ some r)))
            (construct j l size)
  unfolding construct init_buf encode_all
  construct-Holds places size room = elim (Option-cases (j.create (byte_count l.sizeof size))) [
    | inl e ↦ inl (e, rw e)
    | inr (r, e) ↦
        let made : Holds j l places (record { buf = some r; buf_size = size }) [] = record {
          ring = r;
          is_ring = refl;
          bytes = j.create-contents _ r e;
          enough = omega (arith, j.create-space _ r e, room.enough);
          not_more = omega (arith, j.create-space _ r e, room.not_more);
        } in
        inr (_, rw (e, assert_invariants-Holds j l made), (made, (r, e)))
  ]

  -- The copy of a ring buffer holds the same items.
  copy-Holds :
      {places : ℕ} {o : Ringbuffer j} {q : List T} (h : Holds j l places o q) (r : j.Ring)
      → HasRoom places o.buf_size
      → j.create (byte_count l.sizeof o.buf_size) ≡ some r
      → Returns (λ b. Holds j l places b q) (copy j l o)
  unfolding copy init_buf
  copy-Holds {places} {o} {q} h r room made =
      let (s, e, w) = copy_buf-Wrote r h.ring fits in
      let after : Holds j l places (record { buf = some s; buf_size = o.buf_size }) q = record {
        ring = s;
        is_ring = refl;
        bytes = w.bytes ∙ ap (λ x. x ++ j.contents h.ring) (j.create-contents _ r made) ∙ h.bytes;
        enough = omega (arith, w.space, j.create-space _ r made, room.enough, count);
        not_more = omega (arith, w.space, j.create-space _ r made, room.not_more, count);
      } in
      (_, rw (made, h.is_ring, e, assert_invariants-Holds j l after), after)
    where
      count : length (j.contents h.ring) ≡ length q * l.sizeof
      count = ap length h.bytes ∙ length-encode_all j l q

      few : length q ≤ places
      few = omega (
        arith,
        lt_of_mul-lt-mul_right l.sizeof {m = length q} {n = suc places} (omega (arith, h.not_more)),
      )

      fits : length (j.contents h.ring) ≤ j.write_space r
      fits = omega (
        arith,
        count,
        j.create-space _ r made,
        room.enough,
        mul-le-mul_right {m = length q} {n = places} l.sizeof few,
      )
