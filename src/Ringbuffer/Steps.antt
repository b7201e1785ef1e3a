-- ===== src/Ringbuffer/Steps.antt =====
-- What `push` and `pop` of Ringbuffer.hpp do to the items of a ring buffer, errors included.
use mathlib.Core.List.{append-nil}
use native.Mathlib.Nat.{mul-le-mul_right}
use ni_traktor_kontrol_f.Base.{
  ℕ, suc, ◌+◌, ◌*◌, ◌≤◌, ◌<◌, ==_iff, ◌≡◌, refl, ap, sym, ◌∙◌, some, List, [], ◌∷◌, ◌++◌, length,
  take, drop, length-append, take_whole, take-length_append, drop-length_append, err, out_of_range,
  Returns, le→leb, lt→leb_false, arith,
}
use ni_traktor_kontrol_f.Jack.{JackRing, Layout}
use ni_traktor_kontrol_f.Ringbuffer.{Ringbuffer, write_whole, push, pop}
use ni_traktor_kontrol_f.Ringbuffer.Holds.{
  encode_all, encode_all-append, Holds, assert_invariants-Holds, empty-Holds, full-Holds,
}

module _ (j : JackRing) {T : Type 0} (l : Layout T) where
  -- The bytes `bs` have been written behind those of `r`.
  pub record Wrote (r : j.Ring) (bs : List ℕ) (r' : j.Ring) : Type 0 where
    pub bytes : j.contents r' ≡ j.contents r ++ bs
    pub space : j.write_space r' + length bs ≡ j.write_space r

  pub write_whole-Wrote :
      (r : j.Ring) (bs : List ℕ)
      → length bs ≤ j.write_space r
      → Returns (Wrote r bs) (write_whole j l r bs)
  unfolding write_whole
  write_whole-Wrote r bs fits = (
    (j.write r bs).1,
    rw ((==_iff _ _).1 count),
    record {
      bytes =
          j.write-contents r bs
          ∙ ap (λ n. j.contents r ++ take n bs) count
          ∙ ap (λ x. j.contents r ++ x) (take_whole (length bs) bs (omega arith));
      space = omega (arith, j.write-space r bs);
    },
  )
    where
      count : (j.write r bs).0 ≡ length bs
      count = omega (arith, j.write-count r bs)

  module _ {places : ℕ} {b : Ringbuffer j} where
    pub push-Holds :
        {q : List T} (h : Holds j l places b q) (v : T)
        → length q < places
        → Returns (λ c. Holds j l places c (q ++ (v ∷ []))) (push j l b v)
    unfolding push encode_all
    push-Holds {q} h v room =
        let (r, e, w) = write_whole-Wrote h.ring (l.encode v) fits in
        let after : Holds j l places (record b { buf = some r }) (q ++ (v ∷ [])) = record {
          ring = r;
          is_ring = refl;
          bytes =
              w.bytes
              ∙ ap (λ x. x ++ l.encode v) h.bytes
              ∙ sym (
                  encode_all-append j l q (v ∷ [])
                  ∙ ap (λ x. encode_all l q ++ x) (append-nil (l.encode v)));
          enough = omega (arith, w.space, h.enough, grown, l.length-encode v);
          not_more = omega (arith, w.space, h.not_more, grown, l.length-encode v);
        } in
        (
          _,
          rw (
            assert_invariants-Holds j l h,
            full-Holds j l h,
            lt→leb_false _ _ room,
            e,
            assert_invariants-Holds j l after,
          ),
          after,
        )
      where
        grown : length (q ++ (v ∷ [])) * l.sizeof ≡ length q * l.sizeof + l.sizeof
        grown = ap (λ n. n * l.sizeof) (length-append q (v ∷ [])) ∙ omega arith

        fits : length (l.encode v) ≤ j.write_space h.ring
        fits = omega (
          arith,
          l.length-encode v,
          h.enough,
          mul-le-mul_right {m = suc (length q)} {n = places} l.sizeof room,
        )

    pub push-full :
        {q : List T} (h : Holds j l places b q) (v : T)
        → places ≤ length q
        → push j l b v ≡ err out_of_range
    unfolding push
    push-full h v no_room = rw (assert_invariants-Holds j l h, full-Holds j l h, le→leb _ _ no_room)

    pub pop-Holds :
        {t : T} {q : List T} (h : Holds j l places b (t ∷ q))
        → Returns (λ r. (r.0 ≡ t) × Holds j l places r.1 q) (pop j l b)
    unfolding pop encode_all
    pop-Holds {t} {q} h =
        let after : Holds j l places (record b { buf = some (j.read h.ring l.sizeof).1 }) q =
          record {
            ring = (j.read h.ring l.sizeof).1;
            is_ring = refl;
            bytes = j.read-contents h.ring l.sizeof ∙ left;
            enough = omega (arith, j.read-space h.ring l.sizeof, h.enough, count);
            not_more = omega (arith, j.read-space h.ring l.sizeof, h.not_more, count);
          } in
        (
          _,
          rw (
            assert_invariants-Holds j l h,
            empty-Holds j l h,
            (==_iff _ l.sizeof).1 count,
            assert_invariants-Holds j l after,
          ),
          (ap l.decode taken ∙ l.decode-encode t, after),
        )
      where
        taken : (j.read h.ring l.sizeof).0 ≡ l.encode t
        taken =
            j.read-bytes h.ring l.sizeof
            ∙ ap (take l.sizeof) h.bytes
            ∙ ap (λ n. take n (l.encode t ++ encode_all l q)) (sym (l.length-encode t))
            ∙ take-length_append (l.encode t) (encode_all l q)

        count : length (j.read h.ring l.sizeof).0 ≡ l.sizeof
        count = ap length taken ∙ l.length-encode t

        left : drop l.sizeof (j.contents h.ring) ≡ encode_all l q
        left =
            ap (drop l.sizeof) h.bytes
            ∙ ap (λ n. drop n (l.encode t ++ encode_all l q)) (sym (l.length-encode t))
            ∙ drop-length_append (l.encode t) (encode_all l q)

    pub pop-empty : Holds j l places b [] → pop j l b ≡ err out_of_range
    unfolding pop
    pop-empty h = rw (assert_invariants-Holds j l h, empty-Holds j l h)
