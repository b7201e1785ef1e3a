-- ===== src/Ringbuffer.antt =====
-- `Ringbuffer<T>` of driver/src/io/Ringbuffer.hpp over JACK's ring of bytes.
pub mod Holds
pub mod Steps
pub mod Refine
pub mod Copy
use ni_traktor_kontrol_f.Base.{
  ℕ, ◌*◌, ◌/◌, ◌%◌, ◌^◌, ltb, ◌==◌, if◌then◌else◌, Bool, Option, some, none, List, [], ◌∷◌, length,
  Error, Result, ok, err, out_of_range, bad_alloc, assert_failed, check, from_option, ◌>>=◌, ◌>>◌,
}
use ni_traktor_kontrol_f.Jack.{JackRing, Layout}

-- The number of bytes for `n` items, as `std::size_t` computes it.
abbrev pub byte_count : (sizeof n : ℕ) → ℕ
byte_count sizeof n = n * sizeof % 2 ^ 64

module _ (j : JackRing) where
  -- The pointer is null in an object that was moved from.
  pub record Ringbuffer : Type 0 where
    pub buf : Option j.Ring
    pub buf_size : ℕ

module _ (j : JackRing) {T : Type 0} (l : Layout T) where
  -- `assert_invariants`, with the ring that the pointer points to.
  unfoldable pub assert_invariants : Ringbuffer j → Result j.Ring
  assert_invariants b = do
    r ← from_option assert_failed b.buf
    check (j.read_space r % l.sizeof == 0)
    ok r

  unfoldable pub init_buf : ℕ → Result j.Ring
  init_buf buf_size = from_option bad_alloc (j.create (byte_count l.sizeof buf_size))

  -- `jack_ringbuffer_write` and the assertion that it took all bytes.
  unfoldable pub write_whole : j.Ring → List ℕ → Result j.Ring
  write_whole r bytes =
      let (written, r') = j.write r bytes in check (written == length bytes) >> ok r'

  -- The bytes of the ring `o`, written into `r`.
  unfoldable pub copy_buf : j.Ring → (o : j.Ring) → Result j.Ring
  copy_buf r o =
      let (first, second) = j.read_vector o in
      if length first == 0
      then ok r
      else do r ← write_whole r first; if ltb 0 (length second) then write_whole r second else ok r

  -- The constructor from a size.
  unfoldable pub construct : ℕ → Result (Ringbuffer j)
  construct size = do
    r ← init_buf size
    let b : Ringbuffer j = record { buf = some r; buf_size = size }
    valid ← assert_invariants b
    ok b

  -- The copy constructor; the copy assignment does the same unless both are one object.
  unfoldable pub copy : Ringbuffer j → Result (Ringbuffer j)
  copy o = do
    r ← init_buf o.buf_size
    from ← from_option assert_failed o.buf
    r ← copy_buf r from
    let b : Ringbuffer j = record { buf = some r; buf_size = o.buf_size }
    valid ← assert_invariants b
    ok b

  -- The move constructor: the new object and what is left of the old one.
  unfoldable pub move : Ringbuffer j → Result (Ringbuffer j × Ringbuffer j)
  move o = do valid ← assert_invariants o; ok (o, record o { buf = none })

  unfoldable pub empty : Ringbuffer j → Result Bool
  empty b = do r ← assert_invariants b; ok (ltb (j.read_space r) l.sizeof)

  unfoldable pub full : Ringbuffer j → Result Bool
  full b = do r ← assert_invariants b; ok (ltb (j.write_space r) l.sizeof)

  unfoldable pub size : Ringbuffer j → Result ℕ
  size b = do r ← assert_invariants b; ok (j.read_space r / l.sizeof)

  unfoldable pub capacity : Ringbuffer j → ℕ
  capacity b = b.buf_size

  unfoldable pub push : Ringbuffer j → T → Result (Ringbuffer j)
  push b v = do
    r ← assert_invariants b
    is_full ← full b
    if is_full then err out_of_range else do
      r ← write_whole r (l.encode v)
      let b = record b { buf = some r }
      valid ← assert_invariants b
      ok b

  unfoldable pub pop : Ringbuffer j → Result (T × Ringbuffer j)
  pop b = do
    r ← assert_invariants b
    is_empty ← empty b
    if is_empty then err out_of_range else do
      let (bytes, r') = j.read r l.sizeof
      check (length bytes == l.sizeof)
      let b = record b { buf = some r' }
      valid ← assert_invariants b
      ok (l.decode bytes, b)
