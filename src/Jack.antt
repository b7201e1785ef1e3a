-- ===== src/Jack.antt =====
-- What the drivers use of JACK: its ring of bytes (`jack_ringbuffer_*`) and the buffer of a MIDI
-- port (`jack_midi_*`). JACK is not part of the repository, so both are parameters: operations, and
-- as laws what JACK's documentation says of them.
use ni_traktor_kontrol_f.Base.{
  ℕ, ◌+◌, ◌≤◌, ◌<◌, min, ◌≡◌, List, [], ◌∷◌, ◌++◌, length, get_elem?, take, drop, Option, some,
}

pub record JackRing : Type 1 where
  -- `jack_ringbuffer_t`
  pub Ring : Type 0
  -- what has been written and not been read yet
  pub contents : Ring → List ℕ
  -- how many bytes fit into an empty ring that was made for `n` bytes
  pub room : ℕ → ℕ
  -- none: the pointer is null
  pub create : ℕ → Option Ring
  pub read_space : Ring → ℕ
  pub write_space : Ring → ℕ
  -- how many bytes were written
  pub write : Ring → List ℕ → ℕ × Ring
  -- the bytes that were read
  pub read : Ring → ℕ → List ℕ × Ring
  pub read_advance : Ring → ℕ → Ring
  -- the readable bytes in their two segments
  pub read_vector : Ring → List ℕ × List ℕ
  pub create-contents : (n : ℕ) (r : Ring) → create n ≡ some r → contents r ≡ []
  pub create-space : (n : ℕ) (r : Ring) → create n ≡ some r → write_space r ≡ room n
  pub read_space-contents : (r : Ring) → read_space r ≡ length (contents r)
  pub write-count : (r : Ring) (bs : List ℕ) → (write r bs).0 ≡ min (length bs) (write_space r)
  pub write-contents :
      (r : Ring) (bs : List ℕ) → contents (write r bs).1 ≡ contents r ++ take (write r bs).0 bs
  pub write-space :
      (r : Ring) (bs : List ℕ) → write_space (write r bs).1 + (write r bs).0 ≡ write_space r
  pub read-bytes : (r : Ring) (n : ℕ) → (read r n).0 ≡ take n (contents r)
  pub read-contents : (r : Ring) (n : ℕ) → contents (read r n).1 ≡ drop n (contents r)
  pub read-space :
      (r : Ring) (n : ℕ) → write_space (read r n).1 ≡ write_space r + length (read r n).0
  pub advance-contents :
      (r : Ring) (n : ℕ) → n ≤ read_space r → contents (read_advance r n) ≡ drop n (contents r)
  pub advance-space :
      (r : Ring) (n : ℕ) → n ≤ read_space r → write_space (read_advance r n) ≡ write_space r + n
  pub vector-contents : (r : Ring) → (read_vector r).0 ++ (read_vector r).1 ≡ contents r
  -- reading on from a single segment never needs a second one
  pub advance-segment :
      (r : Ring) (n : ℕ)
      → n ≤ read_space r
      → (read_vector r).1 ≡ []
      → (read_vector (read_advance r n)).1 ≡ []
  -- the second segment is used only behind the first
  pub vector-first : (r : Ring) → length (read_vector r).0 ≡ 0 → (read_vector r).1 ≡ []

-- How the compiler lays out a trivially copyable type in memory.
pub record Layout (T : Type 0) : Type 0 where
  pub sizeof : ℕ
  pub encode : T → List ℕ
  pub decode : List ℕ → T
  pub sizeof_pos : 0 < sizeof
  pub length-encode : (t : T) → length (encode t) ≡ sizeof
  pub decode-encode : (t : T) → decode (encode t) ≡ t

pub record JackMidi : Type 1 where
  -- what `jack_port_get_buffer` returns for a MIDI port
  pub Port : Type 0
  -- the messages in the buffer, in their order
  pub messages : Port → List (List ℕ)
  -- what the buffer needs for a message beside its bytes
  pub overhead : ℕ
  -- `jack_midi_max_event_size`
  pub max_event_size : Port → ℕ
  pub clear_buffer : Port → Port
  pub event_count : Port → ℕ
  -- none: a result other than 0
  pub event_get : Port → ℕ → Option (List ℕ)
  pub event_write : Port → List ℕ → Option Port
  pub clear-messages : (p : Port) → messages (clear_buffer p) ≡ []
  pub clear-size : (p : Port) → max_event_size p ≤ max_event_size (clear_buffer p)
  pub count-messages : (p : Port) → event_count p ≡ length (messages p)
  pub get-messages : (p : Port) (i : ℕ) → event_get p i ≡ get_elem? (messages p) i
  pub write-fits :
      (p : Port) (bs : List ℕ)
      → length bs ≤ max_event_size p
      → (q : Port) × (event_write p bs ≡ some q)
        × (messages q ≡ messages p ++ (bs ∷ []))
        × max_event_size p ≤ max_event_size q + (length bs + overhead)
