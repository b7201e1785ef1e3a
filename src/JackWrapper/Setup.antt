-- ===== src/JackWrapper/Setup.antt =====
-- The constructor of `JackWrapper::Impl` (JackWrapper.cpp).
use ni_traktor_kontrol_f.Base.{
  ℕ, ◌==◌, true, false, ◌&&◌, ◌≡◌, refl, Bool, Bool-cases, [], Result, ok, err,
  jack_wrapper_exception, bad_alloc, inl, inr, ◌⊎◌, none, some, ◌>>=◌,
}
use ni_traktor_kontrol_f.Jack.{JackRing, Layout}
use ni_traktor_kontrol_f.MidiEvent.Types.{MidiEvent}
use ni_traktor_kontrol_f.Ringbuffer.{byte_count}
use ni_traktor_kontrol_f.Ringbuffer.Holds.{Holds}
use ni_traktor_kontrol_f.Ringbuffer.Copy.{HasRoom, construct-Holds}
use ni_traktor_kontrol_f.JackWrapper.{
  Server, Wrapper, require, init_jack, construct_wrapper, byte_layout, in_buf_size, out_buf_size,
}

-- Every call of the constructor succeeded.
abbrev pub all_succeed : Server → Bool
all_succeed s =
    s.client_open
    && (s.register_in
        && (s.register_out && (s.set_process_callback == 0 && s.set_xrun_callback == 0)))

module _ (j : JackRing) (layout : Layout MidiEvent) where
  -- A new wrapper: not active, both callbacks set, both rings empty.
  pub record IsFresh (in_places out_places : ℕ) (w : Wrapper j layout) : Type 0 where
    pub inactive : w.active ≡ false
    pub writes : w.write_cb ≡ true
    pub reads : w.read_cb ≡ true
    pub input : Holds j byte_layout in_places w.in_buf []
    pub output : Holds j layout out_places w.out_buf []

  -- JACK has memory for both rings.
  pub record AreAllocated : Type 0 where
    pub input : (r : j.Ring) × (j.create (byte_count 1 in_buf_size) ≡ some r)
    pub output : (r : j.Ring) × (j.create (byte_count layout.sizeof out_buf_size) ≡ some r)

  -- What the constructor may end in.
  pub data Constructed (in_places out_places : ℕ) (s : Server)
      : Result (Wrapper j layout) → Type 0 where
    no_memory :
        (j.create (byte_count 1 in_buf_size) ≡ none)
          ⊎ (j.create (byte_count layout.sizeof out_buf_size) ≡ none)
        → Constructed in_places out_places s (err bad_alloc)
    refused :
        AreAllocated
        → all_succeed s ≡ false
        → Constructed in_places out_places s (err jack_wrapper_exception)
    connected :
        (w : Wrapper j layout)
        → AreAllocated
        → all_succeed s ≡ true
        → IsFresh in_places out_places w
        → Constructed in_places out_places s (ok w)

  require_and : (a b : Bool) → (require a >>= λ done. require b) ≡ require (a && b)
  require_and true b = refl
  require_and false b = refl

  init_jack-all_succeed : (s : Server) → init_jack j layout s ≡ require (all_succeed s)
  unfolding init_jack
  init_jack-all_succeed s = simp require_and refl

  -- The constructor ends with a wrapper that is not active, has both callbacks and empty rings, if
  -- and only if all calls of JACK succeed and the rings can be allocated; if a ring cannot be
  -- allocated it throws std::bad_alloc, and otherwise JackWrapperException.
  pub construct_wrapper-Constructed :
      (in_places out_places : ℕ) (s : Server)
      → HasRoom j byte_layout in_places in_buf_size
      → HasRoom j layout out_places out_buf_size
      → Constructed in_places out_places s (construct_wrapper j layout s)
  unfolding construct_wrapper
  construct_wrapper-Constructed in_places out_places s in_room out_room =
      elim (construct-Holds j byte_layout in_places in_buf_size in_room) [
        | inl (none_left, e) ↦ rw e (no_memory (inl none_left))
        | inr (a, e, (input, made)) ↦
            elim (construct-Holds j layout out_places out_buf_size out_room) [
              | inl (none_left, f) ↦ rw (e, f) (no_memory (inr none_left))
              | inr (b, f, (output, made_too)) ↦ elim (Bool-cases (all_succeed s)) [
                | inl t ↦
                    rw (e, f, init_jack-all_succeed s, t)
                      (connected _ (record { input = made; output = made_too }) t
                        (record {
                          inactive = refl;
                          writes = refl;
                          reads = refl;
                          input = input;
                          output = output;
                        }))
                | inr t ↦
                    rw (e, f, init_jack-all_succeed s, t)
                      (refused (record { input = made; output = made_too }) t)
              ]
            ]
      ]
