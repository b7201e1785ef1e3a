-- ===== src/OscDriver/NonSession/Reach.antt =====
-- What holds in every state that the session's handlers can reach.
use ni_traktor_kontrol_f.Base.{
  suc, ◌<◌, ◌≡◌, refl, sym, subst, assert_failed, Bool, true, false, length, Option, some, none,
  Result, ok, err, jack_client_exception, Returns, Bool-cases, inl, inr, arith, if◌then◌else◌,
}
use ni_traktor_kontrol_f.OscDriver.NonSession.{
  State, ReplyPath, Handler, handshake_start, handshake_await_reply, hello_start,
  peer_await_signal_list, running, failed, announce_path, signal_list_path, other_path,
  initial_handler, step_state_machine, start_session, handle_reply_end, handle_reply_announce,
  check_capabilities, handle_error, handle_open, handle_save, handle_signal_list_reply,
  handle_hello, is_state, register, peer_is_known, enter, send,
}
use ni_traktor_kontrol_f.OscDriver.NonSession.Safety.{
  Waiting, Some, IsLed, LeftLed, LeftLed-step, length-emplace, length-register,
}

Waiting-elim : (s : State) (T : Type 0) → is_state s peer_await_signal_list ≡ true → Waiting s T → T
Waiting-elim peer_await_signal_list T e w = w
Waiting-elim _ T e w = absurd (ground arith)

Waiting-map : (s : State) (S T : Type 0) → (S → T) → Waiting s S → Waiting s T
Waiting-map peer_await_signal_list S T f w = f w
Waiting-map _ S T f w = tt

module _ (ClientId : Type 0) (before : ClientId → ClientId → Bool) (Signal : Type 0) where
  abbrev H : Type 0
  H = Handler ClientId before Signal

  abbrev Led : H → Type 0
  Led = IsLed ClientId before Signal

  abbrev Good : Result H → Type 0
  Good = LeftLed ClientId before Signal

  Good-start : (h : H) → Led h → Good (start_session ClientId before Signal h)
  unfolding start_session
  Good-start h l =
      LeftLed-step ClientId before Signal _
        (record { counted = l.is_counted.counted; asking = go h.handshake_complete })
    where
      go :
          (b : Bool)
          → Waiting
              (if b then hello_start else handshake_start)
              (h.handshaked_peers < length h.peers)
      go true = tt
      go false = tt

  -- The end of a peer's signals is handled without a failed assertion.
  Returns-reply_end :
      (p : ReplyPath) (h : H) → Led h → Returns Led (handle_reply_end ClientId before Signal p h)
  unfolding handle_reply_end
  Returns-reply_end announce_path h l = (h, refl, l)
  Returns-reply_end other_path h l = (h, refl, l)
  Returns-reply_end signal_list_path h l =
      elim (Bool-cases (is_state h.session_state peer_await_signal_list)) [
        | inr e ↦ (h, rw e, l)
        | inl e ↦ (
          record h { session_state = running; handshaked_peers = suc h.handshaked_peers },
          rw (
            e,
            Waiting-elim h.session_state (Some ClientId before Signal h.current_handshaking_peer) e
                l.led,
          ),
          record {
            is_counted = record {
              counted = omega (
                arith,
                Waiting-elim h.session_state (h.handshaked_peers < length h.peers) e
                    l.is_counted.asking,
              );
              asking = tt;
            };
            led = tt;
          },
        )
      ]

  Good-announce :
      (p : ReplyPath) (b : Bool) (h : H)
      → Led h
      → Good (handle_reply_announce ClientId before Signal p b h)
  unfolding handle_reply_announce check_capabilities
  Good-announce signal_list_path b h l = l
  Good-announce other_path b h l = l
  Good-announce announce_path b h l = go (is_state h.session_state handshake_await_reply) b
    where
      go :
          (s b : Bool)
          → Good (
              step_state_machine ClientId before Signal (
                if s
                then record (check_capabilities ClientId before Signal b h) {
                  handshake_complete = true;
                }
                else enter ClientId before Signal failed h))
      go true true =
          LeftLed-step ClientId before Signal (record h { handshake_complete = true })
            (record { counted = l.is_counted.counted; asking = l.is_counted.asking })
      go true false =
          LeftLed-step ClientId before Signal
            (record h { session_state = failed; handshake_complete = true })
            (record { counted = l.is_counted.counted; asking = tt })
      go false _ =
          LeftLed-step ClientId before Signal (record h { session_state = failed })
            (record { counted = l.is_counted.counted; asking = tt })

  Good-error : (p : ReplyPath) (h : H) → Led h → Good (handle_error ClientId before Signal p h)
  unfolding handle_error
  Good-error signal_list_path h l = l
  Good-error other_path h l = l
  Good-error announce_path h l =
      LeftLed-step ClientId before Signal
        (record h { handshake_complete = false; session_state = failed })
        (record { counted = l.is_counted.counted; asking = tt })

  Good-open :
      (r : Result (Unit {0})) (h : H) → Led h → Good (handle_open ClientId before Signal r h)
  unfolding handle_open send
  Good-open (ok _) h l =
      LeftLed-step ClientId before Signal _
        (record { counted = l.is_counted.counted; asking = l.is_counted.asking })
  Good-open (err jack_client_exception) h l = record {
    is_counted = record { counted = l.is_counted.counted; asking = tt };
    led = tt;
  }
  Good-open (err _) h l = tt

  Led-save : (h : H) → Led h → Led (handle_save ClientId before Signal h)
  unfolding handle_save send
  Led-save h l = record {
    is_counted = record { counted = l.is_counted.counted; asking = l.is_counted.asking };
    led = l.led;
  }

  Good-hello : (i : ClientId) (h : H) → Led h → Good (handle_hello ClientId before Signal i h)
  unfolding handle_hello
  Good-hello i h l = elim (Bool-cases (peer_is_known ClientId before Signal i h.peers)) [
    | inl e ↦ rw e tt
    | inr e ↦ rw e (
        LeftLed-step ClientId before Signal _ (record {
          counted =
              omega (arith, length-emplace ClientId before Signal i h.peers, l.is_counted.counted);
          asking =
              Waiting-map h.session_state (h.handshaked_peers < length h.peers) _
                (λ w. omega (arith, length-emplace ClientId before Signal i h.peers, w))
                l.is_counted.asking;
        }))
  ]

  Good-signal :
      (g : Signal) (h : H) → Led h → Good (handle_signal_list_reply ClientId before Signal g h)
  unfolding handle_signal_list_reply
  Good-signal g h l = go h.current_handshaking_peer refl
    where
      go :
          (o : Option ClientId)
          → h.current_handshaking_peer ≡ o
          → Good (elim o [
            | none ↦ err assert_failed
            | some i ↦ ok (record h { peers = register ClientId before Signal i g h.peers })
          ])
      go none e = tt
      go (some i) e =
          let n = length-register ClientId before Signal i g h.peers in
          record {
            is_counted = record {
              counted = omega (arith, n, l.is_counted.counted);
              asking =
                  Waiting-map h.session_state (h.handshaked_peers < length h.peers) _
                    (λ w. omega (arith, n, w)) l.is_counted.asking;
            };
            led = l.led;
          }

  -- What the driver and the messages that come in make of the initial state.
  pub data Reachable : H → Type 0 where
    at_start : Reachable (initial_handler ClientId before Signal)
    by_start : (h g : H) → Reachable h → start_session ClientId before Signal h ≡ ok g → Reachable g
    by_reply_end :
        (p : ReplyPath) (h g : H)
        → Reachable h
        → handle_reply_end ClientId before Signal p h ≡ ok g
        → Reachable g
    by_reply_announce :
        (p : ReplyPath) (b : Bool) (h g : H)
        → Reachable h
        → handle_reply_announce ClientId before Signal p b h ≡ ok g
        → Reachable g
    by_error :
        (p : ReplyPath) (h g : H)
        → Reachable h
        → handle_error ClientId before Signal p h ≡ ok g
        → Reachable g
    by_open :
        (r : Result (Unit {0})) (h g : H)
        → Reachable h
        → handle_open ClientId before Signal r h ≡ ok g
        → Reachable g
    by_save : (h : H) → Reachable h → Reachable (handle_save ClientId before Signal h)
    by_signal :
        (s : Signal) (h g : H)
        → Reachable h
        → handle_signal_list_reply ClientId before Signal s h ≡ ok g
        → Reachable g
    by_hello :
        (i : ClientId) (h g : H)
        → Reachable h
        → handle_hello ClientId before Signal i h ≡ ok g
        → Reachable g

  left : {r : Result H} (g : H) → r ≡ ok g → Good r → Led g
  left g e l = subst Good e l

  -- In every state that can be reached, no more peers have been asked for their signals than are
  -- known; while one is being asked, one more is known than has been asked, and the iterator points
  -- to a peer.
  pub Reachable-IsLed : (h : H) → Reachable h → Led h
  Reachable-IsLed h at_start =
      unfold initial_handler in
      record { is_counted = record { counted = omega arith; asking = tt }; led = tt }
  Reachable-IsLed _ (by_start h g r e) = left g e (Good-start h (Reachable-IsLed h r))
  Reachable-IsLed _ (by_reply_end p h g r e) =
      let (k, f, l) = Returns-reply_end p h (Reachable-IsLed h r) in left g e (subst Good (sym f) l)
  Reachable-IsLed _ (by_reply_announce p b h g r e) =
      left g e (Good-announce p b h (Reachable-IsLed h r))
  Reachable-IsLed _ (by_error p h g r e) = left g e (Good-error p h (Reachable-IsLed h r))
  Reachable-IsLed _ (by_open x h g r e) = left g e (Good-open x h (Reachable-IsLed h r))
  Reachable-IsLed _ (by_save h r) = Led-save h (Reachable-IsLed h r)
  Reachable-IsLed _ (by_signal s h g r e) = left g e (Good-signal s h (Reachable-IsLed h r))
  Reachable-IsLed _ (by_hello i h g r e) = left g e (Good-hello i h (Reachable-IsLed h r))

  -- In every state that can be reached, the end of a peer's signals is handled without a failed
  -- assertion, whether it is awaited or not.
  pub handle_reply_end-Reachable :
      (p : ReplyPath) (h : H)
      → Reachable h
      → Returns Reachable (handle_reply_end ClientId before Signal p h)
  handle_reply_end-Reachable p h r =
      let (g, e, _) = Returns-reply_end p h (Reachable-IsLed h r) in (g, e, by_reply_end p h g r e)
