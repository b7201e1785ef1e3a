-- ===== src/OscDriver/Messages/Exchange.antt =====
-- The exchange of signals between two session handlers.
use Prim.Native.String.{String}
use text.Mathlib.TextEquality.{eq_iff}
use ni_traktor_kontrol_f.Base.{
  sym, bind_congr, bind_assoc, suc, ◌≡◌, ◌≢◌, refl, ap, ◌∙◌, true, false, some, none, List, [], ◌∷◌,
  ◌++◌, map, length, Result, ok, ◌>>=◌, Returns, Bool-cases, inl, inr, arith,
}
use ni_traktor_kontrol_f.OscDriver.Signals.{NonSignal}
use ni_traktor_kontrol_f.OscDriver.NonSession.{
  register, peer_await_signal_list, running, handle_reply_end, handle_signal_list_reply,
}
use ni_traktor_kontrol_f.OscDriver.Messages.{
  ArgType, s_type, i_type, f_type, type_of, Message, OscServer, text_before, osc_signal_list,
  nsm_open, nsm_save, nsm_hello, Session, signal_message, finish_message, handle_signal_list,
  on_reply_end, on_reply_signal, on_signal_list, receive, receive_all, is_plain,
}
use ni_traktor_kontrol_f.OscDriver.Messages.Registered.{
  accepted_message, outgoing, register_signals, signals_of, signals_of-register_signals, added,
}

module _ (osc : OscServer) where
  -- A method with another number of arguments does not take a message.
  not_taken :
      (p q : String) (ts us : List ArgType) → length ts ≢ length us → osc.takes p ts q us ≡ false
  not_taken p q ts us ne = elim (Bool-cases (osc.takes p ts q us)) [
    | inl e ↦ absurd (ne (osc.takes-length p q ts us e))
    | inr e ↦ e
  ]

  other_path_not_taken :
      (p q : String) (ts us : List ArgType)
      → is_plain q ≡ true
      → p ≢ q
      → osc.takes p ts q us ≡ false
  other_path_not_taken p q ts us h ne = elim (Bool-cases (osc.takes p ts q us)) [
    | inl e ↦ absurd (ne (osc.takes-path p q ts us h e))
    | inr e ↦ e
  ]

module _ (F : Type 0) (osc : OscServer) (signals : List (NonSignal F))
    (connected : Result (Unit {0})) where
  -- What `handle_signal_list` sends for a signal is taken by no method.
  receive-signal_message :
      (s : NonSignal F) (h : Session F)
      → receive F osc signals connected (signal_message F s) h ≡ ok (h, none)
  unfolding receive
  receive-signal_message s h =
      let us = map type_of (signal_message F s).args in
      rw (
        not_taken osc "/reply" "/reply" (s_type ∷ []) us (omega arith),
        not_taken osc "/reply" "/reply" (s_type ∷ s_type ∷ s_type ∷ s_type ∷ []) us (omega arith),
        not_taken osc "/reply" "/reply" (s_type ∷ s_type ∷ f_type ∷ f_type ∷ f_type ∷ []) us
            (omega arith),
        not_taken osc "/error" "/reply" (s_type ∷ i_type ∷ s_type ∷ []) us (omega arith),
        not_taken osc nsm_open "/reply" (s_type ∷ s_type ∷ s_type ∷ []) us (omega arith),
        not_taken osc nsm_save "/reply" [] us (omega arith),
        not_taken osc osc_signal_list "/reply" [] us (omega arith),
        not_taken osc nsm_hello "/reply" (s_type ∷ s_type ∷ s_type ∷ s_type ∷ []) us (omega arith),
      )

  abbrev finished : Session F → Session F
  finished h = record h { session_state = running; handshaked_peers = suc h.handshaked_peers }

  receive-finish_message :
      (h : Session F) (i : String)
      → h.session_state ≡ peer_await_signal_list
      → h.current_handshaking_peer ≡ some i
      → receive F osc signals connected (finish_message F) h ≡ ok (finished h, none)
  unfolding receive on_reply_end handle_reply_end
  receive-finish_message h i e p = rw (osc.takes_self "/reply" (s_type ∷ [])) (rw (e, p))

  receive_all-append :
      (ms ns : List (Message F)) (h : Session F)
      → receive_all F osc signals connected (ms ++ ns) h
        ≡ (receive_all F osc signals connected ms h >>= receive_all F osc signals connected ns)
  unfolding receive_all
  receive_all-append [] ns h = refl
  receive_all-append (m ∷ ms) ns h =
      bind_congr (receive F osc signals connected m h) (λ x. receive_all-append ms ns x.0)
      ∙ sym (
          bind_assoc (receive F osc signals connected m h)
            (λ x. receive_all F osc signals connected ms x.0)
            (receive_all F osc signals connected ns))

  receive_all-signals :
      (gs : List (NonSignal F)) (h : Session F)
      → receive_all F osc signals connected (map (signal_message F) gs) h ≡ ok h
  unfolding receive_all
  receive_all-signals [] h = refl
  receive_all-signals (g ∷ gs) h = rw (receive-signal_message g h) (receive_all-signals gs h)

  receive_all-finish :
      (h : Session F) (i : String)
      → h.session_state ≡ peer_await_signal_list
      → h.current_handshaking_peer ≡ some i
      → receive_all F osc signals connected (finish_message F ∷ []) h ≡ ok (finished h)
  unfolding receive_all
  receive_all-finish h i e p = rw (receive-finish_message h i e p)

  -- A handler that awaits the signals of a peer of the same kind gets an answer to its request, whatever
  -- the other's state, and the answer ends the wait; but of the signals in it none is registered.
  pub exchange-silent :
      (theirs : List (NonSignal F)) (their_connected : Result (Unit {0})) (asked asking : Session F)
      (i : String)
      → asking.session_state ≡ peer_await_signal_list
      → asking.current_handshaking_peer ≡ some i
      → (receive F osc theirs their_connected (record { path = osc_signal_list; args = [] }) asked
          ≡ ok (asked, some (handle_signal_list F theirs)))
        × (receive_all F osc signals connected (handle_signal_list F theirs) asking
            ≡ ok (record asking {
              session_state = running;
              handshaked_peers = suc asking.handshaked_peers;
            }))
  unfolding receive handle_signal_list on_signal_list
  exchange-silent theirs their_connected asked asking i e p = (
    rw (
      not_taken osc "/reply" osc_signal_list (s_type ∷ []) [] (omega arith),
      not_taken osc "/reply" osc_signal_list (s_type ∷ s_type ∷ s_type ∷ s_type ∷ []) []
          (omega arith),
      not_taken osc "/reply" osc_signal_list (s_type ∷ s_type ∷ f_type ∷ f_type ∷ f_type ∷ []) []
          (omega arith),
      not_taken osc "/error" osc_signal_list (s_type ∷ i_type ∷ s_type ∷ []) [] (omega arith),
      not_taken osc nsm_open osc_signal_list (s_type ∷ s_type ∷ s_type ∷ []) [] (omega arith),
      other_path_not_taken osc nsm_save osc_signal_list [] [] refl
          (ground (arith, eq_iff nsm_save osc_signal_list)),
      osc.takes_self osc_signal_list [],
    ),
    receive_all-append (map (signal_message F) theirs) (finish_message F ∷ []) asking
        ∙ ap (λ r. r >>= receive_all F osc signals connected (finish_message F ∷ []))
            (receive_all-signals theirs asking)
        ∙ receive_all-finish asking i e p,
  )

  receive-accepted_message :
      (s : NonSignal F) (h : Session F) (i : String)
      → h.current_handshaking_peer ≡ some i
      → receive F osc signals connected (accepted_message F s) h
        ≡ ok (
          record h { peers = register String text_before (NonSignal F) i (outgoing F s) h.peers },
          none,
        )
  unfolding receive on_reply_signal handle_signal_list_reply
  receive-accepted_message s h i p =
      let us = map type_of (accepted_message F s).args in
      rw
        (
          not_taken osc "/reply" "/reply" (s_type ∷ []) us (omega arith),
          not_taken osc "/reply" "/reply" (s_type ∷ s_type ∷ s_type ∷ s_type ∷ []) us (omega arith),
          osc.takes_self "/reply" (s_type ∷ s_type ∷ f_type ∷ f_type ∷ f_type ∷ []),
        )
        (rw p)

  receive_all-accepted :
      (gs : List (NonSignal F)) (h : Session F) (i : String)
      → h.current_handshaking_peer ≡ some i
      → receive_all F osc signals connected (map (accepted_message F) gs) h
        ≡ ok (record h { peers = register_signals F i gs h.peers })
  unfolding receive_all
  receive_all-accepted [] h i p = refl
  receive_all-accepted (g ∷ gs) h i p = rw (receive-accepted_message g h i p) (
      receive_all-accepted gs
        (record h { peers = register String text_before (NonSignal F) i (outgoing F g) h.peers }) i
        p)

  -- An answer in the form that the handler takes ends the wait too, and all its signals are registered
  -- for the peer that is asked, in their order and as outgoing F ones.
  pub exchange-registers :
      (gs : List (NonSignal F)) (h : Session F) (i : String)
      → h.session_state ≡ peer_await_signal_list
      → h.current_handshaking_peer ≡ some i
      → Returns
          (λ (g : Session F).
            (g.session_state ≡ running)
            × (g.handshaked_peers ≡ suc h.handshaked_peers)
            × (signals_of F i g.peers ≡ added F gs (signals_of F i h.peers)))
          (receive_all F osc signals connected
            (map (accepted_message F) gs ++ (finish_message F ∷ []))
            h)
  exchange-registers gs h i e p = (
    record h {
      session_state = running;
      handshaked_peers = suc h.handshaked_peers;
      peers = register_signals F i gs h.peers;
    },
    receive_all-append (map (accepted_message F) gs) (finish_message F ∷ []) h
        ∙ ap (λ r. r >>= receive_all F osc signals connected (finish_message F ∷ []))
            (receive_all-accepted gs h i p)
        ∙ receive_all-finish (record h { peers = register_signals F i gs h.peers }) i e p,
    (refl, refl, signals_of-register_signals F i gs h.peers),
  )
