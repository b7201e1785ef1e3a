-- ===== src/OscDriver/NonSession.antt =====
-- driver-osc/src/NonSessionHandler.{hpp,cpp}: the session's state machine. The OSC library is left
-- out but for the messages that are handed to it, which the state lists. One handler runs at a
-- time; the mutex of the code guards single passes.
pub mod Runs
pub mod Safety
pub mod Reach
use ni_traktor_kontrol_f.Base.{
  ℕ, zero, suc, ◌+◌, ltb, if◌then◌else◌, Bool, true, false, not, List, [], ◌∷◌, ◌++◌, length,
  Option, some, none, Result, ok, err, undefined, assert_failed, jack_client_exception, check,
  ◌>>=◌, ◌>>◌,
}

-- `NonSessionHandler::State`.
pub data State : Type 0 where
  no_session handshake_start handshake_await_reply session_await_open hello_start : State
  peer_await_signal_list running failed : State

-- What the first argument of a reply or an error is compared with.
pub data ReplyPath : Type 0 where
  announce_path signal_list_path other_path : ReplyPath

abbrev pub is_state : State → State → Bool
is_state handshake_await_reply handshake_await_reply = true
is_state peer_await_signal_list peer_await_signal_list = true
is_state _ _ = false

unfoldable pub session_is_ready : State → Bool
session_is_ready running = true
session_is_ready session_await_open = true
session_is_ready hello_start = true
session_is_ready _ = false

-- Client ids with their order in `std::map`, and the signals that peers announce.
module _ (ClientId : Type 0) (before : ClientId → ClientId → Bool) (Signal : Type 0) where
  -- The messages handed to the OSC library.
  pub data Sent : Type 0 where
    announce hello open_reply open_error save_reply : Sent
    fetch_signal_list : ClientId → Sent

  -- `NonPeer`: the signals registered for it.
  pub record NonPeer : Type 0 where
    pub id : ClientId
    pub signals : List Signal

  -- `current_handshaking_peer` is the id that the iterator points to, or `none` at the end. The
  -- iterators of a `std::map` stay valid when it grows.
  pub record Handler : Type 0 where
    pub session_state : State
    pub handshake_complete : Bool
    pub project_opened : Bool
    pub peers : List NonPeer
    pub handshaked_peers : ℕ
    pub current_handshaking_peer : Option ClientId
    pub sent : List Sent

  unfoldable pub initial_handler : Handler
  initial_handler = record {
    session_state = no_session;
    handshake_complete = false;
    project_opened = false;
    peers = [];
    handshaked_peers = 0;
    current_handshaking_peer = none;
    sent = [];
  }

  unfoldable pub send : Sent → Handler → Handler
  send m h = record h { sent = h.sent ++ (m ∷ []) }

  abbrev pub enter : State → Handler → Handler
  enter s h = record h { session_state = s }

  abbrev first_id : List NonPeer → Option ClientId
  first_id [] = none
  first_id (p ∷ ps) = some p.id

  -- `++it` in a map sorted by `before`: the first id behind.
  abbrev next_id : ClientId → List NonPeer → Option ClientId
  next_id i [] = none
  next_id i (p ∷ ps) = let rest = next_id i ps in if before i p.id then some p.id else rest

  abbrev advance : Option ClientId → List NonPeer → Option ClientId
  advance none ps = first_id ps
  advance (some i) ps = next_id i ps

  -- `send_signal_list`, which follows the iterator.
  unfoldable pub send_to : Option ClientId → Handler → Result Handler
  unfolding send
  send_to none h = err undefined
  send_to (some i) h = ok (send (fetch_signal_list i) h)

  abbrev send_signal_list : Handler → Result Handler
  send_signal_list h = send_to h.current_handshaking_peer h

  -- One pass of `step_state_machine`, and whether it runs again.
  unfoldable pub pass_in : State → Handler → Result (Handler × Bool)
  unfolding send send_to
  pass_in failed h = ok (h, false)
  pass_in no_session h = ok (h, false)
  pass_in handshake_start h = ok (send announce (enter handshake_await_reply h), true)
  pass_in handshake_await_reply h =
      ok (if h.handshake_complete then (enter session_await_open h, true) else (h, false))
  pass_in session_await_open h =
      ok (if not h.project_opened then (h, false) else (enter hello_start h, true))
  pass_in hello_start h = ok (enter running (send hello h), true)
  pass_in peer_await_signal_list h = do h ← send_signal_list h; ok (h, false)
  pass_in running h = ok (
      if ltb h.handshaked_peers (length h.peers)
      then (
        record h {
          current_handshaking_peer = advance h.current_handshaking_peer h.peers;
          session_state = peer_await_signal_list;
        },
        true,
      )
      else (h, false))

  -- At most `n` passes; the flag tells that another one is due.
  unfoldable pub passes : ℕ → Handler → Result (Handler × Bool)
  unfolding pass_in
  passes zero h = ok (h, true)
  passes (suc n) h =
      pass_in h.session_state h >>= λ p. elim p.1 [ true ↦ passes n p.0 | false ↦ ok (p.0, false) ]

  -- `step_state_machine`: six passes are enough.
  unfoldable pub step_state_machine : Handler → Result Handler
  unfolding passes
  step_state_machine h = do p ← passes 6 h; ok p.0

  unfoldable pub start_session : Handler → Result Handler
  unfolding step_state_machine
  start_session h =
      step_state_machine (enter (if h.handshake_complete then hello_start else handshake_start) h)

  abbrev pub is_some : Option ClientId → Bool
  is_some none = false
  is_some (some i) = true

  -- `handle_reply(path)`.
  unfoldable pub handle_reply_end : ReplyPath → Handler → Result Handler
  handle_reply_end signal_list_path h =
      if not (is_state h.session_state peer_await_signal_list) then ok h else do
        check (is_some h.current_handshaking_peer)
        ok (record h { session_state = running; handshaked_peers = suc h.handshaked_peers })
  handle_reply_end _ h = ok h

  -- `assert_server_announce_matches_required_capabilities`, given whether the capabilities name
  -- "broadcast".
  check_capabilities : Bool → Handler → Handler
  check_capabilities true h = h
  check_capabilities false h = enter failed h

  -- `handle_reply(path, arg1, arg2, arg3)`.
  unfoldable pub handle_reply_announce : ReplyPath → Bool → Handler → Result Handler
  unfolding check_capabilities step_state_machine
  handle_reply_announce announce_path has_broadcast h = step_state_machine (
      if is_state h.session_state handshake_await_reply
      then record (check_capabilities has_broadcast h) { handshake_complete = true }
      else enter failed h)
  handle_reply_announce _ has_broadcast h = ok h

  unfoldable pub handle_error : ReplyPath → Handler → Result Handler
  unfolding step_state_machine
  handle_error announce_path h =
      step_state_machine (record h { handshake_complete = false; session_state = failed })
  handle_error _ h = ok h

  -- `handle_open`, given what connecting to JACK ends in.
  unfoldable pub handle_open : Result (Unit {0}) → Handler → Result Handler
  unfolding send step_state_machine
  handle_open (ok _) h = step_state_machine (record (send open_reply h) { project_opened = true })
  handle_open (err jack_client_exception) h = ok (enter failed (send open_error h))
  handle_open (err e) h = err e

  unfoldable pub handle_save : Handler → Handler
  unfolding send
  handle_save h = send save_reply h

  unfoldable pub same_id : ClientId → ClientId → Bool
  same_id i j = elim (before i j) [ true ↦ false | false ↦ not (before j i) ]

  -- `handle_signal_list_reply`: the signal is registered for the current peer.
  abbrev pub register : ClientId → Signal → List NonPeer → List NonPeer
  register i g [] = []
  register i g (p ∷ ps) =
      let rest = register i g ps in
      if same_id i p.id then record p { signals = p.signals ++ (g ∷ []) } ∷ ps else p ∷ rest

  unfoldable pub handle_signal_list_reply : Signal → Handler → Result Handler
  unfolding same_id
  handle_signal_list_reply g h = elim h.current_handshaking_peer [
    | none ↦ err assert_failed
    | some i ↦ ok (record h { peers = register i g h.peers })
  ]

  unfoldable pub peer_is_known : ClientId → List NonPeer → Bool
  unfolding same_id
  peer_is_known i [] = false
  peer_is_known i (p ∷ ps) = let rest = peer_is_known i ps in if same_id i p.id then true else rest

  -- `peers.emplace`, at its place in the order.
  abbrev pub emplace : ClientId → List NonPeer → List NonPeer
  emplace i [] = record { id = i; signals = [] } ∷ []
  emplace i (p ∷ ps) =
      let rest = emplace i ps in
      if before i p.id then record { id = i; signals = [] } ∷ (p ∷ ps) else p ∷ rest

  -- The method for `NSM_HELLO`.
  unfoldable pub handle_hello : ClientId → Handler → Result Handler
  unfolding peer_is_known step_state_machine
  handle_hello i h =
      if peer_is_known i h.peers
      then err assert_failed
      else step_state_machine (record h { peers = emplace i h.peers })
