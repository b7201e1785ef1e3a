-- ===== src/Tests/Messages.antt =====
-- An OSC library that takes exact matches only, and messages between two session handlers.
use Prim.Native.String.{String}
use text.Mathlib.Text.{◌==◌ as ◌same◌}
use text.Mathlib.TextEquality.{eq_iff}
use text.Mathlib.TextPositions.{eq_refl}
use ni_traktor_kontrol_f.Base.{
  suc, ◌≡◌, refl, ap, Bool, true, false, ◌&&◌, some, List, [], ◌∷◌, ◌++◌, map, length, Result, ok,
  err, Returns,
}
use ni_traktor_kontrol_f.OscDriver.Signals.{
  NonSignal, Level, low, out_signal, default_signals, in_direction,
}
use ni_traktor_kontrol_f.OscDriver.NonSession.{
  handle_reply_announce, handle_open, handle_hello, same_id, running, peer_await_signal_list,
  initial_handler, start_session, handle_reply_end,
}
use ni_traktor_kontrol_f.OscDriver.NonSession.Reach.{Reachable, at_start, by_start}
use ni_traktor_kontrol_f.OscDriver.NonSession.Safety.{IsLed}
use ni_traktor_kontrol_f.OscDriver.Messages.{
  on_reply_announce, on_open, on_hello, on_reply_end, ArgType, s_type, i_type, f_type, str, flt,
  Message, OscServer, text_before, Session, osc_signal_list, nsm_announce, nsm_open, nsm_hello,
  handle_signal_list, finish_message, receive, receive_all,
}
use ni_traktor_kontrol_f.OscDriver.Messages.Exchange.{exchange-silent, exchange-registers}
use ni_traktor_kontrol_f.OscDriver.Messages.Registered.{accepted_message, signals_of}
use ni_traktor_kontrol_f.OscDriver.Messages.Reach.{receive_all-Reachable}

abbrev same_type : ArgType → ArgType → Bool
same_type s_type s_type = true
same_type i_type i_type = true
same_type f_type f_type = true
same_type _ _ = false

abbrev same_types : List ArgType → List ArgType → Bool
same_types [] [] = true
same_types (t ∷ ts) (u ∷ us) = same_type t u && same_types ts us
same_types _ _ = false

same_type_self : (t : ArgType) → same_type t t ≡ true
same_type_self s_type = refl
same_type_self i_type = refl
same_type_self f_type = refl

same_types_self : (ts : List ArgType) → same_types ts ts ≡ true
same_types_self [] = refl
same_types_self (t ∷ ts) = rw (same_type_self t, same_types_self ts)

and_right : (a b : Bool) → (a && b) ≡ true → b ≡ true
and_right true b e = e
and_right false b e = cc

and_left : (a b : Bool) → (a && b) ≡ true → a ≡ true
and_left true b e = refl
and_left false b e = cc

length-same_types : (ts us : List ArgType) → same_types ts us ≡ true → length ts ≡ length us
length-same_types [] [] e = refl
length-same_types [] (u ∷ us) e = cc
length-same_types (t ∷ ts) [] e = cc
length-same_types (t ∷ ts) (u ∷ us) e =
    ap suc (length-same_types ts us (and_right (same_type t u) (same_types ts us) e))

exact_self : (p : String) (ts : List ArgType) → ((p same p) && same_types ts ts) ≡ true
exact_self p ts = rw (eq_refl p, same_types_self ts)

abbrev exact : OscServer
exact = record {
  takes = λ p ts q us. (p same q) && same_types ts us;
  takes_self = exact_self;
  takes-length = λ p q ts us e. length-same_types ts us (and_right (p same q) (same_types ts us) e);
  takes-path = λ p q ts us h e. (eq_iff p q).0 (and_left (p same q) (same_types ts us) e);
}

abbrev fresh : Session Level
fresh = initial_handler String text_before (NonSignal Level)

-- A peer is asked for its signals.
abbrev asking : Session Level
asking = record fresh {
  session_state = peer_await_signal_list;
  handshake_complete = true;
  project_opened = true;
  peers = record { id = "synth"; signals = [] } ∷ [];
  current_handshaking_peer = some "synth";
}

abbrev two_signals : List (NonSignal Level)
two_signals = out_signal "/cutoff" ∷ record (out_signal "/gate") { direction = in_direction } ∷ []

exchange-silent_example :
    (receive Level exact two_signals (ok tt) (record { path = osc_signal_list; args = [] }) fresh
      ≡ ok (fresh, some (handle_signal_list Level two_signals)))
    × (receive_all Level exact default_signals (ok tt) (handle_signal_list Level two_signals) asking
        ≡ ok (record asking {
          session_state = running;
          handshaked_peers = suc asking.handshaked_peers;
        }))
exchange-silent_example =
    exchange-silent Level exact default_signals (ok tt) two_signals (ok tt) fresh asking "synth"
      refl refl

exchange-registers_example :
    Returns
      (λ (g : Session Level).
        (g.session_state ≡ running)
        × (g.handshaked_peers ≡ suc asking.handshaked_peers)
        × (signals_of Level "synth" g.peers
            ≡ some (out_signal "/cutoff" ∷ out_signal "/gate" ∷ [])))
      (receive_all Level exact default_signals
        (ok tt)
        (map (accepted_message Level) two_signals ++ (finish_message Level ∷ []))
        asking)
unfolding signals_of same_id
exchange-registers_example =
    exchange-registers Level exact default_signals (ok tt) two_signals asking "synth" refl refl

abbrev after : Result (Session Level) → Session Level
after (ok h) = h
after (err e) = fresh

abbrev started : Session Level
started = after (start_session String text_before (NonSignal Level) fresh)

-- The server answers and opens the session, and a peer says hello and has no signals.
abbrev messages : List (Message Level)
messages =
    record {
      path = "/reply";
      args = str nsm_announce ∷ str "hello" ∷ str "server" ∷ str ":broadcast:" ∷ [];
    }
    ∷ record { path = nsm_open; args = str "/project" ∷ str "f1" ∷ str "n1" ∷ [] }
    ∷ record {
      path = nsm_hello;
      args = str "osc.udp://peer" ∷ str "synth" ∷ str "1" ∷ str "n2" ∷ [];
    }
    ∷ finish_message Level
    ∷ record { path = "/unknown"; args = flt low ∷ [] }
    ∷ []

abbrev ended : Session Level
ended = after (receive_all Level exact default_signals (ok tt) messages started)

receive_all-Reachable_example :
    Reachable String text_before (NonSignal Level) ended
    × IsLed String text_before (NonSignal Level) ended
unfolding receive_all start_session initial_handler receive on_reply_announce handle_reply_announce
    on_open handle_open on_hello handle_hello on_reply_end handle_reply_end
receive_all-Reachable_example =
    receive_all-Reachable Level exact default_signals (ok tt) messages started
      (by_start fresh started at_start refl) refl

-- The exchange is over.
ended_running : ended.session_state ≡ running
unfolding receive_all start_session initial_handler receive on_reply_announce handle_reply_announce
    on_open handle_open on_hello handle_hello on_reply_end handle_reply_end
ended_running = refl
