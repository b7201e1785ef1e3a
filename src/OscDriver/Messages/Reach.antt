-- ===== src/OscDriver/Messages/Reach.antt =====
-- Whatever messages come in, in whatever order, the session stays in the states that its handlers reach.
use Prim.Native.String.{String}
use ni_traktor_kontrol_f.Base.{
  ◌≡◌, refl, subst, if◌then◌else◌, Bool, true, false, List, [], ◌∷◌, Result, ok, err, ◌>>=◌, index,
  undefined, All, assert_failed, map, arith, ok-injective,
}
use text.Mathlib.Text.{◌==◌ as ◌same◌}
use ni_traktor_kontrol_f.OscDriver.Signals.{NonSignal, out_direction}
use ni_traktor_kontrol_f.OscDriver.NonSession.{
  handle_reply_end, handle_reply_announce, handle_error, handle_open, handle_signal_list_reply,
  handle_hello,
}
use ni_traktor_kontrol_f.OscDriver.NonSession.Reach.{
  Reachable, by_reply_end, by_reply_announce, by_error, by_open, by_save, by_signal, by_hello,
  Reachable-IsLed,
}
use ni_traktor_kontrol_f.OscDriver.NonSession.Safety.{IsLed}
use ni_traktor_kontrol_f.OscDriver.Messages.{
  Arg, type_of, Message, OscServer, text_before, osc_signal_list, Session, Outcome, text_at,
  float_at, quietly, read_int, reply_path, contains, on_reply_end, on_reply_announce,
  on_reply_signal, on_error, on_open, on_save, on_signal_list, on_hello, Method, methods, dispatch,
  receive, receive_all,
}

module _ (F : Type 0) where
  abbrev Reached : Session F → Type 0
  Reached = Reachable String text_before (NonSignal F)

  -- What a method leaves, if it ends without an exception.
  Stays : Outcome F → Type 0
  Stays (ok r) = Reached r.0
  Stays (err e) = Unit

  Stays-bind :
      {A : Type 0} (r : Result A) (f : A → Outcome F) → ((a : A) → Stays (f a)) → Stays (r >>= f)
  unfolding Stays
  Stays-bind (ok a) f s = s a
  Stays-bind (err e) f s = tt

  Stays-quietly :
      (r : Result (Session F)) → ((g : Session F) → r ≡ ok g → Reached g) → Stays (quietly F r)
  unfolding Stays
  Stays-quietly (ok g) s = s g refl
  Stays-quietly (err e) s = tt

  Stays-if : (b : Bool) (x y : Outcome F) → Stays x → Stays y → Stays (if b then x else y)
  Stays-if true x y s t = s
  Stays-if false x y s t = t

  abbrev Keeps : Method F → Type 0
  Keeps k = (args : List (Arg F)) (h : Session F) → Reached h → Stays (k.handler args h)

  keeps_reply_end :
      (args : List (Arg F)) (h : Session F) → Reached h → Stays (on_reply_end F args h)
  unfolding on_reply_end
  keeps_reply_end args h r = Stays-bind (text_at F args 0) _ λ path.
      Stays-quietly (handle_reply_end String text_before (NonSignal F) (reply_path path) h)
        (λ g e. by_reply_end (reply_path path) h g r e)

  keeps_reply_announce :
      (args : List (Arg F)) (h : Session F) → Reached h → Stays (on_reply_announce F args h)
  unfolding on_reply_announce
  keeps_reply_announce args h r = Stays-bind (text_at F args 0) _ λ path.
      Stays-bind (text_at F args 1) _ λ arg1. Stays-bind (text_at F args 2) _ λ arg2.
        Stays-bind (text_at F args 3) _ λ arg3.
          Stays-quietly
            (handle_reply_announce String text_before (NonSignal F) (reply_path path)
              (contains arg3 "broadcast") h)
            (λ g e. by_reply_announce (reply_path path) (contains arg3 "broadcast") h g r e)

  keeps_reply_signal :
      (args : List (Arg F)) (h : Session F) → Reached h → Stays (on_reply_signal F args h)
  unfolding on_reply_signal Stays
  keeps_reply_signal args h r = Stays-bind (text_at F args 0) _ λ path.
      Stays-bind (text_at F args 1) _ λ arg1. Stays-bind (float_at F args 2) _ λ arg2.
        Stays-bind (float_at F args 3) _ λ arg3. Stays-bind (float_at F args 4) _ λ arg4.
          let s : NonSignal F = record {
            path = arg1;
            min = arg2;
            max = arg3;
            default_value = arg4;
            direction = out_direction;
          } in
          Stays-if (path same osc_signal_list)
            (quietly F (handle_signal_list_reply String text_before (NonSignal F) s h))
            (err assert_failed)
            (Stays-quietly (handle_signal_list_reply String text_before (NonSignal F) s h)
              (λ g e. by_signal s h g r e))
            tt

  keeps_error : (args : List (Arg F)) (h : Session F) → Reached h → Stays (on_error F args h)
  unfolding on_error
  keeps_error args h r = Stays-bind (text_at F args 0) _ λ path.
      Stays-bind (index undefined args 1 >>= read_int F) _ λ code.
        Stays-bind (text_at F args 2) _ λ message.
          Stays-quietly (handle_error String text_before (NonSignal F) (reply_path path) h)
            (λ g e. by_error (reply_path path) h g r e)

  keeps_open :
      (connected : Result (Unit {0})) (args : List (Arg F)) (h : Session F)
      → Reached h
      → Stays (on_open F connected args h)
  unfolding on_open
  keeps_open connected args h r = Stays-bind (text_at F args 0) _ λ path.
      Stays-bind (text_at F args 1) _ λ name. Stays-bind (text_at F args 2) _ λ id.
        Stays-quietly (handle_open String text_before (NonSignal F) connected h)
          (λ g e. by_open connected h g r e)

  keeps_hello : (args : List (Arg F)) (h : Session F) → Reached h → Stays (on_hello F args h)
  unfolding on_hello
  keeps_hello args h r = Stays-bind (text_at F args 0) _ λ url.
      Stays-bind (text_at F args 1) _ λ name. Stays-bind (text_at F args 2) _ λ version.
        Stays-bind (text_at F args 3) _ λ id.
          Stays-quietly (handle_hello String text_before (NonSignal F) id h)
            (λ g e. by_hello id h g r e)

  methods-Keeps :
      (signals : List (NonSignal F)) (connected : Result (Unit {0}))
      → All Keeps (methods F signals connected)
  unfolding methods on_save on_signal_list Stays
  methods-Keeps signals connected = (
    keeps_reply_end,
    (
      keeps_reply_announce,
      (
        keeps_reply_signal,
        (
          keeps_error,
          (keeps_open connected, (λ args h r. by_save h r, (λ args h r. r, (keeps_hello, tt)))),
        ),
      ),
    ),
  )

  module _ (osc : OscServer) where
    dispatch-Stays :
        (ks : List (Method F)) (m : Message F) (h : Session F)
        → All Keeps ks
        → Reached h
        → Stays (dispatch F osc ks m h)
    unfolding dispatch Stays
    dispatch-Stays [] m h a r = r
    dispatch-Stays (k ∷ ks) m h a r =
        Stays-if (osc.takes k.path k.arg_types m.path (map type_of m.args)) (k.handler m.args h)
          (dispatch F osc ks m h) (a.0 m.args h r) (dispatch-Stays ks m h a.1 r)

    receive-Stays :
        (signals : List (NonSignal F)) (connected : Result (Unit {0})) (m : Message F)
        (h : Session F)
        → Reached h
        → Stays (receive F osc signals connected m h)
    unfolding receive
    receive-Stays signals connected m h r =
        dispatch-Stays (methods F signals connected) m h (methods-Keeps signals connected) r

    -- Whatever messages come in, known or not, in whatever order: if none of them ends in a failed
    -- assertion or in undefined behaviour, the session is in a state that its handlers can reach, so
    -- no more peers have been asked for their signals than are known, and while one is being asked, one
    -- more is known and the iterator points to a peer.
    pub receive_all-Reachable :
        (signals : List (NonSignal F)) (connected : Result (Unit {0})) (ms : List (Message F))
        (h : Session F) {g : Session F}
        → Reachable String text_before (NonSignal F) h
        → receive_all F osc signals connected ms h ≡ ok g
        → Reachable String text_before (NonSignal F) g × IsLed String text_before (NonSignal F) g
    unfolding receive_all
    receive_all-Reachable signals connected [] h {g} r e =
        let s = subst Reached (ok-injective e) r in
        (s, Reachable-IsLed String text_before (NonSignal F) g s)
    receive_all-Reachable signals connected (m ∷ ms) h r e =
        go (receive F osc signals connected m h) (receive-Stays signals connected m h r)
          (λ k r' e'. receive_all-Reachable signals connected ms k r' e') e
      where
        go :
            {g : Session F} (x : Outcome F)
            → Stays x
            → ((k : Session F)
                → Reached k
                → receive_all F osc signals connected ms k ≡ ok g
                → Reached g × IsLed String text_before (NonSignal F) g)
            → (x >>= λ y. receive_all F osc signals connected ms y.0) ≡ ok g
            → Reached g × IsLed String text_before (NonSignal F) g
        go (ok y) s ih e = unfold Stays in ih y.0 s e
        go (err x) s ih e = absurd (ground (arith, e))
