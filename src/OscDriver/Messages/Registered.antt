-- ===== src/OscDriver/Messages/Registered.antt =====
-- The signals that are registered for a peer (`handle_signal_list_reply`).
use Prim.Native.String.{String}
use mathlib.Core.List.{append_assoc, append-nil}
use ni_traktor_kontrol_f.Base.{
  ◌≡◌, refl, ap, sym, ◌∙◌, if◌then◌else◌, Option, some, none, List, [], ◌∷◌, ◌++◌, map, Bool-cases,
  inl, inr,
}
use ni_traktor_kontrol_f.OscDriver.Signals.{NonSignal, out_direction}
use ni_traktor_kontrol_f.OscDriver.NonSession.{NonPeer, same_id, register}
use ni_traktor_kontrol_f.OscDriver.Messages.{str, flt, Message, text_before, osc_signal_list}

module _ (F : Type 0) where
  -- An answer in the form that the handler takes: without the direction.
  abbrev pub accepted_message : NonSignal F → Message F
  accepted_message s = record {
    path = "/reply";
    args = str osc_signal_list ∷ str s.path ∷ flt s.min ∷ flt s.max ∷ flt s.default_value ∷ [];
  }

  abbrev pub outgoing : NonSignal F → NonSignal F
  outgoing s = record s { direction = out_direction }

  abbrev pub Peer : Type 0
  Peer = NonPeer String text_before (NonSignal F)

  -- The signals that are registered for a client id, if it is known.
  unfoldable pub signals_of : String → List Peer → Option (List (NonSignal F))
  signals_of i [] = none
  signals_of i (p ∷ ps) =
      let rest = signals_of i ps in
      if same_id String text_before (NonSignal F) i p.id then some p.signals else rest

  abbrev pub register_signals : String → List (NonSignal F) → List Peer → List Peer
  register_signals i [] ps = ps
  register_signals i (g ∷ gs) ps =
      register_signals i gs (register String text_before (NonSignal F) i (outgoing g) ps)

  -- The signals that are registered then, if any were before.
  abbrev pub added : List (NonSignal F) → Option (List (NonSignal F)) → Option (List (NonSignal F))
  added gs none = none
  added gs (some old) = some (old ++ map outgoing gs)

  added-added :
      (g : NonSignal F) (gs : List (NonSignal F)) (o : Option (List (NonSignal F)))
      → added gs (added (g ∷ []) o) ≡ added (g ∷ gs) o
  added-added g gs none = refl
  added-added g gs (some old) = ap some (append_assoc old (outgoing g ∷ []) (map outgoing gs))

  signals_of-register :
      (i : String) (g : NonSignal F) (ps : List Peer)
      → signals_of i (register String text_before (NonSignal F) i (outgoing g) ps)
        ≡ added (g ∷ []) (signals_of i ps)
  unfolding signals_of
  signals_of-register i g [] = refl
  signals_of-register i g (p ∷ ps) =
      elim (Bool-cases (same_id String text_before (NonSignal F) i p.id)) [
        | inl e ↦ rw e (rw e)
        | inr e ↦ rw e (rw e (signals_of-register i g ps))
      ]

  pub signals_of-register_signals :
      (i : String) (gs : List (NonSignal F)) (ps : List Peer)
      → signals_of i (register_signals i gs ps) ≡ added gs (signals_of i ps)
  signals_of-register_signals i [] ps = go (signals_of i ps)
    where
      go : (o : Option (List (NonSignal F))) → o ≡ added [] o
      go none = refl
      go (some old) = ap some (sym (append-nil old))
  signals_of-register_signals i (g ∷ gs) ps =
      signals_of-register_signals i gs (register String text_before (NonSignal F) i (outgoing g) ps)
      ∙ ap (added gs) (signals_of-register i g ps)
      ∙ added-added g gs (signals_of i ps)
