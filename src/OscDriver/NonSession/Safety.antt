-- ===== src/OscDriver/NonSession/Safety.antt =====
-- What the passes of the state machine preserve.
use ni_traktor_kontrol_f.Base.{
  ℕ, zero, suc, ◌≤◌, ◌<◌, ◌≡◌, refl, ap, subst, ltb, ltb→lt, Bool, true, false, not, List, [], ◌∷◌,
  length, Option, some, none, Result, ok, err, ◌>>=◌, Bool-cases, inl, inr, arith, if◌then◌else◌,
}
use ni_traktor_kontrol_f.OscDriver.NonSession.{
  State, Handler, NonPeer, no_session, handshake_start, handshake_await_reply, session_await_open,
  hello_start, peer_await_signal_list, running, failed, pass_in, send_to, passes,
  step_state_machine, is_some, emplace, register, same_id,
}
use ni_traktor_kontrol_f.OscDriver.NonSession.Runs.{passes-step_state_machine}

true-false : {A : Type 0} → true ≡ false → A
true-false p = absurd (ground arith)

-- The condition, while the handler waits for a peer's signals.
abbrev pub Waiting : State → Type 0 → Type 0
Waiting peer_await_signal_list T = T
Waiting _ T = Unit

module _ (ClientId : Type 0) (before : ClientId → ClientId → Bool) (Signal : Type 0) where
  abbrev H : Type 0
  H = Handler ClientId before Signal

  abbrev pub Some : Option ClientId → Type 0
  Some o = is_some ClientId before Signal o ≡ true

  -- No more peers have been asked than are known, and one less while one is being asked.
  pub record IsCounted (h : H) : Type 0 where
    pub counted : h.handshaked_peers ≤ length h.peers
    pub asking : Waiting h.session_state (h.handshaked_peers < length h.peers)

  -- Also, the peer that is being asked is known.
  pub record IsLed (h : H) : Type 0 where
    pub is_counted : IsCounted h
    pub led : Waiting h.session_state (Some h.current_handshaking_peer)

  -- What a pass leaves: if no other one follows, a handler that waits has a peer.
  abbrev Left : Result (H × Bool) → Type 0
  Left (err e) = Unit
  Left (ok (g, again)) =
      IsCounted g × (again ≡ false → Waiting g.session_state (Some g.current_handshaking_peer))

  Left-if :
      (b : Bool) (x y : H × Bool)
      → (b ≡ true → Left (ok x))
      → (b ≡ false → Left (ok y))
      → Left (ok (if b then x else y))
  Left-if true x y l r = l refl
  Left-if false x y l r = r refl

  Left-send :
      (o : Option ClientId) (h : H)
      → h.current_handshaking_peer ≡ o
      → h.session_state ≡ peer_await_signal_list
      → IsCounted h
      → Left (send_to ClientId before Signal o h >>= λ g. ok (g, false))
  unfolding send_to
  Left-send none h d e c = tt
  Left-send (some i) h d e c = (record { counted = c.counted; asking = c.asking }, λ _. rw e (rw d))

  Left-pass :
      (s : State) (h : H)
      → h.session_state ≡ s
      → IsCounted h
      → Left (pass_in ClientId before Signal s h)
  unfolding pass_in
  Left-pass failed h e c = (c, λ _. rw e tt)
  Left-pass no_session h e c = (c, λ _. rw e tt)
  Left-pass handshake_start h e c = (record { counted = c.counted; asking = tt }, λ _. tt)
  Left-pass handshake_await_reply h e c =
      Left-if h.handshake_complete _ _ (λ _. (record { counted = c.counted; asking = tt }, λ _. tt))
        (λ _. (c, λ _. rw e tt))
  Left-pass session_await_open h e c =
      Left-if (not h.project_opened) _ _ (λ _. (c, λ _. rw e tt))
        (λ _. (record { counted = c.counted; asking = tt }, λ _. tt))
  Left-pass hello_start h e c = (record { counted = c.counted; asking = tt }, λ _. tt)
  Left-pass peer_await_signal_list h e c = Left-send h.current_handshaking_peer h refl e c
  Left-pass running h e c =
      Left-if (ltb h.handshaked_peers (length h.peers)) _ _
        (λ d. (
          record { counted = c.counted; asking = ltb→lt h.handshaked_peers (length h.peers) d },
          λ n. true-false n,
        ))
        (λ d. (c, λ _. rw e tt))

  Left-next :
      (n : ℕ) (r : Result (H × Bool))
      → Left r
      → ((g : H) → IsCounted g → Left (passes ClientId before Signal n g))
      → Left (
          r >>= λ p. elim p.1 [
            | true ↦ passes ClientId before Signal n p.0
            | false ↦ ok (p.0, false)
          ])
  Left-next n (ok (g, true)) l f = f g l.0
  Left-next n (ok (g, false)) l f = l
  Left-next n (err e) l f = tt

  Left-passes : (n : ℕ) (h : H) → IsCounted h → Left (passes ClientId before Signal n h)
  unfolding passes
  Left-passes zero h c = (c, λ n. true-false n)
  Left-passes (suc n) h c =
      Left-next n (pass_in ClientId before Signal h.session_state h)
        (Left-pass h.session_state h refl c) (Left-passes n)

  -- What every handler leaves, if it does not fail.
  abbrev pub LeftLed : Result H → Type 0
  LeftLed (err e) = Unit
  LeftLed (ok g) = IsLed g

  pub LeftLed-step : (h : H) → IsCounted h → LeftLed (step_state_machine ClientId before Signal h)
  LeftLed-step h c =
      go (step_state_machine ClientId before Signal h)
        (subst Left (passes-step_state_machine ClientId before Signal h 0) (Left-passes 6 h c))
    where
      go : (r : Result H) → Left (r >>= λ g. ok (g, false)) → LeftLed r
      go (ok g) l = record { is_counted = l.0; led = l.1 refl }
      go (err e) l = tt

  pub length-emplace :
      (i : ClientId) (ps : List (NonPeer ClientId before Signal))
      → length (emplace ClientId before Signal i ps) ≡ suc (length ps)
  length-emplace i [] = refl
  length-emplace i (p ∷ ps) = elim (Bool-cases (before i p.id)) [
    | inl e ↦ rw e
    | inr e ↦ rw e (ap suc (length-emplace i ps))
  ]

  pub length-register :
      (i : ClientId) (g : Signal) (ps : List (NonPeer ClientId before Signal))
      → length (register ClientId before Signal i g ps) ≡ length ps
  length-register i g [] = refl
  length-register i g (p ∷ ps) = elim (Bool-cases (same_id ClientId before Signal i p.id)) [
    | inl e ↦ rw e
    | inr e ↦ rw e (ap suc (length-register i g ps))
  ]
