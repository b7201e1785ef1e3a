-- ===== src/OscDriver/NonSession/Runs.antt =====
-- The state machine comes to rest.
use ni_traktor_kontrol_f.Base.{
  ℕ, suc, ◌+◌, ◌≡◌, refl, ◌∙◌, ap, sym, ltb, Bool, true, false, length, Result, ok, err, ◌>>=◌,
  Bool-cases, Option-cases, inl, inr, arith,
}
use ni_traktor_kontrol_f.OscDriver.NonSession.{
  State, Handler, no_session, handshake_start, handshake_await_reply, session_await_open,
  hello_start, peer_await_signal_list, running, failed, pass_in, passes, step_state_machine,
}

module _ (ClientId : Type 0) (before : ClientId → ClientId → Bool) (Signal : Type 0) where
  abbrev H : Type 0
  H = Handler ClientId before Signal

  abbrev pub run : ℕ → H → Result (H × Bool)
  run = passes ClientId before Signal

  -- With `j` passes or more, the machine comes to rest or fails, in the same way.
  Settles : ℕ → H → Type 0
  Settles j h = (r : Result H) × ((n : ℕ) → run (n + j) h ≡ (r >>= λ g. ok (g, false)))

  run-suc : (n j : ℕ) (h : H) → run (n + suc j) h ≡ run (suc (n + j)) h
  run-suc n j h = ap (λ k. run k h) (omega arith)

  -- If a pass asks for another one, the machine has to settle behind it.
  abbrev Next : ℕ → Result (H × Bool) → Type 0
  Next j (ok (g, true)) = Settles j g
  Next j (ok (g, false)) = Unit
  Next j (err e) = Unit

  settle :
      (j : ℕ) (h : H) (r : Result (H × Bool))
      → pass_in ClientId before Signal h.session_state h ≡ r
      → Next j r
      → Settles (suc j) h
  unfolding passes Settles
  settle j h (ok (g, true)) e (r, s) = (r, λ n. run-suc n j h ∙ rw e (s n))
  settle j h (ok (g, false)) e next = (ok g, λ n. run-suc n j h ∙ rw e)
  settle j h (err x) e next = (err x, λ n. run-suc n j h ∙ rw e)

  settle_in :
      (j : ℕ) (h : H) (s : State)
      → h.session_state ≡ s
      → Next j (pass_in ClientId before Signal s h)
      → Settles (suc j) h
  settle_in j h s e next =
      settle j h (pass_in ClientId before Signal s h)
        (ap (λ u. pass_in ClientId before Signal u h) e) next

  Settles-await : (j : ℕ) (h : H) → h.session_state ≡ peer_await_signal_list → Settles (suc j) h
  unfolding pass_in
  Settles-await j h s =
      settle_in j h peer_await_signal_list s
        (elim (Option-cases h.current_handshaking_peer) [ inl e ↦ rw e tt | inr (i, e) ↦ rw e tt ])

  Settles-running : (j : ℕ) (h : H) → h.session_state ≡ running → Settles (suc (suc j)) h
  unfolding pass_in
  Settles-running j h s =
      settle_in (suc j) h running s (elim (Bool-cases (ltb h.handshaked_peers (length h.peers))) [
        | inl e ↦ rw e (Settles-await j _ refl)
        | inr e ↦ rw e tt
      ])

  Settles-hello : (j : ℕ) (h : H) → h.session_state ≡ hello_start → Settles (suc (suc (suc j))) h
  unfolding pass_in
  Settles-hello j h s = settle_in (suc (suc j)) h hello_start s (Settles-running j _ refl)

  Settles-open :
      (j : ℕ) (h : H) → h.session_state ≡ session_await_open → Settles (suc (suc (suc (suc j)))) h
  unfolding pass_in
  Settles-open j h s =
      settle_in (suc (suc (suc j))) h session_await_open s (elim (Bool-cases h.project_opened) [
        | inl e ↦ rw e (Settles-hello j _ refl)
        | inr e ↦ rw e tt
      ])

  Settles-reply :
      (j : ℕ) (h : H)
      → h.session_state ≡ handshake_await_reply
      → Settles (suc (suc (suc (suc (suc j))))) h
  unfolding pass_in
  Settles-reply j h s =
      settle_in (suc (suc (suc (suc j)))) h handshake_await_reply s
        (elim (Bool-cases h.handshake_complete) [
          | inl e ↦ rw e (Settles-open j _ refl)
          | inr e ↦ rw e tt
        ])

  Settles-start :
      (j : ℕ) (h : H)
      → h.session_state ≡ handshake_start
      → Settles (suc (suc (suc (suc (suc (suc j)))))) h
  unfolding pass_in
  Settles-start j h s =
      settle_in (suc (suc (suc (suc (suc j))))) h handshake_start s (Settles-reply j _ refl)

  settles : (s : State) (h : H) → h.session_state ≡ s → Settles 6 h
  settles no_session h e = settle_in 5 h no_session e (unfold pass_in in tt)
  settles failed h e = settle_in 5 h failed e (unfold pass_in in tt)
  settles handshake_start h e = Settles-start 0 h e
  settles handshake_await_reply h e = Settles-reply 1 h e
  settles session_await_open h e = Settles-open 2 h e
  settles hello_start h e = Settles-hello 3 h e
  settles running h e = Settles-running 4 h e
  settles peer_await_signal_list h e = Settles-await 5 h e

  at_rest : Result H → Result (H × Bool)
  at_rest r = r >>= λ g. ok (g, false)

  rest_lem : (r : Result H) → at_rest (at_rest r >>= λ p. ok p.0) ≡ at_rest r
  unfolding at_rest
  rest_lem (ok g) = refl
  rest_lem (err e) = refl

  -- The state machine ends in every state: with six passes or more it asks for no other pass, and
  -- more passes change nothing.
  pub passes-step_state_machine :
      (h : H) (n : ℕ)
      → run (n + 6) h ≡ (step_state_machine ClientId before Signal h >>= λ g. ok (g, false))
  unfolding Settles step_state_machine at_rest
  passes-step_state_machine h n =
      let (r, s) = settles h.session_state h refl in s n ∙ rw (s 0) (sym (rest_lem r))
