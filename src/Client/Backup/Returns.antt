-- ===== src/Client/Backup/Returns.antt =====
-- How `backup` ends (client/tss_add.go).
use meemaw.Prelude.{
  ◌≡◌, refl, List, [], ◌∷◌, Option, none, some, Str, ok, err, panic, GoError, Outcome, ap, All, ◌⊎◌,
  inl, inr, ◌∙◌,
}
use meemaw.Tss.Wallet.{DkgResult}
use meemaw.Client.Backup.{
  Device, State, Event, register_returns, accept_returns, goroutine_runs, main_runs, Registering,
  registers, checks_registered, signals, gone, Accepting, accepts, checks_accepted, waits, returned,
  after_register, after_accept, goroutine_turn, receives, accepted, main_turn, initial, step, run,
}

module _ (P : Device → Type 0) (Q : GoError → Type 0) where
  unfoldable pub OfError : Option GoError → Type 0
  OfError none = Unit
  OfError (some x) = Q x

  -- What the two calls return is as P and Q say.
  unfoldable pub Gives : Event → Type 0
  unfolding OfError
  Gives (register_returns r m e) = P (r, m) × OfError e
  Gives (accept_returns e) = OfError e
  Gives goroutine_runs = Unit
  Gives main_runs = Unit

  Held : Registering → Device → Type 0
  Held registers d = Unit
  Held _ d = P d

  OfOutcome : Outcome Device → Type 0
  OfOutcome (ok d) = P d
  OfOutcome (err x) = Q x
  OfOutcome panic = ⊥

  OfAccepting : Accepting → Type 0
  unfolding OfOutcome
  OfAccepting (returned r) = OfOutcome r
  OfAccepting _ = Unit

  Sound : State → Type 0
  Sound s =
      Held s.registering (s.dkg_result, s.metadata) × OfError s.error × OfAccepting s.accepting

  register-Sound :
      (g : Registering) (s : State) (r : Option DkgResult) (m : Str) (e : Option GoError)
      → P (r, m) × OfError e
      → Sound s
      → Sound (after_register g s r m e)
  unfolding Sound Held after_register
  register-Sound registers s r m e p h = (p.0, p.1, h.2)
  register-Sound checks_registered s r m e p h = h
  register-Sound signals s r m e p h = h
  register-Sound gone s r m e p h = h

  accept-Sound :
      (a : Accepting) (s : State) (e : Option GoError)
      → OfError e
      → Sound s
      → Sound (after_accept a s e)
  unfolding Sound OfAccepting after_accept
  accept-Sound accepts s e q h = (h.0, q, tt)
  accept-Sound checks_accepted s e q h = h
  accept-Sound waits s e q h = h
  accept-Sound (returned r) s e q h = h

  goroutine_turn-Sound :
      (g : Registering) (e : Option GoError) (s : State)
      → s.registering ≡ g
      → Sound s
      → Sound (goroutine_turn g e s)
  unfolding Sound Held goroutine_turn
  goroutine_turn-Sound registers e s eq h = h
  goroutine_turn-Sound checks_registered none s eq h = (rw eq at h.0, h.1, h.2)
  goroutine_turn-Sound checks_registered (some x) s eq h = (rw eq at h.0, h.1, h.2)
  goroutine_turn-Sound signals e s eq h = h
  goroutine_turn-Sound gone e s eq h = h

  receives-Sound :
      (g : Registering) (s : State) → s.registering ≡ g → Sound s → Sound (receives g s)
  unfolding Sound Held OfAccepting OfOutcome receives
  receives-Sound registers s eq h = h
  receives-Sound checks_registered s eq h = h
  receives-Sound signals s eq h =
      let held : P (s.dkg_result, s.metadata) = rw eq at h.0 in (held, h.1, held)
  receives-Sound gone s eq h = h

  accepted-Sound : (e : Option GoError) (s : State) → s.error ≡ e → Sound s → Sound (accepted e s)
  unfolding Sound OfError OfAccepting OfOutcome accepted
  accepted-Sound none s eq h = (h.0, h.1, tt)
  accepted-Sound (some x) s eq h = (h.0, h.1, rw eq at h.1)

  main_turn-Sound : (a : Accepting) (s : State) → Sound s → Sound (main_turn a s)
  unfolding main_turn
  main_turn-Sound accepts s h = h
  main_turn-Sound checks_accepted s h = accepted-Sound s.error s refl h
  main_turn-Sound waits s h = receives-Sound s.registering s refl h
  main_turn-Sound (returned r) s h = h

  step-Sound : (s : State) (x : Event) → Gives x → Sound s → Sound (step s x)
  unfolding step Gives
  step-Sound s (register_returns r m e) g h = register-Sound s.registering s r m e g h
  step-Sound s (accept_returns e) g h = accept-Sound s.accepting s e g h
  step-Sound s goroutine_runs g h = goroutine_turn-Sound s.registering s.error s refl h
  step-Sound s main_runs g h = main_turn-Sound s.accepting s h

  run-Sound : (s : State) (events : List Event) → All Gives events → Sound s → Sound (run s events)
  unfolding run
  run-Sound s [] g h = h
  run-Sound s (x ∷ xs) g h = run-Sound (step s x) xs g.1 (step-Sound s x g.0 h)

  outcome-cases :
      (r : Outcome Device)
      → OfAccepting (returned r)
      → ((d : Device) × (r ≡ ok d) × P d) ⊎ ((x : GoError) × (r ≡ err x) × Q x)
  unfolding OfAccepting OfOutcome
  outcome-cases (ok d) h = inl (d, refl, h)
  outcome-cases (err x) h = inr (x, refl, h)
  outcome-cases panic h = elim h [ ]

  -- However the two calls and the two goroutines interleave, when `backup` has returned a device it is
  -- one that RegisterDevice returned, and an error is one of RegisterDevice or AcceptDevice: every
  -- property of what these give holds of it, and it never panics.
  pub run-Returned :
      (events : List Event) (r : Outcome Device)
      → All Gives events
      → (run initial events).accepting ≡ returned r
      → ((d : Device) × (r ≡ ok d) × P d) ⊎ ((x : GoError) × (r ≡ err x) × Q x)
  unfolding initial Sound Held OfError OfAccepting
  run-Returned events r g eq =
      let sound : OfAccepting (returned r) = rw eq at (run-Sound initial events g (tt, tt, tt)).2 in
      outcome-cases r sound

waiting_step : (s : State) (x : Event) → s.registering ≡ gone → s.accepting ≡ waits → step s x ≡ s
unfolding step after_register after_accept goroutine_turn main_turn receives
waiting_step s (register_returns r m e) g w = ap (λ q. after_register q s r m e) g
waiting_step s (accept_returns e) g w = ap (λ a. after_accept a s e) w
waiting_step s goroutine_runs g w = ap (λ q. goroutine_turn q s.error s) g
waiting_step s main_runs g w = ap (λ a. main_turn a s) w ∙ ap (λ q. receives q s) g

-- Once the goroutine is gone without a signal and AcceptDevice has succeeded, `backup` waits.
run-waits :
    (s : State) (events : List Event)
    → s.registering ≡ gone
    → s.accepting ≡ waits
    → (run s events).accepting ≡ waits
unfolding run
run-waits s [] g w = w
run-waits s (x ∷ xs) g w =
    ap (λ t. (run t xs).accepting) (waiting_step s x g w) ∙ run-waits s xs g w

-- If RegisterDevice has returned an error, its goroutine looks at it, and AcceptDevice then succeeds,
-- `backup` never returns, whatever runs from there on.
pub failed_registration_waits :
    (s : State) (events : List Event) (x : GoError)
    → s.registering ≡ checks_registered
    → s.error ≡ some x
    → s.accepting ≡ accepts
    → (run s (goroutine_runs ∷ accept_returns none ∷ main_runs ∷ events)).accepting ≡ waits
unfolding run step goroutine_turn after_accept main_turn accepted
failed_registration_waits s events x g e a =
    rw (g, e, a)
      (run-waits (record s { registering = gone; error = none; accepting = waits }) events refl
        refl)

-- While its goroutine has not looked at what RegisterDevice returned, an AcceptDevice that succeeds makes
-- both forget it: `backup` then returns the registration's result and no error, whatever error there was.
overwritten_error :
    (s : State)
    → s.registering ≡ checks_registered
    → s.accepting ≡ accepts
    → (run s (accept_returns none ∷ goroutine_runs ∷ main_runs ∷ main_runs ∷ [])).accepting
      ≡ returned (ok (s.dkg_result, s.metadata))
unfolding run step goroutine_turn after_accept main_turn accepted receives
overwritten_error s g a = rw (g, a) refl
