-- ===== src/Server/Dkg/Stuck.antt =====
-- Two ways in which DkgHandler does not end well (server/tss_dkg.go).
use meemaw.Prelude.{
  ◌≡◌, ap, List, [], ◌∷◌, Option, none, some, >>=-Ends, Str, ok, Outcome, Ends, Ends-ok, >>=-eq-ok,
}
use meemaw.Tss.Actors.{Party, DkgConfig}
use meemaw.Tss.Service.{Service}
use meemaw.Server.Dkg.{
  Setting, State, returned, not_started, waits_start, Event, reads, read_ends, read_fails, starts,
  stage_set, sender_runs, main_runs, tss_sends, tss_changes, request_cancelled, sender_ends,
  case_of, on_message, step, run, with_service, when_reading, sets, polls, main_turn, rendezvous,
  reader_fails, ends,
}

module _ (e : Setting) (user_id user_agent : Str) where
  Stuck : State e → Type 0
  Stuck s = (s.reader ≡ returned) × (s.main ≡ waits_start) × (s.sender ≡ not_started)

  with_service-Stuck :
      (dkg : Option (Party DkgConfig e.lib)) (s : State e)
      (f : Service DkgConfig e.lib → Outcome (Service DkgConfig e.lib))
      → Stuck s
      → Ends Stuck (with_service e user_id user_agent dkg s f)
  unfolding with_service Ends Stuck
  with_service-Stuck none s f stuck = stuck
  with_service-Stuck (some d) s f stuck = >>=-Ends Stuck (f d.service) _ (λ service. stuck)

  same-Stuck : (s : State e) (r : Outcome (State e)) → r ≡ ok s → Stuck s → Ends Stuck r
  unfolding Ends
  same-Stuck s r same stuck = rw same stuck

  step-Stuck : (s : State e) (x : Event e) → Stuck s → Ends Stuck (step e user_id user_agent s x)
  unfolding step Ends when_reading rendezvous sets polls main_turn ends Stuck
  step-Stuck s (reads msg write) stuck =
      same-Stuck s _
        (ap
          (λ r.
            when_reading e user_id user_agent r s (on_message e (case_of msg.msg_type) s msg write))
          stuck.0)
        stuck
  step-Stuck s read_ends stuck =
      same-Stuck s _
        (ap (λ r. when_reading e user_id user_agent r s (ok (record s { reader = returned })))
          stuck.0)
        stuck
  step-Stuck s (read_fails x) stuck =
      same-Stuck s _
        (ap (λ r. when_reading e user_id user_agent r s (ok (reader_fails e s x))) stuck.0) stuck
  step-Stuck s starts stuck =
      same-Stuck s _ (ap (λ r. ok (rendezvous e user_id user_agent r s.main s)) stuck.0) stuck
  step-Stuck s stage_set stuck =
      same-Stuck s _ (ap (λ r. ok (sets e user_id user_agent r s)) stuck.0) stuck
  step-Stuck s (sender_runs write) stuck =
      same-Stuck s _ (ap (λ g. polls e user_id user_agent g s.dkg s write) stuck.2) stuck
  step-Stuck s (main_runs write) stuck =
      same-Stuck s _ (ap (λ m. main_turn e user_id user_agent m s write) stuck.1) stuck
  step-Stuck s (tss_sends to message) stuck = with_service-Stuck s.dkg s _ stuck
  step-Stuck s (tss_changes old_state new_state) stuck = with_service-Stuck s.dkg s _ stuck
  step-Stuck s request_cancelled stuck = stuck
  step-Stuck s sender_ends stuck =
      same-Stuck s _ (ap (λ g. ok (ends e user_id user_agent g s)) stuck.2) stuck

  -- Once the reading goroutine has returned before the start of the process, the handler waits at
  -- `<-startTss` for ever: no further steps of any goroutine, nor the cancelled context, let it return.
  pub run-waits_start :
      (s s' : State e) (events : List (Event e))
      → s.reader ≡ returned
      → s.main ≡ waits_start
      → s.sender ≡ not_started
      → run e user_id user_agent s events ≡ ok s'
      → (s'.reader ≡ returned) × (s'.main ≡ waits_start) × (s'.sender ≡ not_started)
  unfolding run Ends Stuck
  run-waits_start s s' [] r m p h = Ends-ok Stuck (ok s) h (r, m, p)
  run-waits_start s s' (x ∷ xs) r m p h =
      let (s₁, h₁, h₂) = >>=-eq-ok (step e user_id user_agent s x) _ h in
      let (r₁, m₁, p₁) : Stuck s₁ = Ends-ok Stuck _ h₁ (step-Stuck s x (r, m, p)) in
      run-waits_start s₁ s' xs r₁ m₁ p₁ h₂
