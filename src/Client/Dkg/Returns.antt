-- ===== src/Client/Dkg/Returns.antt =====
-- What Dkg of the client returns, and when it acknowledges (client/client.go), whatever the order of its
-- goroutines.
use meemaw.Prelude.{
  ◌≡◌, refl, ap, ◌∙◌, ℕ, ◌+◌, Bool, true, false, ◌||◌, List, [], ◌∷◌, ◌++◌, length, Option, none,
  some, arith, Str, str, str_eq, ltb, if◌then◌else◌, Outcome, ok, err, panic, ◌>>=◌, >>=-eq-ok,
  Ends, Ends-ok, if-Ends, >>=-Ends, GoError,
}
use meemaw.Tss.Wallet.{DkgResult}
use meemaw.Tss.PeerManager.{PeerManager, must_send}
use meemaw.Tss.Service.{Service}
use meemaw.Tss.Actors.{Party, DkgConfig, dkg_handle_message, client_dkg_process, client_dkg_next}
use meemaw.Ws.{
  WsMessage, metadata_ack_message, same_type, unexpected, Round, stops, idles, sends, fails,
  crashes, process_errors, read_tss,
}
use meemaw.Ws.Rounds.{SendsTss, tss_send_round-SendsTss}
use meemaw.Client.Dkg.{
  Setting, Reader, reading, returned, Sender, polling, stopped, Main, processes, checks, waits_done,
  finished, finished_empty, failed, State, Case, tss_case, metadata_case, default_case, case_of,
  metadata_ack, reader_fails, handled, acked, answered, on_message, processed, checked, main_turn,
  with_manager, sender_turn, polls, Event, reads, read_ends, read_fails, sender_runs, main_runs,
  tss_sends, tss_changes, sender_ends, when_reading, with_service, step, run, initial,
}

is_ack : WsMessage → Bool
is_ack m = same_type m.msg_type metadata_ack_message

-- The number of acknowledgements among the messages that were written.
unfoldable pub acks : List WsMessage → ℕ
unfolding is_ack
acks [] = 0
acks (m ∷ ms) = let rest = acks ms in if is_ack m then 1 + rest else rest

abbrev pub one_if : Bool → ℕ
one_if true = 1
one_if false = 0

acks-append : (ms ns : List WsMessage) → acks (ms ++ ns) ≡ acks ms + acks ns
unfolding acks
acks-append [] ns = omega arith
acks-append (m ∷ ms) ns = ground (arith, acks-append ms ns)

acks-snoc_other :
    (ms : List WsMessage) (m : WsMessage)
    → same_type m.msg_type metadata_ack_message ≡ false
    → acks (ms ++ m ∷ []) ≡ acks ms
acks-snoc_other ms m h = acks-append ms (m ∷ []) ∙ (unfold acks is_ack in rw h (omega arith))

acks-snoc : (ms : List WsMessage) → acks (ms ++ metadata_ack ∷ []) ≡ acks ms + 1
unfolding acks is_ack same_type str_eq str
acks-snoc ms = acks-append ms (metadata_ack ∷ [])

-- `R` holds of the states that the run has gone through.
module _ (e : Setting) (R : State e → Type 0) where
  open e use {a, lib}

  -- Where the call waited for the process of its DKG, this had given the outcome.
  unfoldable pub Comes : Outcome DkgResult → Type 0
  Comes r = (s : State e) × R s × (s.main ≡ processes) × (client_dkg_process a lib s.dkg ≡ some r)

  -- What holds at each place of Dkg, with the state of the channel.
  unfoldable pub At : Main → Bool → Type 0
  unfolding Comes
  At processes done = Unit
  At (checks result) done = Comes (ok result)
  At (waits_done result) done = Comes (ok result)
  At (finished result metadata) done = Comes (ok result) × (done ≡ true)
  At finished_empty done = (x : GoError) × Comes (err x)
  At (failed x) done = Unit

  At-closed : (m : Main) (done : Bool) → At m done → At m true
  unfolding At
  At-closed processes done at = at
  At-closed (checks result) done at = at
  At-closed (waits_done result) done at = at
  At-closed (finished result metadata) done at = (at.0, refl)
  At-closed finished_empty done at = at
  At-closed (failed x) done at = at

  Sound : State e → Type 0
  Sound s = (acks s.written ≡ one_if s.server_done) × At s.main s.server_done

  handled-Sound :
      (s : State e) (r : Outcome (Service DkgConfig lib)) → Sound s → Ends Sound (handled e s r)
  unfolding handled reader_fails Ends Sound
  handled-Sound s (ok service) sound = sound
  handled-Sound s (err x) sound = sound
  handled-Sound s panic sound = tt

  closed-Sound :
      (s : State e) (done : Bool)
      → s.server_done ≡ done
      → Sound s
      → Ends Sound (
          if done
          then panic
          else ok (record s { written = s.written ++ metadata_ack ∷ []; server_done = true }))
  unfolding Ends Sound
  closed-Sound s true h sound = tt
  closed-Sound s false h (count, at) = (
    acks-snoc s.written ∙ ap (λ n. n + 1) (count ∙ ap one_if h),
    At-closed s.main s.server_done at,
  )

  acked-Sound :
      (s : State e) (text : Str) (write : Outcome (Unit {0}))
      → Sound s
      → Ends Sound (acked e (record s { metadata = text }) write)
  unfolding acked reader_fails Ends Sound
  acked-Sound s text (ok u) sound =
      closed-Sound (record s { metadata = text }) s.server_done refl sound
  acked-Sound s text (err x) sound = sound
  acked-Sound s text panic sound = tt

  answered-Sound :
      (s : State e) (write : Outcome (Unit {0})) → Sound s → Ends Sound (answered e s write)
  unfolding answered reader_fails Ends Sound same_type str_eq str
  answered-Sound s (ok u) (count, at) = (acks-snoc_other s.written unexpected refl ∙ count, at)
  answered-Sound s (err x) sound = sound
  answered-Sound s panic sound = tt

  on_message-Sound :
      (k : Case) (s : State e) (msg : WsMessage) (write : Outcome (Unit {0}))
      → Sound s
      → Ends Sound (on_message e k s msg write)
  unfolding on_message
  on_message-Sound tss_case s msg write sound =
      if-Ends Sound (ltb msg.msg_type.msg_stage s.stage) (ok s) _ (unfold Ends in sound) (
        handled-Sound s
          (read_tss e.unmarshal_json msg.msg >>= λ m. dkg_handle_message lib s.dkg.service m) sound)
  on_message-Sound metadata_case s msg write sound = acked-Sound s msg.msg write sound
  on_message-Sound default_case s msg write sound = answered-Sound s write sound

  processed-Sound :
      (s : State e) (r : Option (Outcome DkgResult))
      → client_dkg_process a lib s.dkg ≡ r
      → s.main ≡ processes
      → R s
      → Sound s
      → Ends Sound (processed e s r)
  unfolding processed Ends Sound At Comes
  processed-Sound s none eq here reached sound = sound
  processed-Sound s (some (ok result)) eq here reached (count, at) = (count, (s, reached, here, eq))
  processed-Sound s (some (err x)) eq here reached (count, at) =
      if-Ends Sound (ltb (length s.errs) 2)
        (ok (record s { main = finished_empty; errs = s.errs ++ x ∷ []; cancelled = true })) (ok s)
        (count, (x, (s, reached, here, eq))) (count, at)
  processed-Sound s (some panic) eq here reached sound = tt

  checked-Sound :
      (s : State e) (result : DkgResult) (r : Outcome (Unit {0}) × List GoError)
      → Sound s
      → Comes (ok result)
      → Ends Sound (checked e s result r)
  unfolding checked Ends Sound At
  checked-Sound s result (ok u, errs) (count, at) comes = (count, comes)
  checked-Sound s result (err x, errs) (count, at) comes = (count, tt)
  checked-Sound s result (panic, errs) sound comes = tt

  finish-Sound :
      (s : State e) (result : DkgResult) (done : Bool)
      → s.server_done ≡ done
      → Sound s
      → Comes (ok result)
      → Ends Sound (
          if done
          then ok (record s { main = finished result s.metadata; cancelled = true })
          else ok s)
  unfolding Ends Sound At
  finish-Sound s result true h (count, at) comes = (count, (comes, h))
  finish-Sound s result false h sound comes = sound

  main_turn-Sound :
      (m : Main) (s : State e)
      → s.main ≡ m
      → R s
      → Sound s
      → At m s.server_done
      → Ends Sound (main_turn e m s)
  unfolding main_turn Ends At
  main_turn-Sound processes s here reached sound at = processed-Sound s _ refl here reached sound
  main_turn-Sound (checks result) s here reached sound at =
      checked-Sound s result (process_errors e.is_normal_closure s.cancelled s.errs) sound at
  main_turn-Sound (waits_done result) s here reached sound at =
      finish-Sound s result s.server_done refl sound at
  main_turn-Sound (finished result metadata) s here reached sound at = sound
  main_turn-Sound finished_empty s here reached sound at = sound
  main_turn-Sound (failed x) s here reached sound at = sound

  sender_turn-Sound :
      (s : State e) (r : Round (PeerManager lib.M lib.Actor)) (write : Outcome (Unit {0}))
      → SendsTss r
      → Sound s
      → Ends Sound (sender_turn e s r write)
  unfolding sender_turn with_manager SendsTss Ends Sound same_type str_eq str
  sender_turn-Sound s stops write tss sound = sound
  sender_turn-Sound s (idles pm) write tss sound = sound
  sender_turn-Sound s (sends msg pm) (ok u) tss (count, at) =
      (acks-snoc_other s.written msg (ap (λ t. same_type t metadata_ack_message) tss) ∙ count, at)
  sender_turn-Sound s (sends msg pm) (err x) tss sound = sound
  sender_turn-Sound s (sends msg pm) panic tss sound = tt
  sender_turn-Sound s (fails x pm) write tss sound = sound
  sender_turn-Sound s crashes write tss sound = tt

  polls-Sound :
      (g : Sender) (s : State e) (write : Outcome (Unit {0}))
      → Sound s
      → Ends Sound (polls e g s write)
  unfolding polls Ends
  polls-Sound polling s write sound =
      sender_turn-Sound s _ write
        (tss_send_round-SendsTss e.marshal_json (s.cancelled || s.server_done)
          (λ pm.
            client_dkg_next a lib (record s.dkg { service = record s.dkg.service { pm = pm } }))
          s.dkg.service.pm)
        sound
  polls-Sound stopped s write sound = sound

  when_reading-Sound :
      (r : Reader) (s : State e) (next : Outcome (State e))
      → Sound s
      → Ends Sound next
      → Ends Sound (when_reading e r s next)
  unfolding when_reading Ends
  when_reading-Sound reading s next sound h = h
  when_reading-Sound returned s next sound h = sound

  with_service-Sound :
      (s : State e) (r : Outcome (Service DkgConfig lib))
      → Sound s
      → Ends Sound (with_service e s r)
  unfolding with_service Ends Sound
  with_service-Sound s r sound = >>=-Ends Sound r _ (λ service. sound)

  step-Sound : (s : State e) (x : Event e) → R s → Sound s → Ends Sound (step e s x)
  unfolding step Ends Sound reader_fails
  step-Sound s (reads msg write) reached sound =
      when_reading-Sound s.reader s (on_message e (case_of msg.msg_type) s msg write) sound
        (on_message-Sound (case_of msg.msg_type) s msg write sound)
  step-Sound s read_ends reached sound = when_reading-Sound s.reader s _ sound sound
  step-Sound s (read_fails x) reached sound =
      when_reading-Sound s.reader s (ok (reader_fails e s x)) sound sound
  step-Sound s (sender_runs write) reached sound = polls-Sound s.sender s write sound
  step-Sound s main_runs reached sound = main_turn-Sound s.main s refl reached sound sound.1
  step-Sound s (tss_sends to message) reached sound =
      with_service-Sound s
        (ok (record s.dkg.service { pm = must_send s.dkg.service.pm to message })) sound
  step-Sound s (tss_changes old_state new_state) reached sound = with_service-Sound s _ sound
  step-Sound s sender_ends reached sound = sound

  run-Sound :
      (s s' : State e) (xs : List (Event e))
      → ((t : State e) (before after : List (Event e))
          → before ++ after ≡ xs
          → run e s before ≡ ok t
          → R t)
      → Sound s
      → run e s xs ≡ ok s'
      → Sound s'
  unfolding run Ends
  run-Sound s s' [] t sound h = Ends-ok Sound (ok s) h sound
  run-Sound s s' (x ∷ xs) t sound h =
      let (s₁, h₁, h₂) = >>=-eq-ok (step e s x) _ h in
      run-Sound s₁ s' xs
        (λ g before after same r.
          t g (x ∷ before) after (ap (λ l. x ∷ l) same)
            (ap (λ q. q >>= λ u. run e u before) h₁ ∙ r))
        (Ends-ok Sound _ h₁ (step-Sound s x (t s [] (x ∷ xs) refl refl) sound)) h₂

module _ (e : Setting) (dkg : Party DkgConfig e.lib) where
  -- The run goes through the state.
  unfoldable pub Reached : List (Event e) → State e → Type 0
  Reached events s =
      (before : List (Event e)) × (after : List (Event e)) × (before ++ after ≡ events)
      × (run e (initial e dkg) before ≡ ok s)

  -- However the goroutines of the client run, it has written one metadata-ack once `serverDone` is closed
  -- and none before; a result that it returns is the one that the process of its DKG had given, where
  -- the run was in Process, and the channel is closed then; and where it returns nothing without an
  -- error, the process of its DKG had failed, where the run was in Process.
  pub run-acks :
      (xs : List (Event e)) (s : State e)
      → run e (initial e dkg) xs ≡ ok s
      → (acks s.written ≡ one_if s.server_done) × At e (Reached xs) s.main s.server_done
  unfolding Sound At acks Reached
  run-acks xs s h =
      run-Sound e (Reached xs) _ s xs (λ g before after same r. (before, after, same, r)) (refl, tt)
        h
