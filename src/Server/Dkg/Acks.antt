-- ===== src/Server/Dkg/Acks.antt =====
-- The acknowledgements that DkgHandler reads, and the channel `serverDone` (server/tss_dkg.go).
use meemaw.Prelude.{
  arith, ◌≡◌, refl, sym, ap, ◌∙◌, true, str, str_eq, List, [], ◌∷◌, Option, none, some, if-Ends,
  GoError, Str, ok, err, panic, Outcome, ◌>>=◌, Ends, Ends-ok, >>=-eq-ok, if◌then◌else◌,
}
use meemaw.Tss.Wallet.{DkgResult}
use meemaw.Server.Database.{Db}
use meemaw.Ws.{WsMessage, metadata_ack_message, switch, same_type, process_errors}
use meemaw.Server.Dkg.{
  Setting, State, Reader, reading, Main, waits_start, Event, reads, read_ends, read_fails, starts,
  stage_set, sender_runs, main_runs, tss_sends, tss_changes, request_cancelled, sender_ends,
  case_of, on_message, step, run, when_reading, main_turn, rendezvous, sends_metadata, checks,
  stores, waits_done, processes, finished, failed, processed, checked, stored, metadata_sent,
  gives_up,
}
use meemaw.Server.Dkg.Steps.{Keeps, step-Keeps, OfOthers}

module _ (e : Setting) (user_id user_agent : Str) where
  -- The channel that the first acknowledgement closed stays closed.
  Closed : State e → Type 0
  Closed s = s.server_done ≡ true

  processed-Closed :
      (s : State e) (r : Option (Outcome DkgResult)) → Closed s → Ends Closed (processed e s r)
  unfolding processed Ends Closed
  processed-Closed s none closed = closed
  processed-Closed s (some (ok result)) closed = closed
  processed-Closed s (some (err x)) closed = closed
  processed-Closed s (some panic) closed = tt

  checked-Closed :
      (s : State e) (result : DkgResult) (r : Outcome (Unit {0}) × List GoError)
      → Closed s
      → Ends Closed (checked e s result r)
  unfolding checked Ends Closed gives_up
  checked-Closed s result (ok x, errs) closed = closed
  checked-Closed s result (err x, errs) closed = closed
  checked-Closed s result (panic, errs) closed = tt

  stored-Closed :
      (s : State e) (r : Outcome (Str × Db × e.crypto.Random))
      → Closed s
      → Ends Closed (stored e s r)
  unfolding stored Ends Closed gives_up
  stored-Closed s (ok (metadata, db, random)) closed = closed
  stored-Closed s (err x) closed = closed
  stored-Closed s panic closed = tt

  metadata_sent-Closed :
      (s : State e) (metadata : Str) (write : Outcome (Unit {0}))
      → Closed s
      → Ends Closed (metadata_sent e s metadata write)
  unfolding metadata_sent Ends Closed gives_up
  metadata_sent-Closed s metadata (ok x) closed = closed
  metadata_sent-Closed s metadata (err x) closed = closed
  metadata_sent-Closed s metadata panic closed = tt

  main_turn-Closed :
      (m : Main) (s : State e) (write : Outcome (Unit {0}))
      → Closed s
      → Ends Closed (main_turn e user_id user_agent m s write)
  unfolding main_turn Ends Closed
  main_turn-Closed waits_start s write closed = closed
  main_turn-Closed processes s write closed = processed-Closed s _ closed
  main_turn-Closed (checks result) s write closed =
      checked-Closed s result (process_errors e.is_normal_closure s.cancelled s.errs) closed
  main_turn-Closed (stores result) s write closed = stored-Closed s _ closed
  main_turn-Closed (sends_metadata m) s write closed = metadata_sent-Closed s m write closed
  main_turn-Closed waits_done s write closed =
      if-Ends Closed s.server_done (ok (record s { main = finished; cancelled = true })) (ok s)
        closed closed
  main_turn-Closed finished s write closed = closed
  main_turn-Closed failed s write closed = closed

  rendezvous-Closed :
      (r : Reader) (m : Main) (s : State e)
      → Closed s
      → Closed (rendezvous e user_id user_agent r m s)
  unfolding rendezvous Closed
  rendezvous-Closed r m s closed = ground (arith, closed)

  others-Closed :
      (s : State e) (r : Outcome (State e)) → Ends (Keeps e s) r → Closed s → Ends Closed r
  unfolding Ends Closed
  others-Closed s (ok s') keeps closed = keeps.1 closed
  others-Closed s (err x) keeps closed = tt
  others-Closed s panic keeps closed = tt

  step-Closed : (s : State e) (x : Event e) → Closed s → Ends Closed (step e user_id user_agent s x)
  unfolding step Ends Closed OfOthers
  step-Closed s starts closed = rendezvous-Closed s.reader s.main s closed
  step-Closed s (main_runs write) closed = main_turn-Closed s.main s write closed
  step-Closed s (reads msg write) closed =
      others-Closed s (step e user_id user_agent s (reads msg write))
        (step-Keeps e user_id user_agent s (reads msg write) tt) closed
  step-Closed s read_ends closed =
      others-Closed s (step e user_id user_agent s read_ends)
        (step-Keeps e user_id user_agent s read_ends tt) closed
  step-Closed s (read_fails x) closed =
      others-Closed s (step e user_id user_agent s (read_fails x))
        (step-Keeps e user_id user_agent s (read_fails x) tt) closed
  step-Closed s stage_set closed =
      others-Closed s (step e user_id user_agent s stage_set)
        (step-Keeps e user_id user_agent s stage_set tt) closed
  step-Closed s (sender_runs write) closed =
      others-Closed s (step e user_id user_agent s (sender_runs write))
        (step-Keeps e user_id user_agent s (sender_runs write) tt) closed
  step-Closed s (tss_sends to message) closed =
      others-Closed s (step e user_id user_agent s (tss_sends to message))
        (step-Keeps e user_id user_agent s (tss_sends to message) tt) closed
  step-Closed s (tss_changes old_state new_state) closed =
      others-Closed s (step e user_id user_agent s (tss_changes old_state new_state))
        (step-Keeps e user_id user_agent s (tss_changes old_state new_state) tt) closed
  step-Closed s request_cancelled closed = closed
  step-Closed s sender_ends closed =
      others-Closed s (step e user_id user_agent s sender_ends)
        (step-Keeps e user_id user_agent s sender_ends tt) closed

  run-Closed :
      (s s' : State e) (events : List (Event e))
      → Closed s
      → run e user_id user_agent s events ≡ ok s'
      → Closed s'
  unfolding run Ends
  run-Closed s s' [] closed h = Ends-ok Closed (ok s) h closed
  run-Closed s s' (x ∷ xs) closed h =
      let (s₁, h₁, h₂) = >>=-eq-ok (step e user_id user_agent s x) _ h in
      run-Closed s₁ s' xs (Ends-ok Closed _ h₁ (step-Closed s x closed)) h₂

  after_ack : State e → Outcome (State e)
  after_ack s = if s.server_done then panic else ok (record s { server_done = true })

  step-ack :
      (s : State e) (msg : WsMessage) (write : Outcome (Unit {0}))
      → s.reader ≡ reading
      → msg.msg_type ≡ metadata_ack_message
      → step e user_id user_agent s (reads msg write) ≡ after_ack s
  unfolding step when_reading on_message case_of switch same_type str_eq str after_ack
  step-ack s msg write r t =
      ap
        (λ q.
          when_reading e user_id user_agent q s (on_message e (case_of msg.msg_type) s msg write))
        r
      ∙ ap (λ u. on_message e (case_of u) s msg write) t

  -- A connection on which two metadata-acks are read, whatever the handler does between them, ends in
  -- the panic of closing a closed channel, as long as the reading goroutine is still reading.
  run-second_ack :
      (s s₁ : State e) (events : List (Event e)) (first second : WsMessage)
      (write₁ write₂ : Outcome (Unit {0}))
      → s.reader ≡ reading
      → first.msg_type ≡ metadata_ack_message
      → second.msg_type ≡ metadata_ack_message
      → run e user_id user_agent s (reads first write₁ ∷ events) ≡ ok s₁
      → s₁.reader ≡ reading
      → run e user_id user_agent s₁ (reads second write₂ ∷ []) ≡ panic
  unfolding run after_ack Ends Closed
  run-second_ack s s₁ events first second write₁ write₂ r t₁ t₂ h r₁ =
      let (s₂, h₁, h₂) = >>=-eq-ok (step e user_id user_agent s (reads first write₁)) _ h in
      let closed : Closed s₂ =
        Ends-ok Closed (after_ack s) (sym (step-ack s first write₁ r t₁) ∙ h₁)
          (if-Ends Closed s.server_done panic (ok (record s { server_done = true })) tt refl) in
      ap (λ q. q >>= λ s'. ok s')
        (step-ack s₁ second write₂ r₁ t₂
          ∙ ap (λ b. if b then panic else ok (record s₁ { server_done = true }))
              (run-Closed s₂ s₁ events closed h₂))
