-- ===== src/Client/AddDevice/Register/Returns.antt =====
-- What RegisterDevice returns, and after what (client/tss_add.go).
use meemaw.Prelude.{
  ap, ◌++◌, ◌>>=◌, ◌≡◌, refl, sym, transport, ◌∙◌, ◌⊎◌, inl, inr, Bool, Bool-cases, true, false,
  List, [], ◌∷◌, Option, none, some, Str, ltb, length, if◌then◌else◌, Outcome, ok, err, panic,
  >>=-eq-ok, Ends, Ends-ok, GoError,
}
use meemaw.Tss.Wallet.{DkgResult}
use meemaw.Tss.Actors.{Party}
use meemaw.Tss.Actors.Adder.{AddNewConfig}
use meemaw.Ws.{process_errors}
use meemaw.Ws.Endpoint.{
  Reader, reading, inside, returned, Turn, reads, read_ends, ends, cancels, starts, read_fails,
  goes, polls, runs, reader_fails, gives_up, checked, reports,
}
use meemaw.Client.AddDevice.{Setting}
use meemaw.Client.AddDevice.Aside.{polls_adder-Aside, adder_sends-Aside, adder_changes-Aside}
use meemaw.Client.AddDevice.Register.{
  Inside, names_device, offers_start, stores, answers, Main, waits_start, processes, checks,
  waits_done, finished, finished_empty, blocked, failed, Register, rendezvous, processed,
  process_of, main_turn, turn, Event, turns, tss_sends, tss_changes, step, run, initial,
}
use meemaw.Client.AddDevice.Register.Safe.{
  is_done, reads_done, given, IsGiven, Comes, Fails, later, At, Safe, keeps, Ends-Safe,
  while_reading-Safe, ends_sending-Safe, go_on-Safe, read_message-Safe,
}

module _ (e : Setting) (peer_id device : Str) (P : Type 0) (K : Str → Type 0)
    (R : Register e → Type 0) where
  open e use {a, lib, al}

  -- The call itself moves.
  advances :
      (h h' : Register e)
      → Safe e peer_id device P K R h
      → h'.server_done ≡ h.server_done
      → h'.metadata ≡ h.metadata
      → At e peer_id device P K R h'.main
      → Safe e peer_id device P K R h'
  advances h h' safe d k at = record {
    at = at;
    closed = λ q. safe.closed (sym d ∙ q);
    brought = transport (λ i. K (sym k i)) safe.brought;
  }

  rendezvous-Safe :
      (r : Reader Inside) (m : Main) (h : Register e)
      → Safe e peer_id device P K R h
      → Safe e peer_id device P K R (rendezvous e peer_id device r m h)
  unfolding rendezvous At
  rendezvous-Safe (inside offers_start) waits_start h safe = advances h _ safe refl refl tt
  rendezvous-Safe (inside offers_start) processes h safe = safe
  rendezvous-Safe (inside offers_start) (checks x) h safe = safe
  rendezvous-Safe (inside offers_start) (waits_done x) h safe = safe
  rendezvous-Safe (inside offers_start) (finished x y) h safe = safe
  rendezvous-Safe (inside offers_start) finished_empty h safe = safe
  rendezvous-Safe (inside offers_start) blocked h safe = safe
  rendezvous-Safe (inside offers_start) (failed x) h safe = safe
  rendezvous-Safe (inside names_device) m h safe = safe
  rendezvous-Safe (inside stores) m h safe = safe
  rendezvous-Safe (inside answers) m h safe = safe
  rendezvous-Safe reading m h safe = safe
  rendezvous-Safe returned m h safe = safe

  reports-Safe :
      (h : Register e) (x : GoError)
      → Fails e R
      → Safe e peer_id device P K R h
      → Safe e peer_id device P K R (reports finished_empty blocked h x)
  unfolding reports gives_up At
  reports-Safe h x fails safe = elim (Bool-cases (ltb (length h.errs) 2)) [
    | inl room ↦ rw room (advances h _ safe refl refl fails)
    | inr full ↦ rw full (advances h _ safe refl refl tt)
  ]

  processed-Safe :
      (h : Register e) (q : Option (Party AddNewConfig lib)) (r : Option (Outcome DkgResult))
      → h.adder ≡ q
      → h.main ≡ processes
      → R h
      → process_of e peer_id device q ≡ r
      → Safe e peer_id device P K R h
      → Ends (Safe e peer_id device P K R) (processed e peer_id device h r)
  unfolding processed process_of Ends At Comes Fails
  processed-Safe h q none is here reached by safe = safe
  processed-Safe h q (some panic) is here reached by safe = tt
  processed-Safe h none (some (ok result)) is here reached by safe = cc by
  processed-Safe h (some p) (some (ok result)) is here reached by safe =
      advances h _ safe refl refl (h, reached, here, p, is, by)
  processed-Safe h none (some (err x)) is here reached by safe = cc by
  processed-Safe h (some p) (some (err x)) is here reached by safe =
      reports-Safe h x (h, reached, here, p, is, x, by) safe

  checked-Safe :
      (h : Register e) (result : DkgResult) (r : Outcome (Unit {0}) × List GoError)
      → Comes e R result
      → Safe e peer_id device P K R h
      → Ends (Safe e peer_id device P K R) (checked (waits_done result) failed h r)
  unfolding checked gives_up Ends At
  checked-Safe h result (ok u, errs) comes safe = advances h _ safe refl refl comes
  checked-Safe h result (err x, errs) comes safe = advances h _ safe refl refl tt
  checked-Safe h result (panic, errs) comes safe = tt

  waits_done-Safe :
      (b : Bool) (h : Register e) (result : DkgResult)
      → h.server_done ≡ b
      → Comes e R result
      → Safe e peer_id device P K R h
      → Safe e peer_id device P K R
          (if b then record h { main = finished result h.metadata; cancelled = true } else h)
  unfolding At
  waits_done-Safe true h result is_closed comes safe =
      advances h _ safe refl refl (comes, safe.closed is_closed, safe.brought)
  waits_done-Safe false h result is_closed comes safe = safe

  main_turn-Safe :
      (m : Main) (h : Register e)
      → h.main ≡ m
      → R h
      → At e peer_id device P K R m
      → Safe e peer_id device P K R h
      → Ends (Safe e peer_id device P K R) (main_turn e peer_id device m h)
  unfolding main_turn Ends At
  main_turn-Safe waits_start h here reached at safe = safe
  main_turn-Safe processes h here reached at safe =
      processed-Safe h h.adder _ refl here reached refl safe
  main_turn-Safe (checks result) h here reached at safe =
      checked-Safe h result (process_errors e.is_normal_closure h.cancelled h.errs) at safe
  main_turn-Safe (waits_done result) h here reached at safe =
      waits_done-Safe h.server_done h result refl at safe
  main_turn-Safe (finished result metadata) h here reached at safe = safe
  main_turn-Safe finished_empty h here reached at safe = safe
  main_turn-Safe blocked h here reached at safe = safe
  main_turn-Safe (failed x) h here reached at safe = safe

  turn-Safe :
      (h : Register e) (t : Turn)
      → (is_done {e = e} (turns t) ≡ true → P)
      → ((metadata : Str) → given {e = e} (turns t) ≡ some metadata → K metadata)
      → R h
      → Safe e peer_id device P K R h
      → Ends (Safe e peer_id device P K R) (turn e peer_id device h t)
  unfolding turn is_done given reader_fails Ends
  turn-Safe h (reads msg) p k reached safe =
      read_message-Safe e peer_id device P K R h.reader h msg p k safe
  turn-Safe h read_ends p k reached safe =
      while_reading-Safe e peer_id device P K R h.reader h _ safe
        (keeps e peer_id device P K R h _ refl refl refl safe)
  turn-Safe h (read_fails x) p k reached safe =
      while_reading-Safe e peer_id device P K R h.reader h _ safe
        (keeps e peer_id device P K R h _ refl refl refl safe)
  turn-Safe h (goes write) p k reached safe =
      go_on-Safe e peer_id device P K R h.reader h write safe
  turn-Safe h starts p k reached safe = rendezvous-Safe h.reader h.main h safe
  turn-Safe h (polls write) p k reached safe =
      Ends-Safe e peer_id device P K R h _ (polls_adder-Aside e h h.adder write) safe
  turn-Safe h ends p k reached safe = ends_sending-Safe e peer_id device P K R h.sender h safe
  turn-Safe h cancels p k reached safe = keeps e peer_id device P K R h _ refl refl refl safe
  turn-Safe h (runs write) p k reached safe = main_turn-Safe h.main h refl reached safe.at safe

  step-Safe :
      (h : Register e) (x : Event e)
      → (is_done x ≡ true → P)
      → ((metadata : Str) → given x ≡ some metadata → K metadata)
      → R h
      → Safe e peer_id device P K R h
      → Ends (Safe e peer_id device P K R) (step e peer_id device h x)
  unfolding step Ends
  step-Safe h (turns t) p k reached safe = turn-Safe h t p k reached safe
  step-Safe h (tss_sends to message) p k reached safe =
      let aside = adder_sends-Aside e h h.adder to message in
      keeps e peer_id device P K R h _ aside.same_main aside.same_done aside.same_metadata safe
  step-Safe h (tss_changes old_state new_state) p k reached safe =
      Ends-Safe e peer_id device P K R h _ (adder_changes-Aside e h h.adder old_state new_state)
        safe

  run-Safe :
      (h h' : Register e) (events : List (Event e))
      → (reads_done events ≡ true → P)
      → ((metadata : Str) → IsGiven events metadata → K metadata)
      → ((g : Register e) (before after : List (Event e))
          → before ++ after ≡ events
          → run e peer_id device h before ≡ ok g
          → R g)
      → Safe e peer_id device P K R h
      → run e peer_id device h events ≡ ok h'
      → Safe e peer_id device P K R h'
  unfolding run Ends reads_done IsGiven
  run-Safe h h' [] p k t safe r = Ends-ok (Safe e peer_id device P K R) (ok h) r safe
  run-Safe h h' (x ∷ xs) p k t safe r =
      let (h₁, r₁, r₂) = >>=-eq-ok (step e peer_id device h x) _ r in
      run-Safe h₁ h' xs (λ q. p (later (is_done x) _ q)) (λ metadata g. k metadata (inr g))
        (λ g before after same s.
          t g (x ∷ before) after (ap (λ l. x ∷ l) same)
            (ap (λ q. q >>= λ u. run e peer_id device u before) r₁ ∙ s))
        (Ends-ok (Safe e peer_id device P K R) _ r₁ (
          step-Safe h x (λ q. p (rw q refl)) (λ metadata g. k metadata (inl g))
            (t h [] (x ∷ xs) refl refl) safe))
        r₂

module _ (e : Setting) (peer_id device : Str) where
  -- The run goes through the state.
  unfoldable pub Reached : List (Event e) → Register e → Type 0
  Reached events g =
      (before : List (Event e)) × (after : List (Event e)) × (before ++ after ≡ events)
      × (run e peer_id device (initial e) before ≡ ok g)

  -- However the goroutines of RegisterDevice run: where it has returned a result with its metadata, the
  -- process of its adder had given this result, where the run was in adder.Process; an
  -- ExistingDeviceDoneMessage was read before, and the metadata is that of a MetadataMessage that
  -- was read, or empty; where it has returned nothing and no error, the process of its adder had
  -- failed, where the run was in adder.Process.
  pub run-Comes :
      (events : List (Event e)) (h : Register e)
      → run e peer_id device (initial e) events ≡ ok h
      → ((result : DkgResult) (metadata : Str)
          → h.main ≡ finished result metadata
          → Comes e (Reached events) result
            × (reads_done events ≡ true)
            × (IsGiven events metadata ⊎ (metadata ≡ [])))
        × (h.main ≡ finished_empty → Fails e (Reached events))
  unfolding At Reached
  run-Comes events h r =
      let K : Str → Type 0 = λ metadata. IsGiven events metadata ⊎ (metadata ≡ []) in
      let P = reads_done events ≡ true in
      let R : Register e → Type 0 = Reached events in
      let safe =
        run-Safe e peer_id device P K R _ h events (λ q. q) (λ metadata g. inl g)
          (λ g before after same s. (before, after, same, s))
          (record { at = tt; closed = λ q. cc q; brought = inr refl }) r in
      (
        λ result metadata f. transport (λ i. At e peer_id device P K R (f i)) safe.at,
        λ f. transport (λ i. At e peer_id device P K R (f i)) safe.at,
      )
