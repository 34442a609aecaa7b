-- ===== src/Client/AddDevice/Accept/Returns.antt =====
-- When AcceptDevice sends its last message, and how it returns (client/tss_add.go).
use meemaw.Prelude.{
  ◌++◌, ◌>>=◌, ◌≡◌, refl, ap, sym, transport, ◌∙◌, inl, inr, Bool, Bool-cases, true, false, List,
  [], ◌∷◌, Option, none, some, Str, str, str_eq, ltb, length, if◌then◌else◌, Outcome, ok, err,
  panic, >>=-eq-ok, Ends, Ends-ok, GoError,
}
use meemaw.Tss.Wallet.{DkgResult}
use meemaw.Tss.Actors.{Party}
use meemaw.Tss.Actors.Adder.{AddExistingConfig}
use meemaw.Ws.{same_type, process_errors}
use meemaw.Ws.Written.{has_written, has_written-snoc}
use meemaw.Ws.Endpoint.{
  Reader, reading, inside, returned, Turn, reads, read_ends, ends, cancels, starts, read_fails,
  goes, polls, runs, reader_fails, gives_up, checked, reports,
}
use meemaw.Client.AddDevice.{Setting}
use meemaw.Client.AddDevice.Aside.{polls_adder-Aside, adder_sends-Aside, adder_changes-Aside}
use meemaw.Client.AddDevice.Accept.{
  Inside, sends_metadata, offers_start, sends_done, answers, Main, waits_start, processes, checks,
  sends_tss_done, waits_done, finished, gave_up, blocked, failed, Accept, rendezvous, processed,
  process_of, tss_done_sent, main_turn, turn, Event, turns, tss_sends, tss_changes, step, run,
  initial,
}
use meemaw.Client.AddDevice.Accept.Safe.{
  told, is_new_done, reads_new_done, at_done, Fails, later, At, Safe, moves, Ends-Safe, Aside-Safe,
  while_reading-Safe, ends_sending-Safe, go_on-Safe, read_message-Safe,
}

module _ (e : Setting) (wallet : DkgResult) (metadata : Str) (P : Type 0)
    (R : Accept e → Type 0) where
  open e use {a, lib, al}

  -- The call itself moves.
  advances :
      (h h' : Accept e)
      → Safe e wallet metadata P R h
      → h'.reader ≡ h.reader
      → h'.server_done ≡ h.server_done
      → told h'.written ≡ told h.written
      → At e wallet metadata P R h'.main h'.server_done
      → Safe e wallet metadata P R h'
  advances h h' safe r d w at = record {
    read_before = λ q. safe.read_before (sym (ap at_done r) ∙ q);
    told_before = λ q. safe.told_before (sym w ∙ q);
    closed_before = λ q. w ∙ safe.closed_before (sym d ∙ q);
    at = at;
  }

  rendezvous-Safe :
      (r : Reader Inside) (m : Main) (h : Accept e)
      → Safe e wallet metadata P R h
      → Safe e wallet metadata P R (rendezvous e wallet metadata r m h)
  unfolding rendezvous at_done At
  rendezvous-Safe (inside offers_start) waits_start h safe = record {
    read_before = λ q. cc q;
    told_before = safe.told_before;
    closed_before = safe.closed_before;
    at = tt;
  }
  rendezvous-Safe (inside offers_start) processes h safe = safe
  rendezvous-Safe (inside offers_start) checks h safe = safe
  rendezvous-Safe (inside offers_start) sends_tss_done h safe = safe
  rendezvous-Safe (inside offers_start) waits_done h safe = safe
  rendezvous-Safe (inside offers_start) finished h safe = safe
  rendezvous-Safe (inside offers_start) gave_up h safe = safe
  rendezvous-Safe (inside offers_start) blocked h safe = safe
  rendezvous-Safe (inside offers_start) (failed x) h safe = safe
  rendezvous-Safe (inside sends_metadata) m h safe = safe
  rendezvous-Safe (inside sends_done) m h safe = safe
  rendezvous-Safe (inside answers) m h safe = safe
  rendezvous-Safe reading m h safe = safe
  rendezvous-Safe returned m h safe = safe

  reports-Safe :
      (h : Accept e) (x : GoError)
      → Fails e R
      → Safe e wallet metadata P R h
      → Safe e wallet metadata P R (reports gave_up blocked h x)
  unfolding reports gives_up At
  reports-Safe h x fails safe = elim (Bool-cases (ltb (length h.errs) 2)) [
    | inl room ↦ rw room (advances h _ safe refl refl refl fails)
    | inr full ↦ rw full (advances h _ safe refl refl refl tt)
  ]

  processed-Safe :
      (h : Accept e) (q : Option (Party AddExistingConfig lib)) (r : Option (Outcome DkgResult))
      → h.adder ≡ q
      → h.main ≡ processes
      → R h
      → process_of e wallet metadata q ≡ r
      → Safe e wallet metadata P R h
      → Ends (Safe e wallet metadata P R) (processed e wallet metadata h r)
  unfolding processed process_of Ends At Fails
  processed-Safe h q none is here reached by safe = safe
  processed-Safe h q (some (ok result)) is here reached by safe =
      advances h _ safe refl refl refl tt
  processed-Safe h q (some panic) is here reached by safe = tt
  processed-Safe h none (some (err x)) is here reached by safe = cc by
  processed-Safe h (some p) (some (err x)) is here reached by safe =
      reports-Safe h x (h, reached, here, p, is, x, by) safe

  checked-Safe :
      (h : Accept e) (r : Outcome (Unit {0}) × List GoError)
      → Safe e wallet metadata P R h
      → Ends (Safe e wallet metadata P R) (checked sends_tss_done failed h r)
  unfolding checked gives_up Ends At
  checked-Safe h (ok u, errs) safe = advances h _ safe refl refl refl tt
  checked-Safe h (err x, errs) safe = advances h _ safe refl refl refl tt
  checked-Safe h (panic, errs) safe = tt

  tss_done_sent-Safe :
      (h : Accept e) (write : Outcome (Unit {0}))
      → Safe e wallet metadata P R h
      → Ends (Safe e wallet metadata P R) (tss_done_sent e wallet metadata h write)
  unfolding tss_done_sent gives_up Ends At same_type str_eq str
  tss_done_sent-Safe h (ok u) safe =
      advances h _ safe refl refl (has_written-snoc _ h.written _ refl) tt
  tss_done_sent-Safe h (err x) safe = advances h _ safe refl refl refl tt
  tss_done_sent-Safe h panic safe = tt

  waits_done-Safe :
      (b : Bool) (h : Accept e)
      → h.server_done ≡ b
      → Safe e wallet metadata P R h
      → Safe e wallet metadata P R (if b then record h { main = finished; cancelled = true } else h)
  unfolding At
  waits_done-Safe true h closed safe = advances h _ safe refl refl refl closed
  waits_done-Safe false h closed safe = safe

  main_turn-Safe :
      (m : Main) (h : Accept e) (write : Outcome (Unit {0}))
      → h.main ≡ m
      → R h
      → Safe e wallet metadata P R h
      → Ends (Safe e wallet metadata P R) (main_turn e wallet metadata m h write)
  unfolding main_turn Ends
  main_turn-Safe waits_start h write here reached safe = safe
  main_turn-Safe processes h write here reached safe =
      processed-Safe h h.adder _ refl here reached refl safe
  main_turn-Safe checks h write here reached safe =
      checked-Safe h (process_errors e.is_normal_closure h.cancelled h.errs) safe
  main_turn-Safe sends_tss_done h write here reached safe = tss_done_sent-Safe h write safe
  main_turn-Safe waits_done h write here reached safe = waits_done-Safe h.server_done h refl safe
  main_turn-Safe finished h write here reached safe = safe
  main_turn-Safe gave_up h write here reached safe = safe
  main_turn-Safe blocked h write here reached safe = safe
  main_turn-Safe (failed x) h write here reached safe = safe

  turn-Safe :
      (h : Accept e) (t : Turn)
      → (is_new_done {e = e} (turns t) ≡ true → P)
      → R h
      → Safe e wallet metadata P R h
      → Ends (Safe e wallet metadata P R) (turn e wallet metadata h t)
  unfolding turn is_new_done reader_fails Ends at_done
  turn-Safe h (reads msg) p reached safe =
      read_message-Safe e wallet metadata P R h.reader h msg p safe
  turn-Safe h read_ends p reached safe =
      while_reading-Safe e wallet metadata P R h.reader h _ safe
        (moves e wallet metadata P R h _ safe refl refl refl (λ q. cc q))
  turn-Safe h (read_fails x) p reached safe =
      while_reading-Safe e wallet metadata P R h.reader h _ safe
        (moves e wallet metadata P R h _ safe refl refl refl (λ q. cc q))
  turn-Safe h (goes write) p reached safe =
      go_on-Safe e wallet metadata P R h.reader h write refl safe
  turn-Safe h starts p reached safe = rendezvous-Safe h.reader h.main h safe
  turn-Safe h (polls write) p reached safe =
      Ends-Safe e wallet metadata P R h _ (polls_adder-Aside e h h.adder write) safe
  turn-Safe h ends p reached safe = ends_sending-Safe e wallet metadata P R h.sender h safe
  turn-Safe h cancels p reached safe =
      moves e wallet metadata P R h _ safe refl refl refl safe.read_before
  turn-Safe h (runs write) p reached safe = main_turn-Safe h.main h write refl reached safe

  step-Safe :
      (h : Accept e) (x : Event e)
      → (is_new_done x ≡ true → P)
      → R h
      → Safe e wallet metadata P R h
      → Ends (Safe e wallet metadata P R) (step e wallet metadata h x)
  unfolding step Ends
  step-Safe h (turns t) p reached safe = turn-Safe h t p reached safe
  step-Safe h (tss_sends to message) p reached safe =
      Aside-Safe e wallet metadata P R h _ (adder_sends-Aside e h h.adder to message) safe
  step-Safe h (tss_changes old_state new_state) p reached safe =
      Ends-Safe e wallet metadata P R h _ (adder_changes-Aside e h h.adder old_state new_state) safe

  run-Safe :
      (h h' : Accept e) (events : List (Event e))
      → (reads_new_done events ≡ true → P)
      → ((g : Accept e) (before after : List (Event e))
          → before ++ after ≡ events
          → run e wallet metadata h before ≡ ok g
          → R g)
      → Safe e wallet metadata P R h
      → run e wallet metadata h events ≡ ok h'
      → Safe e wallet metadata P R h'
  unfolding run Ends reads_new_done
  run-Safe h h' [] p t safe r = Ends-ok (Safe e wallet metadata P R) (ok h) r safe
  run-Safe h h' (x ∷ xs) p t safe r =
      let (h₁, r₁, r₂) = >>=-eq-ok (step e wallet metadata h x) _ r in
      run-Safe h₁ h' xs (λ q. p (later (is_new_done x) _ q))
        (λ g before after same s.
          t g (x ∷ before) after (ap (λ l. x ∷ l) same)
            (ap (λ q. q >>= λ u. run e wallet metadata u before) r₁ ∙ s))
        (Ends-ok (Safe e wallet metadata P R) _ r₁
          (step-Safe h x (λ q. p (rw q refl)) (t h [] (x ∷ xs) refl refl) safe))
        r₂

  initial-Safe : Safe e wallet metadata P R (initial e)
  unfolding at_done has_written At
  initial-Safe = record {
    read_before = λ q. cc q;
    told_before = λ q. cc q;
    closed_before = λ q. cc q;
    at = tt;
  }

module _ (e : Setting) (wallet : DkgResult) (metadata : Str) where
  -- The run goes through the state.
  unfoldable pub Reached : List (Event e) → Accept e → Type 0
  Reached events g =
      (before : List (Event e)) × (after : List (Event e)) × (before ++ after ≡ events)
      × (run e wallet metadata (initial e) before ≡ ok g)

  -- However the goroutines of AcceptDevice run: it has written an ExistingDeviceDoneMessage only where it has
  -- read a NewDeviceDoneMessage before; it has, once it has returned at its end; and where it has
  -- returned without an error before that, the process of its adder had failed, where the run was in
  -- adder.Process.
  pub run-told :
      (events : List (Event e)) (h : Accept e)
      → run e wallet metadata (initial e) events ≡ ok h
      → (told h.written ≡ true → reads_new_done events ≡ true)
        × (h.main ≡ finished → told h.written ≡ true)
        × (h.main ≡ gave_up → Fails e (Reached events))
  unfolding At Reached
  run-told events h r =
      let P = reads_new_done events ≡ true in
      let R : Accept e → Type 0 = Reached events in
      let safe =
        run-Safe e wallet metadata P R _ h events (λ q. q)
          (λ g before after same s. (before, after, same, s)) (initial-Safe e wallet metadata P R)
          r in
      (
        safe.told_before,
        λ f.
            safe.closed_before
              (transport (λ i. At e wallet metadata P R (f i) h.server_done) safe.at),
        λ g. transport (λ i. At e wallet metadata P R (g i) h.server_done) safe.at,
      )
