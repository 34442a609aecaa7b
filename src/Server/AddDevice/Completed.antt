-- ===== src/Server/AddDevice/Completed.antt =====
-- What the two handlers that add a device guarantee together, under every interleaving (server/tss_add.go).
use meemaw.Prelude.{
  ◌++◌, ◌≡◌, refl, ap, sym, ◌∙◌, inl, inr, transport, true, List, [], ◌∷◌, Str, Outcome, ok, err,
  panic, ◌>>=◌, >>=-eq-ok, Ends, Ends-ok,
}
use meemaw.Ws.Written.{has_written}
use meemaw.Server.Database.{Db}
use meemaw.Server.AddDevice.Shared.{Setting, Shared}
use meemaw.Server.AddDevice.Shared.Aside.{
  configs, same_empty, Served, adder_changes-Served, adder_sends-Served,
}
use meemaw.Tss.Actors.Adder.{AddExistingConfig}
use meemaw.Server.AddDevice.Register.{Register, finished as register_finished}
use meemaw.Server.AddDevice.Register.Safe.{
  OfWallet, Safe as RegisterSafe, Good, may_make, is_making, done,
}
use meemaw.Server.AddDevice.Register.Steps.{register_turn-Good}
use meemaw.Server.AddDevice.Accept.{
  Accept, Main, waits_start, processes, awaits_useragent, waits_tss, awaits_new_done, sends_done,
  waits_done, finished, failed, blocked,
}
use meemaw.Server.AddDevice.Accept.Steps.{told, offers, finishing}
use meemaw.Server.AddDevice.Accept.Stored.{
  late, Safe as AcceptSafe, Honest as HonestTurn, Untouched, Stored, At,
}
use meemaw.Server.AddDevice.Accept.Turns.{accept_turn-Safe}
use meemaw.Server.AddDevice.Accept.Effects.{Waits, Leaves, accept_turn-Leaves}
use meemaw.Server.AddDevice.Run.{
  State, Event, registering, accepting, tss_sends, tss_changes, step, run, initial,
}

module _ (e : Setting) (user_id user_agent : Str) where
  -- If `H`, the existing device sends its last message only after AcceptDeviceHandler's was written.
  unfoldable pub Honest : Type 0 → State e → Event e → Type 0
  Honest H s (accepting t) = H → finishing t ≡ true → told s.accept.written ≡ true
  Honest H s _ = Unit

  unfoldable pub HonestRun : Type 0 → State e → List (Event e) → Type 0
  unfolding Honest
  HonestRun H s [] = Unit
  HonestRun H s (x ∷ xs) =
      Honest H s x × ((s' : State e) → step e user_id user_agent s x ≡ ok s' → HonestRun H s' xs)

  -- The run goes through the state.
  unfoldable pub Reached : State e → List (Event e) → State e → Type 0
  Reached s events t =
      (before : List (Event e)) × (after : List (Event e)) × (before ++ after ≡ events)
      × (run e user_id user_agent s before ≡ ok t)

  -- What a state of the run has of AcceptDeviceHandler and of what the handlers share.
  unfoldable pub Passes : (State e → Type 0) → Accept → Shared e → Type 0
  Passes Q h sh = (r : Register) × Q (record { register = r; accept = h; shared = sh })

module _ (e : Setting) (user_id user_agent : Str) (db₀ : Db) (random₀ : e.crypto.Random)
    (H : Type 0) (Q : State e → Type 0) where
  abbrev W : AddExistingConfig → Type 0
  W = OfWallet e user_id db₀

  abbrev R : Accept → Shared e → Type 0
  R = Passes e user_id user_agent Q

  -- The existing device has been told, if it is honest.
  abbrev Late : Accept → Type 0
  Late h = H → late h.main ≡ true

  record Inv (s : State e) : Type 0 where
    register_safe : RegisterSafe e user_id db₀ (Late s.accept) s.register s.shared
    accept_safe : AcceptSafe e user_id db₀ random₀ W H R s.accept s.shared
    waits : Waits e user_id s.accept s.shared

  registered-Inv :
      (s : State e) (r : Register × Shared e)
      → Good e user_id db₀ (Late s.accept) s.shared r
      → Inv s
      → Inv (record s { register = r.0; shared = r.1 })
  unfolding Waits
  registered-Inv s (h, sh) (f, safe) inv = record {
    register_safe = safe;
    accept_safe = record {
      at =
          transport
            (λ i.
              At e user_id db₀ random₀ W H R s.accept.main (sym f.same_db i) (sym f.same_random i))
            inv.accept_safe.at;
      told_late = inv.accept_safe.told_late;
      offers_late = inv.accept_safe.offers_late;
      passed_late = λ w c. inv.accept_safe.passed_late w (f.passed c);
    };
    waits = λ q. inv.waits (f.grown q);
  }

  at_start :
      (m : Main) (db : Db) (random : e.crypto.Random)
      → m ≡ waits_start
      → At e user_id db₀ random₀ W H R m db random
      → Untouched e user_id db₀ random₀ W H R db random
  unfolding At
  at_start m db random here at =
      transport (λ i. At e user_id db₀ random₀ W H R (here i) db random) at

  accepted-Inv :
      (s : State e) (r : Accept × Shared e)
      → AcceptSafe e user_id db₀ random₀ W H R r.0 r.1
      → Leaves e user_id s.accept s.shared r
      → Inv s
      → Inv (record s { accept = r.0; shared = r.1 })
  unfolding Waits
  accepted-Inv s (h, sh) safe l inv =
      let none_now = same_empty e sh.adders s.shared.adders (sym l.same_wallets) in
      record {
        register_safe = record {
          done_late = λ q w. l.still_late (inv.register_safe.done_late q w);
          passed_late = λ q w. safe.passed_late w q;
          one_adder = λ q. elim (inv.register_safe.one_adder q) [
            | inl none_yet ↦ inl (none_now none_yet)
            | inr past ↦ inr past
          ];
          no_adder = λ q. none_now (inv.register_safe.no_adder q);
          of_wallet = rw l.same_wallets inv.register_safe.of_wallet;
          untouched = λ q. (at_start h.main sh.db sh.random (l.still_waits q) safe.at).0;
        };
        accept_safe = safe;
        waits = l.still_waits;
      }

  Served-Inv :
      (s : State e) (sh : Shared e) → Served e s.shared sh → Inv s → Inv (record s { shared = sh })
  unfolding Waits
  Served-Inv s sh served inv =
      let same_db : sh.db ≡ s.shared.db = ap (λ (t : Shared e). t.db) served.the_rest in
      let same_random : sh.random ≡ s.shared.random =
        ap (λ (t : Shared e). t.random) served.the_rest in
      let same_ch : sh.existing_device_done_ch ≡ s.shared.existing_device_done_ch =
        ap (λ (t : Shared e). t.existing_device_done_ch) served.the_rest in
      let none_before = same_empty e s.shared.adders sh.adders served.same_configs in
      let none_now = same_empty e sh.adders s.shared.adders (sym served.same_configs) in
      record {
        register_safe = record {
          done_late = inv.register_safe.done_late;
          passed_late = λ q. inv.register_safe.passed_late (sym same_ch ∙ q);
          one_adder = λ q. elim (inv.register_safe.one_adder q) [
            | inl none_yet ↦ inl (none_now none_yet)
            | inr past ↦ inr past
          ];
          no_adder = λ q. none_now (inv.register_safe.no_adder q);
          of_wallet = rw served.same_configs inv.register_safe.of_wallet;
          untouched = λ q. same_db ∙ inv.register_safe.untouched (none_before q);
        };
        accept_safe = record {
          at =
              transport
                (λ i.
                  At e user_id db₀ random₀ W H R s.accept.main (sym same_db i) (sym same_random i))
                inv.accept_safe.at;
          told_late = inv.accept_safe.told_late;
          offers_late = inv.accept_safe.offers_late;
          passed_late = λ w c. inv.accept_safe.passed_late w (sym same_ch ∙ c);
        };
        waits = λ q. inv.waits (none_before q);
      }

  Ends-registered :
      (s : State e) (r : Outcome (Register × Shared e))
      → Ends (Good e user_id db₀ (Late s.accept) s.shared) r
      → Inv s
      → Ends Inv (r >>= λ q. ok (record s { register = q.0; shared = q.1 }))
  unfolding Ends
  Ends-registered s (ok r) good inv = registered-Inv s r good inv
  Ends-registered s (err x) good inv = tt
  Ends-registered s panic good inv = tt

  Ends-accepted :
      (s : State e) (r : Outcome (Accept × Shared e))
      → Ends (λ q. AcceptSafe e user_id db₀ random₀ W H R q.0 q.1) r
      → Ends (Leaves e user_id s.accept s.shared) r
      → Inv s
      → Ends Inv (r >>= λ q. ok (record s { accept = q.0; shared = q.1 }))
  unfolding Ends
  Ends-accepted s (ok r) safe leaves inv = accepted-Inv s r safe leaves inv
  Ends-accepted s (err x) safe leaves inv = tt
  Ends-accepted s panic safe leaves inv = tt

  Ends-Served :
      (s : State e) (r : Outcome (Shared e))
      → Ends (Served e s.shared) r
      → Inv s
      → Ends Inv (r >>= λ sh. ok (record s { shared = sh }))
  unfolding Ends
  Ends-Served s (ok sh) served inv = Served-Inv s sh served inv
  Ends-Served s (err x) served inv = tt
  Ends-Served s panic served inv = tt

  step-Inv :
      (s : State e) (x : Event e)
      → Q s
      → Honest e user_id user_agent H s x
      → Inv s
      → Ends Inv (step e user_id user_agent s x)
  unfolding step Honest Ends Passes HonestTurn
  step-Inv s (registering t) reached honest inv =
      Ends-registered s _
        (register_turn-Good e user_id db₀ user_agent (Late s.accept) s.register s.shared t
          inv.register_safe)
        inv
  step-Inv s (accepting t) reached honest inv =
      Ends-accepted s _
        (accept_turn-Safe e user_id db₀ random₀ W H R s.accept s.shared t (s.register, reached)
          inv.register_safe.of_wallet honest inv.accept_safe)
        (accept_turn-Leaves e user_id s.accept s.shared t inv.waits) inv
  step-Inv s (tss_sends n to message) reached honest inv =
      Served-Inv s _ (adder_sends-Served e n _ to message s.shared refl) inv
  step-Inv s (tss_changes n old_state new_state) reached honest inv =
      Ends-Served s _ (adder_changes-Served e n _ old_state new_state s.shared refl) inv

  run-Inv :
      (s s' : State e) (events : List (Event e))
      → ((t : State e) (before after : List (Event e))
          → before ++ after ≡ events
          → run e user_id user_agent s before ≡ ok t
          → Q t)
      → HonestRun e user_id user_agent H s events
      → Inv s
      → run e user_id user_agent s events ≡ ok s'
      → Inv s'
  unfolding run Ends HonestRun
  run-Inv s s' [] t honest inv h = Ends-ok Inv (ok s) h inv
  run-Inv s s' (x ∷ xs) t (honest, after) inv h =
      let (s₁, h₁, h₂) = >>=-eq-ok (step e user_id user_agent s x) _ h in
      run-Inv s₁ s' xs
        (λ g before rest same r.
          t g (x ∷ before) rest (ap (λ l. x ∷ l) same)
            (ap (λ q. q >>= λ u. run e user_id user_agent u before) h₁ ∙ r))
        (after s₁ h₁) (Ends-ok Inv _ h₁ (step-Inv s x (t s [] (x ∷ xs) refl refl) honest inv)) h₂

  initial-Inv : Inv (initial e db₀ random₀)
  unfolding Waits At late has_written offers may_make is_making done configs
  initial-Inv = record {
    register_safe = record {
      done_late = λ q. cc q;
      passed_late = λ q. cc q;
      one_adder = λ q. inl refl;
      no_adder = λ q. refl;
      of_wallet = tt;
      untouched = λ q. refl;
    };
    accept_safe = record {
      at = (refl, refl);
      told_late = λ q. cc q;
      offers_late = λ w q. cc q;
      passed_late = λ w q. cc q;
    };
    waits = λ q. refl;
  }

  Stored-late :
      (m : Main) (db : Db) (random : e.crypto.Random)
      → late m ≡ true
      → At e user_id db₀ random₀ W H R m db random
      → Stored e user_id db₀ random₀ W H R db random
  unfolding late At
  Stored-late waits_start db random l at = cc l
  Stored-late (processes o) db random l at = cc l
  Stored-late (awaits_useragent r) db random l at = cc l
  Stored-late waits_tss db random l at = cc l
  Stored-late awaits_new_done db random l at = cc l
  Stored-late sends_done db random l at = cc l
  Stored-late failed db random l at = cc l
  Stored-late blocked db random l at = cc l
  Stored-late waits_done db random l at = at
  Stored-late finished db random l at = at

module _ (e : Setting) (user_id user_agent : Str) (db₀ : Db) (random₀ : e.crypto.Random) where
  -- The existing device may send what it likes.
  any_run : (s : State e) (events : List (Event e)) → HonestRun e user_id user_agent ⊥ s events
  unfolding HonestRun Honest
  any_run s [] = tt
  any_run s (registering t ∷ xs) = (tt, λ s' h. any_run s' xs)
  any_run s (accepting t ∷ xs) = ((λ w q. absurd w), λ s' h. any_run s' xs)
  any_run s (tss_sends n to message ∷ xs) = (tt, λ s' h. any_run s' xs)
  any_run s (tss_changes n old_state new_state ∷ xs) = (tt, λ s' h. any_run s' xs)

  -- What the run from the beginning goes through.
  abbrev pub Gone : List (Event e) → Accept → Shared e → Type 0
  Gone events =
      Passes e user_id user_agent (Reached e user_id user_agent (initial e db₀ random₀) events)

  gone_through :
      (H : Type 0) (events : List (Event e)) (s : State e)
      → HonestRun e user_id user_agent H (initial e db₀ random₀) events
      → run e user_id user_agent (initial e db₀ random₀) events ≡ ok s
      → Inv e user_id user_agent db₀ random₀ H
          (Reached e user_id user_agent (initial e db₀ random₀) events)
          s
  unfolding Reached
  gone_through H events s honest h =
      let Q : State e → Type 0 = Reached e user_id user_agent (initial e db₀ random₀) events in
      run-Inv e user_id user_agent db₀ random₀ H Q _ s events
        (λ g before after same r. (before, after, same, r)) honest
        (initial-Inv e user_id user_agent db₀ random₀ H Q) h

  -- Whatever the devices send and in whatever order the goroutines of the two handlers run: until AddPeer
  -- has run in AcceptDeviceHandler, the database is the one they began with; from then on it is the one
  -- that AddPeer gives, with the metadata and the peer id that the handler had, for a wallet that
  -- RetrieveWallet gave, merged with what the process of the handler's adder had given; and a handler
  -- that gave up has left one or the other.
  pub run-At_accept :
      (events : List (Event e)) (s : State e)
      → run e user_id user_agent (initial e db₀ random₀) events ≡ ok s
      → At e user_id db₀ random₀
          (OfWallet e user_id db₀)
          ⊥
          (Gone events)
          s.accept.main
          s.shared.db
          s.shared.random
  run-At_accept events s h = (gone_through ⊥ events s (any_run _ events) h).accept_safe.at

  -- If the existing device sends its last message only after AcceptDeviceHandler's last one was written, then,
  -- once RegisterDeviceHandler has returned successfully, AddPeer has run.
  pub run-registered :
      (events : List (Event e)) (s : State e)
      → HonestRun e user_id user_agent Unit (initial e db₀ random₀) events
      → run e user_id user_agent (initial e db₀ random₀) events ≡ ok s
      → s.register.main ≡ register_finished
      → Stored e user_id db₀ random₀
          (OfWallet e user_id db₀)
          Unit
          (Gone events)
          s.shared.db
          s.shared.random
  unfolding done
  run-registered events s honest h is_finished =
      let inv = gone_through Unit events s honest h in
      Stored-late e user_id user_agent db₀ random₀ Unit
        (Reached e user_id user_agent (initial e db₀ random₀) events) s.accept.main s.shared.db
        s.shared.random (inv.register_safe.done_late (ap done is_finished) tt) inv.accept_safe.at
