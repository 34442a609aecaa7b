-- ===== src/Server/Dkg/Safety.antt =====
-- What DkgHandler guarantees under every interleaving of its goroutines (server/tss_dkg.go).
use meemaw.Prelude.{
  ◌++◌, ◌>>=◌, ◌≡◌, ◌⊎◌, inl, inr, refl, sym, ap, ◌∙◌, Bool, true, false, List, [], ◌∷◌, Option,
  none, some, Str, transport, if◌then◌else◌, Outcome, ok, err, panic, >>=-eq-ok, Ends, Ends-ok,
  GoError,
}
use meemaw.Tss.Wallet.{DkgResult}
use meemaw.Tss.Actors.{Party, DkgConfig, server_dkg_process}
use meemaw.Ws.{process_errors}
use meemaw.Server.Database.{Db}
use meemaw.Server.Vault.{store_wallet}
use meemaw.Server.Dkg.{
  Setting, Reader, reading, offers_start, sets_stage, returned, Main, waits_start, processes,
  checks, stores, sends_metadata, waits_done, finished, failed, State, processed, process_of,
  checked, stored, metadata_sent, gives_up, main_turn, rendezvous, step, run, initial, Event, reads,
  read_ends, read_fails, starts, stage_set, sender_runs, main_runs, tss_sends, tss_changes,
  request_cancelled, sender_ends,
}
use meemaw.Server.Dkg.Steps.{
  metadata_of, metadata_of-metadata, Kept, kept, Keeps, OfOthers, step-Keeps,
}

-- `R` holds of the states that the run has gone through.
module _ (e : Setting) (user_id user_agent : Str) (db₀ : Db) (random₀ : e.crypto.Random)
    (R : State e → Type 0) where
  open e use {a, lib, crypto}

  -- Where the handler waited for the process of its DKG, this had given the result.
  unfoldable pub Comes : DkgResult → Type 0
  Comes result =
      (s : State e) × R s
      × (s.main ≡ processes)
      × (d : Party DkgConfig lib) × (s.dkg ≡ some d)
      × (server_dkg_process a lib d ≡ some (ok result))

  -- StoreWallet ran on the first database and stored such a result, for some peer id.
  unfoldable pub Stored : Str → Db → crypto.Random → Type 0
  unfolding Comes
  Stored metadata db random =
      (peer_id : Str) × (result : DkgResult) × Comes result
      × (store_wallet crypto user_id peer_id user_agent result db₀ random₀
          ≡ ok (metadata, db, random))

  abbrev pub Untouched : Db → crypto.Random → List Str → Type 0
  Untouched db random ms = (db ≡ db₀) × (random ≡ random₀) × (ms ≡ [])

  -- What holds at each place of the handler, of the database and the metadata written so far.
  unfoldable pub At : Main → Db → crypto.Random → List Str → Type 0
  unfolding Stored
  At waits_start db random ms = Untouched db random ms
  At processes db random ms = Untouched db random ms
  At (checks result) db random ms = Untouched db random ms × Comes result
  At (stores result) db random ms = Untouched db random ms × Comes result
  At (sends_metadata m) db random ms = Stored m db random × (ms ≡ [])
  At waits_done db random ms = (m : Str) × Stored m db random × (ms ≡ m ∷ [])
  At finished db random ms = (m : Str) × Stored m db random × (ms ≡ m ∷ [])
  At failed db random ms = Untouched db random ms ⊎ ((m : Str) × Stored m db random × (ms ≡ []))

  AtKept : Kept e → Type 0
  unfolding At
  AtKept (main, db, random, ms) = At main db random ms

  Safe : State e → Type 0
  unfolding AtKept
  Safe s = AtKept (kept e s) × (s.main ≡ finished → s.server_done ≡ true)

  Keeps-Safe : (s s' : State e) → Keeps e s s' → Safe s → Safe s'
  unfolding Safe AtKept kept
  Keeps-Safe s s' (same, still) (at, done) = (
    transport (λ i. AtKept (sym same i)) at,
    λ f. still (done (sym (ap (λ (k : Kept e). k.0) same) ∙ f)),
  )

  pub process_of-Comes :
      (s : State e) (dkg : Option (Party DkgConfig lib)) (result : DkgResult)
      → s.dkg ≡ dkg
      → s.main ≡ processes
      → R s
      → process_of e dkg ≡ some (ok result)
      → Comes result
  unfolding process_of Comes
  process_of-Comes s none result is here reached h = cc h
  process_of-Comes s (some d) result is here reached h = (s, reached, here, d, is, h)

  processed-Safe :
      (s : State e) (r : Option (Outcome DkgResult))
      → process_of e s.dkg ≡ r
      → s.main ≡ processes
      → R s
      → Safe s
      → Untouched s.db s.random (metadata_of s.written)
      → Ends Safe (processed e s r)
  unfolding processed Ends Safe AtKept At kept
  processed-Safe s none eq here reached safe u = safe
  processed-Safe s (some (ok result)) eq here reached safe u =
      ((u, process_of-Comes s s.dkg result refl here reached eq), λ f. cc f)
  processed-Safe s (some (err x)) eq here reached safe u = (inl u, λ f. cc f)
  processed-Safe s (some panic) eq here reached safe u = tt

  checked-Safe :
      (s : State e) (result : DkgResult) (r : Outcome (Unit {0}) × List GoError)
      → At (checks result) s.db s.random (metadata_of s.written)
      → Ends Safe (checked e s result r)
  unfolding checked Ends Safe AtKept At kept gives_up
  checked-Safe s result (ok x, errs) at = (at, λ f. cc f)
  checked-Safe s result (err x, errs) (u, comes) = (inl u, λ f. cc f)
  checked-Safe s result (panic, errs) at = tt

  stored-Safe :
      (s : State e) (result : DkgResult) (r : Outcome (Str × Db × crypto.Random))
      → store_wallet crypto user_id s.client_peer_id user_agent result s.db s.random ≡ r
      → At (stores result) s.db s.random (metadata_of s.written)
      → Ends Safe (stored e s r)
  unfolding stored Ends Safe AtKept At kept gives_up Stored
  stored-Safe s result (ok (metadata, db, random)) eq
        ((same_db, same_random, none_written), comes) =
      (
        ((s.client_peer_id, result, comes, rw (← same_db, ← same_random) eq), none_written),
        λ f. cc f,
      )
  stored-Safe s result (err x) eq (u, comes) = (inl u, λ f. cc f)
  stored-Safe s result panic eq at = tt

  metadata_sent-Safe :
      (s : State e) (metadata : Str) (write : Outcome (Unit {0}))
      → At (sends_metadata metadata) s.db s.random (metadata_of s.written)
      → Ends Safe (metadata_sent e s metadata write)
  unfolding metadata_sent Ends Safe AtKept At kept gives_up
  metadata_sent-Safe s metadata (ok x) (was_stored, none_written) =
      ((metadata, was_stored, metadata_of-metadata s.written metadata none_written), λ f. cc f)
  metadata_sent-Safe s metadata (err x) (was_stored, none_written) =
      (inr (metadata, was_stored, none_written), λ f. cc f)
  metadata_sent-Safe s metadata panic at = tt

  waits_done-Safe :
      (s : State e) (done : Bool)
      → s.server_done ≡ done
      → Safe s
      → At waits_done s.db s.random (metadata_of s.written)
      → Ends Safe (if done then ok (record s { main = finished; cancelled = true }) else ok s)
  unfolding Ends Safe AtKept At kept
  waits_done-Safe s true is_done safe at = (at, λ f. is_done)
  waits_done-Safe s false not_done safe at = safe

  main_turn-Safe :
      (m : Main) (s : State e) (write : Outcome (Unit {0}))
      → s.main ≡ m
      → R s
      → Safe s
      → At m s.db s.random (metadata_of s.written)
      → Ends Safe (main_turn e user_id user_agent m s write)
  unfolding main_turn At Ends
  main_turn-Safe waits_start s write here reached safe at = safe
  main_turn-Safe processes s write here reached safe at =
      processed-Safe s _ refl here reached safe at
  main_turn-Safe (checks result) s write here reached safe at =
      checked-Safe s result (process_errors e.is_normal_closure s.cancelled s.errs) at
  main_turn-Safe (stores result) s write here reached safe at = stored-Safe s result _ refl at
  main_turn-Safe (sends_metadata m) s write here reached safe at = metadata_sent-Safe s m write at
  main_turn-Safe waits_done s write here reached safe at =
      waits_done-Safe s s.server_done refl safe at
  main_turn-Safe finished s write here reached safe at = safe
  main_turn-Safe failed s write here reached safe at = safe

  rendezvous-Safe :
      (r : Reader) (m : Main) (s : State e)
      → Safe s
      → At m s.db s.random (metadata_of s.written)
      → Safe (rendezvous e user_id user_agent r m s)
  unfolding rendezvous At Safe AtKept kept
  rendezvous-Safe offers_start waits_start s safe at = (at, λ f. cc f)
  rendezvous-Safe offers_start processes s safe at = safe
  rendezvous-Safe offers_start (checks result) s safe at = safe
  rendezvous-Safe offers_start (stores result) s safe at = safe
  rendezvous-Safe offers_start (sends_metadata m) s safe at = safe
  rendezvous-Safe offers_start waits_done s safe at = safe
  rendezvous-Safe offers_start finished s safe at = safe
  rendezvous-Safe offers_start failed s safe at = safe
  rendezvous-Safe reading m s safe at = safe
  rendezvous-Safe sets_stage m s safe at = safe
  rendezvous-Safe returned m s safe at = safe

  Ends-Safe : (s : State e) (r : Outcome (State e)) → Ends (Keeps e s) r → Safe s → Ends Safe r
  unfolding Ends
  Ends-Safe s (ok s') keeps safe = Keeps-Safe s s' keeps safe
  Ends-Safe s (err x) keeps safe = tt
  Ends-Safe s panic keeps safe = tt

  others-Safe :
      (s : State e) (x : Event e) → OfOthers x → Safe s → Ends Safe (step e user_id user_agent s x)
  others-Safe s x o safe =
      Ends-Safe s (step e user_id user_agent s x) (step-Keeps e user_id user_agent s x o) safe

  step-Safe : (s : State e) (x : Event e) → R s → Safe s → Ends Safe (step e user_id user_agent s x)
  unfolding step Ends Safe AtKept kept OfOthers
  step-Safe s starts reached safe = rendezvous-Safe s.reader s.main s safe safe.0
  step-Safe s (main_runs write) reached safe =
      main_turn-Safe s.main s write refl reached safe safe.0
  step-Safe s (reads msg write) reached safe = others-Safe s (reads msg write) tt safe
  step-Safe s read_ends reached safe = others-Safe s read_ends tt safe
  step-Safe s (read_fails x) reached safe = others-Safe s (read_fails x) tt safe
  step-Safe s stage_set reached safe = others-Safe s stage_set tt safe
  step-Safe s (sender_runs write) reached safe = others-Safe s (sender_runs write) tt safe
  step-Safe s (tss_sends to message) reached safe = others-Safe s (tss_sends to message) tt safe
  step-Safe s (tss_changes old_state new_state) reached safe =
      others-Safe s (tss_changes old_state new_state) tt safe
  step-Safe s request_cancelled reached safe = others-Safe s request_cancelled tt safe
  step-Safe s sender_ends reached safe = others-Safe s sender_ends tt safe

  run-Safe :
      (s s' : State e) (events : List (Event e))
      → ((t : State e) (before after : List (Event e))
          → before ++ after ≡ events
          → run e user_id user_agent s before ≡ ok t
          → R t)
      → Safe s
      → run e user_id user_agent s events ≡ ok s'
      → Safe s'
  unfolding run Ends
  run-Safe s s' [] t safe h = Ends-ok Safe (ok s) h safe
  run-Safe s s' (x ∷ xs) t safe h =
      let (s₁, h₁, h₂) = >>=-eq-ok (step e user_id user_agent s x) _ h in
      run-Safe s₁ s' xs
        (λ g before after same r.
          t g (x ∷ before) after (ap (λ l. x ∷ l) same)
            (ap (λ q. q >>= λ u. run e user_id user_agent u before) h₁ ∙ r))
        (Ends-ok Safe _ h₁ (step-Safe s x (t s [] (x ∷ xs) refl refl) safe)) h₂

module _ (e : Setting) (user_id user_agent : Str) (db₀ : Db) (random₀ : e.crypto.Random) where
  -- The run goes through the state.
  unfoldable pub Reached : List (Event e) → State e → Type 0
  Reached events s =
      (before : List (Event e)) × (after : List (Event e)) × (before ++ after ≡ events)
      × (run e user_id user_agent (initial e db₀ random₀) before ≡ ok s)

  all_safe :
      (events : List (Event e)) (s : State e)
      → run e user_id user_agent (initial e db₀ random₀) events ≡ ok s
      → Safe e user_id user_agent db₀ random₀ (Reached events) s
  unfolding Safe AtKept At kept metadata_of Reached
  all_safe events s h =
      run-Safe e user_id user_agent db₀ random₀ (Reached events) _ s events
        (λ g before after same r. (before, after, same, r)) ((refl, refl, refl), λ f. cc f) h

  -- Whatever the order in which the goroutines run, the handler is where its effects say: until StoreWallet
  -- has run the database is the one the request began with and no metadata was written; from then on the
  -- database is the one StoreWallet gives for the result that the process of the handler's DKG had
  -- given, where the run was in Process; at `<-serverDone` and after a successful return exactly one
  -- metadata message was written, with what StoreWallet returned; a handler that gave up has written
  -- none.
  pub run-At :
      (events : List (Event e)) (s : State e)
      → run e user_id user_agent (initial e db₀ random₀) events ≡ ok s
      → At e user_id user_agent db₀ random₀
          (Reached events)
          s.main
          s.db
          s.random
          (metadata_of s.written)
  unfolding Safe AtKept kept
  run-At events s h = (all_safe events s h).0

  -- A successful return, spelled out.
  pub run-finished :
      (events : List (Event e)) (s : State e)
      → run e user_id user_agent (initial e db₀ random₀) events ≡ ok s
      → s.main ≡ finished
      → (s.server_done ≡ true)
        × (m : Str) × Stored e user_id user_agent db₀ random₀ (Reached events) m s.db s.random
        × (metadata_of s.written ≡ m ∷ [])
  unfolding Safe AtKept At kept
  run-finished events s h is_finished =
      let safe = all_safe events s h in
      let at : At e user_id user_agent db₀ random₀ (Reached events) finished s.db s.random
          (metadata_of s.written) =
        transport
          (λ i.
            At e user_id user_agent db₀ random₀ (Reached events) (is_finished i) s.db s.random
              (metadata_of s.written))
          safe.0 in
      (safe.1 is_finished, at.0, at.1, at.2)
