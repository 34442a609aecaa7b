-- ===== src/Server/Dkg/Protocol.antt =====
-- The protocol that DkgHandler implements (server/tss_dkg.go), as a machine without goroutines.
use meemaw.Prelude.{
  ◌∙◌, ◌>>=◌, ◌≡◌, refl, sym, ap, transport, Bool, true, false, List, [], ◌∷◌, ◌++◌, Option, none,
  some, Str, if◌then◌else◌, Outcome, ok, err, panic, >>=-eq-ok, Ends, Ends-ok, GoError,
}
use meemaw.Tss.Wallet.{DkgResult}
use meemaw.Ws.{process_errors}
use meemaw.Server.Database.{Db}
use meemaw.Server.Vault.{store_wallet}
use meemaw.Server.Dkg.{
  Setting, Reader, reading, offers_start, sets_stage, returned, Main, waits_start, processes,
  checks, stores, sends_metadata, waits_done, finished, failed, State, processed, process_of,
  checked, stored, metadata_sent, gives_up, main_turn, rendezvous, step, run, Event, reads,
  read_ends, read_fails, starts, stage_set, sender_runs, main_runs, tss_sends, tss_changes,
  request_cancelled, sender_ends,
}
use meemaw.Server.Dkg.Steps.{
  metadata_of, metadata_of-snoc_metadata, Kept, kept, Keeps, OfOthers, step-Keeps,
}
use meemaw.Server.Dkg.Safety.{Comes, process_of-Comes}

pub data Phase : Type 0 where
  idle running : Phase
  ready : DkgResult → Phase
  stored_as : Str → Phase
  sent complete abandoned : Phase

unfoldable pub phase : Main → Phase
phase waits_start = idle
phase processes = running
phase (checks result) = ready result
phase (stores result) = ready result
phase (sends_metadata m) = stored_as m
phase waits_done = sent
phase finished = complete
phase failed = abandoned

-- Where a DKG can still be given up.
unfoldable pub IsOpen : Phase → Type 0
IsOpen running = Unit
IsOpen (ready result) = Unit
IsOpen (stored_as m) = Unit
IsOpen _ = ⊥

-- `R` holds of the states that the run has gone through.
module _ (e : Setting) (user_id user_agent : Str) (R : State e → Type 0) where
  -- The phase, the database, the source of random bytes, and the metadata sent so far.
  abbrev pub View : Type 0
  View = Phase × Db × e.crypto.Random × List Str

  pub data Next : View → View → Type 0 where
    begins :
        (db : Db) (r : e.crypto.Random) (ms : List Str)
        → Next (idle, db, r, ms) (running, db, r, ms)
    yields :
        (result : DkgResult) (db : Db) (r : e.crypto.Random) (ms : List Str)
        → Comes e user_id user_agent db r R result
        → Next (running, db, r, ms) (ready result, db, r, ms)
    keeps_wallet :
        (peer_id : Str) (result : DkgResult) (m : Str) (db db' : Db) (r r' : e.crypto.Random)
        (ms : List Str)
        → store_wallet e.crypto user_id peer_id user_agent result db r ≡ ok (m, db', r')
        → Next (ready result, db, r, ms) (stored_as m, db', r', ms)
    sends :
        (m : Str) (db : Db) (r : e.crypto.Random) (ms : List Str)
        → Next (stored_as m, db, r, ms) (sent, db, r, ms ++ m ∷ [])
    completes :
        (db : Db) (r : e.crypto.Random) (ms : List Str)
        → Next (sent, db, r, ms) (complete, db, r, ms)
    abandons :
        (p : Phase) (db : Db) (r : e.crypto.Random) (ms : List Str)
        → IsOpen p
        → Next (p, db, r, ms) (abandoned, db, r, ms)

  pub data Reaches (v : View) : View → Type 0 where
    here : Reaches v v
    further : (w x : View) → Reaches v w → Next w x → Reaches v x

  unfoldable pub view : State e → View
  unfolding phase
  view s = (phase s.main, s.db, s.random, metadata_of s.written)

  same-Reaches : (v w : View) → v ≡ w → Reaches v w
  same-Reaches v w h = transport (λ i. Reaches v (h i)) here

  one-Reaches : (v w : View) → Next v w → Reaches v w
  one-Reaches v w next = further v w here next

  abbrev at : Main → State e → View
  at m s = (phase m, s.db, s.random, metadata_of s.written)

  -- From the view at a place to that of what a step leaves.
  Goes : Main → State e → Outcome (State e) → Type 0
  unfolding view
  Goes m s r = Ends (λ s'. Reaches (at m s) (view s')) r

  processed-Goes :
      (s : State e) (r : Option (Outcome DkgResult))
      → process_of e s.dkg ≡ r
      → s.main ≡ processes
      → R s
      → Goes processes s (processed e s r)
  unfolding Goes processed Ends view phase IsOpen
  processed-Goes s none eq h reached =
      same-Reaches _ _ (ap (λ m. (phase m, s.db, s.random, metadata_of s.written)) (sym h))
  processed-Goes s (some (ok result)) eq h reached = one-Reaches _ _ (
      yields result s.db s.random (metadata_of s.written)
        (process_of-Comes e user_id user_agent s.db s.random R s s.dkg result refl h reached eq))
  processed-Goes s (some (err x)) eq h reached =
      one-Reaches _ _ (abandons running s.db s.random (metadata_of s.written) tt)
  processed-Goes s (some panic) eq h reached = tt

  checked-Goes :
      (s : State e) (result : DkgResult) (r : Outcome (Unit {0}) × List GoError)
      → Goes (checks result) s (checked e s result r)
  unfolding Goes checked gives_up Ends view phase IsOpen
  checked-Goes s result (ok u, errs) = here
  checked-Goes s result (err x, errs) =
      one-Reaches _ _ (abandons (ready result) s.db s.random (metadata_of s.written) tt)
  checked-Goes s result (panic, errs) = tt

  stored-Goes :
      (s : State e) (result : DkgResult) (r : Outcome (Str × Db × e.crypto.Random))
      → store_wallet e.crypto user_id s.client_peer_id user_agent result s.db s.random ≡ r
      → Goes (stores result) s (stored e s r)
  unfolding Goes stored gives_up Ends view phase IsOpen
  stored-Goes s result (ok (m, db, r)) eq =
      one-Reaches _ _
        (keeps_wallet s.client_peer_id result m s.db db s.random r (metadata_of s.written) eq)
  stored-Goes s result (err x) eq =
      one-Reaches _ _ (abandons (ready result) s.db s.random (metadata_of s.written) tt)
  stored-Goes s result panic eq = tt

  metadata_sent-Goes :
      (s : State e) (m : Str) (write : Outcome (Unit {0}))
      → Goes (sends_metadata m) s (metadata_sent e s m write)
  unfolding Goes metadata_sent gives_up Ends view phase IsOpen
  metadata_sent-Goes s m (ok u) =
      transport
        (λ i.
          Reaches (at (sends_metadata m) s)
            (sent, s.db, s.random, sym (metadata_of-snoc_metadata s.written m) i))
        (one-Reaches _ _ (sends m s.db s.random (metadata_of s.written)))
  metadata_sent-Goes s m (err x) =
      one-Reaches _ _ (abandons (stored_as m) s.db s.random (metadata_of s.written) tt)
  metadata_sent-Goes s m panic = tt

  stays-Goes : (m : Main) (s : State e) → s.main ≡ m → Goes m s (ok s)
  unfolding Goes Ends view
  stays-Goes m s h =
      same-Reaches _ _ (ap (λ n. (phase n, s.db, s.random, metadata_of s.written)) (sym h))

  waits_done-Goes :
      (s : State e) (done : Bool)
      → s.main ≡ waits_done
      → Goes waits_done s
          (if done then ok (record s { main = finished; cancelled = true }) else ok s)
  unfolding Goes Ends view phase
  waits_done-Goes s true h = one-Reaches _ _ (completes s.db s.random (metadata_of s.written))
  waits_done-Goes s false h = stays-Goes waits_done s h

  main_turn-Goes :
      (m : Main) (s : State e) (write : Outcome (Unit {0}))
      → s.main ≡ m
      → R s
      → Goes m s (main_turn e user_id user_agent m s write)
  unfolding main_turn
  main_turn-Goes waits_start s write h reached = stays-Goes waits_start s h
  main_turn-Goes processes s write h reached = processed-Goes s _ refl h reached
  main_turn-Goes (checks result) s write h reached =
      checked-Goes s result (process_errors e.is_normal_closure s.cancelled s.errs)
  main_turn-Goes (stores result) s write h reached = stored-Goes s result _ refl
  main_turn-Goes (sends_metadata m) s write h reached = metadata_sent-Goes s m write
  main_turn-Goes waits_done s write h reached = waits_done-Goes s s.server_done h
  main_turn-Goes finished s write h reached = stays-Goes finished s h
  main_turn-Goes failed s write h reached = stays-Goes failed s h

  rendezvous-Goes :
      (r : Reader) (m : Main) (s : State e)
      → s.main ≡ m
      → Goes m s (ok (rendezvous e user_id user_agent r m s))
  unfolding rendezvous Goes Ends view phase
  rendezvous-Goes offers_start waits_start s h =
      one-Reaches _ _ (begins s.db s.random (metadata_of s.written))
  rendezvous-Goes offers_start processes s h = stays-Goes processes s h
  rendezvous-Goes offers_start (checks result) s h = stays-Goes (checks result) s h
  rendezvous-Goes offers_start (stores result) s h = stays-Goes (stores result) s h
  rendezvous-Goes offers_start (sends_metadata m) s h = stays-Goes (sends_metadata m) s h
  rendezvous-Goes offers_start waits_done s h = stays-Goes waits_done s h
  rendezvous-Goes offers_start finished s h = stays-Goes finished s h
  rendezvous-Goes offers_start failed s h = stays-Goes failed s h
  rendezvous-Goes reading m s h = stays-Goes m s h
  rendezvous-Goes sets_stage m s h = stays-Goes m s h
  rendezvous-Goes returned m s h = stays-Goes m s h

  others-Goes : (s : State e) (r : Outcome (State e)) → Ends (Keeps e s) r → Goes s.main s r
  unfolding Goes Ends view kept
  others-Goes s (ok s') keeps =
      same-Reaches _ _ (ap (λ (k : Kept e). (phase k.0, k.1, k.2, k.3)) (sym keeps.0))
  others-Goes s (err x) keeps = tt
  others-Goes s panic keeps = tt

  step-Goes : (s : State e) (x : Event e) → R s → Goes s.main s (step e user_id user_agent s x)
  unfolding step OfOthers
  step-Goes s starts reached = rendezvous-Goes s.reader s.main s refl
  step-Goes s (main_runs write) reached = main_turn-Goes s.main s write refl reached
  step-Goes s (reads msg write) reached =
      others-Goes s _ (step-Keeps e user_id user_agent s (reads msg write) tt)
  step-Goes s read_ends reached = others-Goes s _ (step-Keeps e user_id user_agent s read_ends tt)
  step-Goes s (read_fails x) reached =
      others-Goes s _ (step-Keeps e user_id user_agent s (read_fails x) tt)
  step-Goes s stage_set reached =
      others-Goes s (step e user_id user_agent s stage_set)
        (step-Keeps e user_id user_agent s stage_set tt)
  step-Goes s (sender_runs write) reached =
      others-Goes s _ (step-Keeps e user_id user_agent s (sender_runs write) tt)
  step-Goes s (tss_sends to message) reached =
      others-Goes s _ (step-Keeps e user_id user_agent s (tss_sends to message) tt)
  step-Goes s (tss_changes old_state new_state) reached =
      others-Goes s _ (step-Keeps e user_id user_agent s (tss_changes old_state new_state) tt)
  step-Goes s request_cancelled reached =
      others-Goes s (step e user_id user_agent s request_cancelled)
        (step-Keeps e user_id user_agent s request_cancelled tt)
  step-Goes s sender_ends reached =
      others-Goes s (step e user_id user_agent s sender_ends)
        (step-Keeps e user_id user_agent s sender_ends tt)

  Reaches-trans : (u v w : View) → Reaches u v → Reaches v w → Reaches u w
  Reaches-trans u v w h here = h
  Reaches-trans u v w h (further x y k next) = further x w (Reaches-trans u v x h k) next

  run-Next :
      (events : List (Event e)) (s s' : State e)
      → ((t : State e) (before after : List (Event e))
          → before ++ after ≡ events
          → run e user_id user_agent s before ≡ ok t
          → R t)
      → run e user_id user_agent s events ≡ ok s'
      → Reaches (view s) (view s')
  unfolding run Goes Ends view
  run-Next [] s s' t h = Ends-ok (λ t. Reaches (view s) (view t)) (ok s) h here
  run-Next (x ∷ xs) s s' t h =
      let (s₁, h₁, h₂) = >>=-eq-ok (step e user_id user_agent s x) _ h in
      Reaches-trans (view s) (view s₁) (view s')
        (Ends-ok (λ t. Reaches (view s) (view t)) _ h₁ (step-Goes s x (t s [] (x ∷ xs) refl refl)))
        (run-Next xs s₁ s'
          (λ g before after same r.
            t g (x ∷ before) after (ap (λ l. x ∷ l) same)
              (ap (λ q. q >>= λ u. run e user_id user_agent u before) h₁ ∙ r))
          h₂)

module _ (e : Setting) (user_id user_agent : Str) where
  -- The run from the first state goes through the second.
  unfoldable pub Passes : State e → List (Event e) → State e → Type 0
  Passes s events t =
      (before : List (Event e)) × (after : List (Event e)) × (before ++ after ≡ events)
      × (run e user_id user_agent s before ≡ ok t)

  -- Every run of the handler with its goroutines is, in the phase, the database, the random bytes and the
  -- metadata sent, a run of the protocol: begin, obtain the result that the process of the handler's
  -- DKG has given, store it by StoreWallet, send what that returned, complete, and give up only
  -- before the metadata is sent.
  pub run-Reaches :
      (events : List (Event e)) (s s' : State e)
      → run e user_id user_agent s events ≡ ok s'
      → Reaches e user_id user_agent
          (Passes s events)
          (view e user_id user_agent (Passes s events) s)
          (view e user_id user_agent (Passes s events) s')
  unfolding Passes
  run-Reaches events s s' h =
      run-Next e user_id user_agent (Passes s events) events s s'
        (λ g before after same r. (before, after, same, r)) h
