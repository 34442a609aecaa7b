-- ===== src/Server/Sign/Session.antt =====
-- What a signing session of the server leaves (server/tss_sign.go), whatever the order of its goroutines.
use meemaw.Prelude.{
  ◌≡◌, refl, sym, ap, transport, ℕ, ◌<◌, true, List, [], ◌∷◌, Option, none, some, Str, Outcome, ok,
  err, panic, >>=-eq-ok, Ends, Ends-ok, Ends->>=,
}
use meemaw.Tss.Signature.{Signature}
use meemaw.Tss.Signature.Layout.{IsLayout}
use meemaw.Tss.Actors.Signer.Signed.{server_signer_process-IsLayout}
use meemaw.Tss.Actors.Signer.{SignerConfig, server_signer_process, server_signer_next}
use meemaw.Tss.Connection.{Connection, receives, sends}
use meemaw.Tss.Actors.Signer.Endpoint.{turn-config, process_changes-config, process_sends}
use meemaw.Server.Sign.{
  Setting, Signer, Main, processes, sleeps, finished, failed, State, Event, reads, writes,
  main_runs, tss_sends, tss_changes, request_cancelled, processed, main_turn, step, run, initial,
  with_connection_of,
}

module _ (e : Setting) (token : Str) where
  open e use {a, lib, ecdsa, messages, cache}

  abbrev config_of : Signer e → SignerConfig
  config_of p = p.service.config

  -- What the handler itself does, and what the signer was made from.
  abbrev pub Kept : Type 0
  Kept = SignerConfig × Main × cache.Store

  kept : State e → Kept
  kept s = (config_of s.connection.tss, s.main, s.store)

  with_connection_of-Keeps :
      (s : State e) (r : Outcome (Connection (Signer e)))
      → Ends (λ (c : Connection (Signer e)). config_of c.tss ≡ config_of s.connection.tss) r
      → Ends (λ s'. kept s' ≡ kept s) (with_connection_of e token s r)
  unfolding with_connection_of kept Ends
  with_connection_of-Keeps s r h =
      Ends->>= (λ (c : Connection (Signer e)). config_of c.tss ≡ config_of s.connection.tss)
        (λ (s' : State e). kept s' ≡ kept s) r (λ c. ok (record s { connection = c })) h
        (λ c same. ap (λ k. (k, s.main, s.store)) same)

  module _ (signer : Signer e) (store₀ : cache.Store) where
    -- What the signature of the session is: 65 bytes of its two numbers with a recovery id of 0 or 1, which
    -- ECDSA verification accepts for the wallet's key and the message.
    pub record IsSigned (out : Signature) : Type 0 where
      pub v : ℕ
      pub small : v < 2
      pub layout : IsLayout out.r out.s v out.signature
      pub verified :
          ecdsa.verify (config_of signer).pubkey (config_of signer).message out.r out.s ≡ true

    -- What holds at each place of the handler of the cache of tokens and of the signature.
    unfoldable pub At : Main → cache.Store → Type 0
    At processes store = store ≡ store₀
    At (sleeps out) store = (store ≡ store₀) × IsSigned out
    At (finished out) store = (store ≡ cache.delete token store₀) × IsSigned out
    At failed store = store ≡ store₀

    AtKept : Kept → Type 0
    unfolding At
    AtKept (config, main, store) = (config ≡ config_of signer) × At main store

    Sound : State e → Type 0
    unfolding AtKept
    Sound s = AtKept (kept s)

    process-IsSigned :
        (p : Signer e) (out : Signature)
        → config_of p ≡ config_of signer
        → server_signer_process a lib e.signers ecdsa p ≡ some (ok out)
        → IsSigned out
    process-IsSigned p out same h =
        let (v, small, layout, verified) =
          server_signer_process-IsLayout a lib e.signers ecdsa p out h in
        record { v = v; small = small; layout = layout; verified = rw (← same) verified }

    processed-Sound :
        (s : State e) (r : Option (Outcome Signature))
        → server_signer_process a lib e.signers ecdsa s.connection.tss ≡ r
        → Sound s
        → s.store ≡ store₀
        → Ends Sound (processed e token s r)
    unfolding processed Ends Sound AtKept At kept
    processed-Sound s none eq sound same = sound
    processed-Sound s (some (ok out)) eq (config, at) same =
        (config, (same, process-IsSigned s.connection.tss out config eq))
    processed-Sound s (some (err x)) eq (config, at) same = (config, same)
    processed-Sound s (some panic) eq sound same = tt

    main_turn-Sound :
        (m : Main) (s : State e) → Sound s → At m s.store → Ends Sound (main_turn e token m s)
    unfolding main_turn Ends Sound AtKept At kept
    main_turn-Sound processes s sound at = processed-Sound s _ refl sound at
    main_turn-Sound (sleeps out) s sound at = (sound.0, (ap (cache.delete token) at.0, at.1))
    main_turn-Sound (finished out) s sound at = sound
    main_turn-Sound failed s sound at = sound

    keeps-Sound :
        (s : State e) (r : Outcome (State e))
        → Ends (λ s'. kept s' ≡ kept s) r
        → Sound s
        → Ends Sound r
    unfolding Ends Sound
    keeps-Sound s (ok s') same sound = transport (λ i. AtKept (sym same i)) sound
    keeps-Sound s (err x) same sound = tt
    keeps-Sound s panic same sound = tt

    step-Sound : (s : State e) (x : Event e) → Sound s → Ends Sound (step e token s x)
    unfolding step Ends Sound AtKept kept process_sends
    step-Sound s (reads read) sound =
        keeps-Sound s _
          (with_connection_of-Keeps s _ (
            turn-config a lib e.signers (server_signer_next a lib e.signers) messages s.connection
              (receives s.done read)))
          sound
    step-Sound s (writes write) sound =
        keeps-Sound s _
          (with_connection_of-Keeps s _ (
            turn-config a lib e.signers (server_signer_next a lib e.signers) messages s.connection
              (sends s.done write)))
          sound
    step-Sound s main_runs sound = main_turn-Sound s.main s sound sound.1
    step-Sound s (tss_sends to message) sound = sound
    step-Sound s (tss_changes old_state new_state) sound =
        keeps-Sound s _
          (with_connection_of-Keeps s _
            (process_changes-config lib s.connection old_state new_state))
          sound
    step-Sound s request_cancelled sound = sound

    run-Sound :
        (s s' : State e) (xs : List (Event e)) → Sound s → run e token s xs ≡ ok s' → Sound s'
    unfolding run Ends
    run-Sound s s' [] sound h = Ends-ok Sound (ok s) h sound
    run-Sound s s' (x ∷ xs) sound h =
        let (s₁, h₁, h₂) = >>=-eq-ok (step e token s x) _ h in
        run-Sound s₁ s' xs (Ends-ok Sound _ h₁ (step-Sound s x sound)) h₂

    -- However the goroutines of a signing session run, the access token is deleted exactly when the handler
    -- has finished with a signature; that signature, from the moment the process gave it, is the 65 bytes
    -- of its numbers with a recovery id of 0 or 1, and verifies for the key and the message that the
    -- session began with. A session that has failed or still runs has left the cache as it was.
    pub run-At_session :
        (xs : List (Event e)) (s : State e)
        → run e token (initial e token signer store₀) xs ≡ ok s
        → At s.main s.store
    unfolding Sound AtKept At kept
    run-At_session xs s h = (run-Sound _ s xs (refl, refl) h).1
