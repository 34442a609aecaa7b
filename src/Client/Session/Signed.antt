-- ===== src/Client/Session/Signed.antt =====
-- What Sign of the client returns (client/client.go), whatever the order of its goroutines.
use meemaw.Prelude.{
  ◌≡◌, refl, sym, ap, transport, ℕ, ◌<◌, Bool, true, false, List, [], ◌∷◌, Option, none, some,
  if◌then◌else◌, Outcome, ok, err, panic, >>=-eq-ok, Ends, Ends-ok, Ends->>=, GoError, Str, Dict,
  ◌∙◌, ◌++◌, ◌>>=◌, keep_keys,
}
use meemaw.Tss.Signature.{Signature}
use meemaw.Tss.Signature.Layout.{IsLayout}
use meemaw.Tss.Actors.{Party, server_id, keeps, make_service}
use meemaw.Encoding.Hex.{Bytes}
use meemaw.Tss.Wallet.{DkgResult, Pubkey, PubkeyStr, Bk, new_pubkey}
use meemaw.Tss.PeerManager.{add_peer, new_peer_manager}
use meemaw.Client.{Web, or_error, sign_start, get_access_token, url_to_ws, dialled, sign_path}
use meemaw.Tss.Actors.Signer.{init_signer, new_client_signer, signer_with}
use meemaw.Tss.Actors.Signer.{SignerConfig, client_signer_next, client_signer_process}
use meemaw.Tss.Actors.Signer.Signed.{client_signer_process-IsLayout}
use meemaw.Tss.Actors.Signer.Endpoint.{turn-config, process_changes-config, process_sends}
use meemaw.Tss.Connection.{Connection, receives, sends}
use meemaw.Client.Session.{
  Setting, Main, processes, waits_errs, returned, State, Event, reads, writes, main_runs, tss_sends,
  tss_changes, processed, ended, main_turn, with_connection, step, run, initial,
}

module _ (e : Setting) where
  open e use {a, lib, ecdsa, messages}

  abbrev config_of : Party SignerConfig lib → SignerConfig
  config_of p = p.service.config

  abbrev config_from : SignerConfig → Outcome (Party SignerConfig lib) → SignerConfig
  config_from k (ok p) = config_of p
  config_from k (err x) = k
  config_from k panic = k

  kept : State e → SignerConfig × Main
  kept s = (config_of s.connection.tss, s.main)

  with_connection-Keeps :
      (s : State e) (r : Outcome (Connection (Party SignerConfig lib)))
      → Ends
          (λ (c : Connection (Party SignerConfig lib)).
            config_of c.tss ≡ config_of s.connection.tss)
          r
      → Ends (λ s'. kept s' ≡ kept s) (with_connection e s r)
  unfolding with_connection kept Ends
  with_connection-Keeps s r h =
      Ends->>=
        (λ (c : Connection (Party SignerConfig lib)). config_of c.tss ≡ config_of s.connection.tss)
        (λ (s' : State e). kept s' ≡ kept s) r (λ c. ok (record s { connection = c })) h
        (λ c same. ap (λ k. (k, s.main)) same)

  module _ (signer : Party SignerConfig lib) where
    -- A signature for the key and the message that the signer keeps.
    record IsSigned (out : Signature) : Type 0 where
      v : ℕ
      small : v < 2
      layout : IsLayout out.r out.s v out.signature
      verified :
          ecdsa.verify (config_of signer).pubkey (config_of signer).message out.r out.s ≡ true

    AtResult : Outcome Signature → Type 0
    AtResult (ok out) = IsSigned out
    AtResult (err x) = Unit
    AtResult panic = ⊥

    At : Main → Type 0
    unfolding AtResult
    At processes = Unit
    At (waits_errs out) = IsSigned out
    At (returned r) = AtResult r

    AtKept : SignerConfig × Main → Type 0
    unfolding At
    AtKept (config, main) = (config ≡ config_of signer) × At main

    Sound : State e → Type 0
    unfolding AtKept
    Sound s = AtKept (kept s)

    process-IsSigned :
        (p : Party SignerConfig lib) (out : Signature)
        → config_of p ≡ config_of signer
        → client_signer_process a lib e.signers ecdsa p ≡ some (ok out)
        → IsSigned out
    process-IsSigned p out same h =
        let (v, small, layout, verified) =
          client_signer_process-IsLayout a lib e.signers ecdsa p out h in
        record { v = v; small = small; layout = layout; verified = rw (← same) verified }

    processed-Sound :
        (s : State e) (r : Option (Outcome Signature))
        → client_signer_process a lib e.signers ecdsa s.connection.tss ≡ r
        → Sound s
        → Ends Sound (processed e s r)
    unfolding processed Ends Sound AtKept At AtResult kept
    processed-Sound s none eq sound = sound
    processed-Sound s (some (ok out)) eq (config, at) =
        (config, process-IsSigned s.connection.tss out config eq)
    processed-Sound s (some (err x)) eq (config, at) = (config, tt)
    processed-Sound s (some panic) eq sound = tt

    result-At :
        (cancelled : Bool) (x : GoError) (out : Signature)
        → IsSigned out
        → AtResult (if cancelled then err x else ok out)
    unfolding AtResult
    result-At true x out h = tt
    result-At false x out h = h

    ended-Sound :
        (s : State e) (out : Signature) (errs : List GoError)
        → Sound s
        → IsSigned out
        → Ends Sound (ended e s out errs)
    unfolding ended Ends Sound AtKept At kept
    ended-Sound s out [] sound signed = sound
    ended-Sound s out (x ∷ errs) sound signed = (sound.0, result-At s.cancelled x out signed)

    main_turn-Sound : (m : Main) (s : State e) → Sound s → At m → Ends Sound (main_turn e m s)
    unfolding main_turn Ends At
    main_turn-Sound processes s sound at = processed-Sound s _ refl sound
    main_turn-Sound (waits_errs out) s sound at = ended-Sound s out s.connection.errs sound at
    main_turn-Sound (returned r) s sound at = sound

    keeps-Sound :
        (s : State e) (r : Outcome (State e))
        → Ends (λ s'. kept s' ≡ kept s) r
        → Sound s
        → Ends Sound r
    unfolding Ends Sound
    keeps-Sound s (ok s') same sound = transport (λ i. AtKept (sym same i)) sound
    keeps-Sound s (err x) same sound = tt
    keeps-Sound s panic same sound = tt

    step-Sound : (s : State e) (x : Event e) → Sound s → Ends Sound (step e s x)
    unfolding step Ends Sound AtKept kept process_sends
    step-Sound s (reads read) sound =
        keeps-Sound s _
          (with_connection-Keeps s _ (
            turn-config a lib e.signers (client_signer_next a lib e.signers) messages s.connection
              (receives s.cancelled read)))
          sound
    step-Sound s (writes write) sound =
        keeps-Sound s _
          (with_connection-Keeps s _ (
            turn-config a lib e.signers (client_signer_next a lib e.signers) messages s.connection
              (sends s.cancelled write)))
          sound
    step-Sound s main_runs sound = main_turn-Sound s.main s sound sound.1
    step-Sound s (tss_sends to message) sound = sound
    step-Sound s (tss_changes old_state new_state) sound =
        keeps-Sound s _
          (with_connection-Keeps s _ (process_changes-config lib s.connection old_state new_state))
          sound

    run-Sound : (s s' : State e) (xs : List (Event e)) → Sound s → run e s xs ≡ ok s' → Sound s'
    unfolding run Ends
    run-Sound s s' [] sound h = Ends-ok Sound (ok s) h sound
    run-Sound s s' (x ∷ xs) sound h =
        let (s₁, h₁, h₂) = >>=-eq-ok (step e s x) _ h in
        run-Sound s₁ s' xs (Ends-ok Sound _ h₁ (step-Sound s x sound)) h₂

    run-config :
        (xs : List (Event e)) (s : State e) (out : Signature)
        → run e (initial e signer) xs ≡ ok s
        → s.main ≡ returned (ok out)
        → IsSigned out
    unfolding Sound AtKept At AtResult kept
    run-config xs s out h is_returned =
        transport (λ i. At (is_returned i)) (run-Sound _ s xs (refl, tt) h).1

module _ (e : Setting) (w : Web) where
  open e use {a, lib, signers, ecdsa}

  -- What a signature is for the arguments of Sign: the 65 bytes of its two numbers with a recovery id of
  -- 0 or 1, which ECDSA verification accepts for the public key that the wallet's text names and for
  -- the message.
  pub record IsSignatureOf (message : Bytes) (dkg_result_str : Str) (out : Signature) : Type 0 where
    pub wallet : DkgResult
    pub decoded : w.unmarshal_json dkg_result_str ≡ ok wallet
    pub key : Pubkey
    pub named : new_pubkey wallet.pubkey ≡ ok key
    pub v : ℕ
    pub small : v < 2
    pub layout : IsLayout out.r out.s v out.signature
    pub verified : ecdsa.verify key message out.r out.s ≡ true

  or_error-ok :
      {A B : Type 0} (r : Outcome A) (x : GoError) (k : A → Outcome B) (y : B)
      → or_error r x k ≡ ok y
      → (z : A) × (r ≡ ok z) × (k z ≡ ok y)
  or_error-ok (ok z) x k y h = (z, refl, h)
  or_error-ok (err e) x k y h = cc h
  or_error-ok panic x k y h = cc h

  abbrev signer_from :
      Party SignerConfig lib → Outcome (w.Conn × Party SignerConfig lib) → Party SignerConfig lib
  signer_from p (ok (c, q)) = q
  signer_from p (err x) = p
  signer_from p panic = p

  new_client_signer-config :
      (peer_id : Str) (pubkey_str : PubkeyStr) (share : Str) (bks : Dict Bk) (message : Bytes)
      (signer : Party SignerConfig lib)
      → new_client_signer a lib signers peer_id pubkey_str share bks message ≡ ok signer
      → (new_pubkey pubkey_str ≡ ok (config_of e signer).pubkey)
        × ((config_of e signer).message ≡ message)
  unfolding new_client_signer signer_with make_service
  new_client_signer-config peer_id pubkey_str share bks message signer h =
      let (key, named, h₁) = >>=-eq-ok (new_pubkey pubkey_str) _ h in
      let config : SignerConfig = record {
        pubkey = key;
        share = share;
        bks = keep_keys (keeps peer_id) bks;
        message = message;
      } in
      let (actor, _, h₂) =
        >>=-eq-ok (init_signer a lib signers config (add_peer (new_peer_manager peer_id) server_id))
          _ h₁ in
      let same : config ≡ config_of e signer = ap (config_from e config) h₂ in
      (
        named ∙ ap (λ (k : SignerConfig). ok k.pubkey) same,
        sym (ap (λ (k : SignerConfig). k.message) same),
      )

  abbrev Started : Type 0
  Started = w.Conn × Party SignerConfig lib

  abbrev ends : w.Conn → Party SignerConfig lib → Outcome Started
  ends conn p = ok (conn, p)

  abbrev made_of : DkgResult → Bytes → Outcome (Party SignerConfig lib)
  made_of wallet message =
      new_client_signer a lib signers wallet.peer_id wallet.pubkey wallet.share wallet.bks message

  -- Sign from the connection on.
  abbrev dials : Bytes → Str → DkgResult → Str → Outcome Started
  dials message token wallet ws_host =
      dialled w (w.dial (ws_host ++ sign_path w message token wallet.peer_id)) >>= λ conn.
      or_error (made_of wallet message) GoError.bad_request (ends conn)

  -- Sign from the decoding of the wallet on.
  abbrev decodes : Str → Bytes → Str → Str → Outcome Started
  decodes host message dkg_result_str token =
      or_error (w.unmarshal_json dkg_result_str) GoError.bad_request
        (λ wallet. or_error (url_to_ws w host) GoError.bad_request (dials message token wallet))

  sign_start-config :
      (host : Str) (message : Bytes) (dkg_result_str metadata auth_data : Str) (c : w.Conn)
      (signer : Party SignerConfig lib)
      → sign_start w a lib signers host message dkg_result_str metadata auth_data ≡ ok (c, signer)
      → (wallet : DkgResult) × (w.unmarshal_json dkg_result_str ≡ ok wallet)
        × (new_pubkey wallet.pubkey ≡ ok (config_of e signer).pubkey)
        × ((config_of e signer).message ≡ message)
  unfolding sign_start
  sign_start-config host message dkg_result_str metadata auth_data c signer h =
      let (token, _, h₁) =
        or_error-ok (get_access_token w host metadata auth_data) GoError.unauthorized
          (decodes host message dkg_result_str) _ h in
      let (wallet, decoded, h₂) =
        or_error-ok (w.unmarshal_json dkg_result_str) GoError.bad_request
          (λ wallet. or_error (url_to_ws w host) GoError.bad_request (dials message token wallet)) _
          h₁ in
      let (ws_host, _, h₃) =
        or_error-ok (url_to_ws w host) GoError.bad_request (dials message token wallet) _ h₂ in
      let (conn, _, h₄) =
        >>=-eq-ok (dialled w (w.dial (ws_host ++ sign_path w message token wallet.peer_id)))
          (λ c. or_error (made_of wallet message) GoError.bad_request (ends c)) h₃ in
      let (made, is_made, h₅) =
        or_error-ok (made_of wallet message) GoError.bad_request (ends conn) _ h₄ in
      let same : made ≡ signer = ap (λ r. signer_from made r) h₅ in
      let (named, same_message) =
        new_client_signer-config wallet.peer_id wallet.pubkey wallet.share wallet.bks message signer
          (is_made ∙ ap ok same) in
      (wallet, decoded, named, same_message)

  -- Sign of the client has started for a message and the text of a wallet. However its goroutines run
  -- then, a signature that it returns is the 65 bytes of its numbers with a recovery id of 0 or 1, and
  -- ECDSA verification accepts it for the public key of that wallet and for that message.
  pub run-IsSignatureOf :
      (host : Str) (message : Bytes) (dkg_result_str metadata auth_data : Str) (c : w.Conn)
      (signer : Party SignerConfig lib) (xs : List (Event e)) (s : State e) (out : Signature)
      → sign_start w a lib signers host message dkg_result_str metadata auth_data ≡ ok (c, signer)
      → run e (initial e signer) xs ≡ ok s
      → s.main ≡ returned (ok out)
      → IsSignatureOf message dkg_result_str out
  run-IsSignatureOf host message dkg_result_str metadata auth_data c signer xs s out started h
        is_returned =
      let (wallet, decoded, named, same) =
        sign_start-config host message dkg_result_str metadata auth_data c signer started in
      let signed = run-config e signer xs s out h is_returned in
      record {
        wallet = wallet;
        decoded = decoded;
        key = (config_of e signer).pubkey;
        named = named;
        v = signed.v;
        small = signed.small;
        layout = signed.layout;
        verified = rw (← same) signed.verified;
      }
