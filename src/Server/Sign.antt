-- ===== src/Server/Sign.antt =====
-- SignHandler (server/tss_sign.go): what it checks before the connection, and the signing itself, during which
-- the goroutines of Send and Receive and the process of the library run beside the handler.
pub mod Session
pub mod Begun
use meemaw.Prelude.{
  ℕ, Bool, true, false, List, [], ◌∷◌, Option, none, some, Str, str, is_empty, lookup,
  if◌then◌else◌, Outcome, ok, err, panic, ◌>>=◌, GoError,
}
use meemaw.Encoding.Hex.{Bytes, decode}
use meemaw.Tss.Alice.{Alice}
use meemaw.Tss.Wallet.{DkgResult}
use meemaw.Tss.Signature.{Ecdsa, Signature}
use meemaw.Tss.PeerManager.{Payload}
use meemaw.Tss.Service.{Library, MainState}
use meemaw.Tss.Actors.{Party}
use meemaw.Tss.Actors.Signer.{
  SignerConfig, SignerOutput, SignerLibrary, new_server_signer, server_signer_next,
  server_signer_process,
}
use meemaw.Tss.Actors.Signer.Endpoint.{endpoint, process_sends, process_changes}
use meemaw.Tss.Connection.{GenericTss, Messages, Connection, Turn, receives, sends, turn, opened}
use meemaw.Server.Database.{Db}
use meemaw.Server.Vault.{Crypto, retrieve_wallet}
use meemaw.Server.Auth.{Context, Response, http_error, no_authorization, Cache}
use meemaw.Server.Export.{wallet_error, recover_error}
use meemaw.Server.Origin.{Upgrade, Start, answers, begins, internal_server_error, connect}

pub record Setting : Type 1 where
  pub a : Alice
  pub lib : Library SignerOutput
  pub signers : SignerLibrary a lib
  pub ecdsa : Ecdsa
  pub crypto : Crypto
  pub messages : Messages lib.M
  pub cache : Cache

-- The URL parameters `msg` and `peer`; a missing one is "".
pub record Query : Type 0 where
  pub msg : Str
  pub peer : Str

module _ (e : Setting) where
  open e use {a, lib, signers, crypto}

  abbrev pub Signer : Type 0
  Signer = Party SignerConfig lib

  -- The token with the signer, once there is a connection.
  with_connection : {C : Type 0} → Str → Signer → Start C → Start (Str × Signer)
  with_connection token signer (answers response) = answers response
  with_connection token signer (begins conn) = begins (token, signer)

  with_signer : Upgrade → Str → Str → Outcome Signer → Outcome (Start (Str × Signer))
  unfolding with_connection connect recover_error
  with_signer u client_origin token (ok signer) =
      connect u client_origin >>= λ r. ok (with_connection token signer r)
  with_signer u client_origin token (err x) = ok (answers (recover_error x))
  with_signer u client_origin token panic = panic

  with_wallet :
      Upgrade → Str → Str → Str → Bytes → Outcome DkgResult → Outcome (Start (Str × Signer))
  unfolding with_signer wallet_error
  with_wallet u client_origin token peer message (ok w) =
      with_signer u client_origin token
        (new_server_signer a lib signers peer w.pubkey w.share w.bks message)
  with_wallet u client_origin token peer message (err x) = ok (answers (wallet_error x))
  with_wallet u client_origin token peer message panic = panic

  with_message :
      Upgrade
      → Str
      → Context
      → Db
      → Str
      → Str
      → Str
      → Outcome Bytes
      → Outcome (Start (Str × Signer))
  unfolding with_wallet retrieve_wallet
  with_message u client_origin ctx db user_id token peer (ok message) =
      with_wallet u client_origin token peer message
        (retrieve_wallet crypto (lookup (str "metadata") ctx) user_id db)
  with_message u client_origin ctx db user_id token peer (err x) =
      ok (answers internal_server_error)
  with_message u client_origin ctx db user_id token peer panic = panic

  authorized :
      Upgrade
      → Str
      → Context
      → Query
      → Db
      → Option Str
      → Option Str
      → Outcome (Start (Str × Signer))
  unfolding with_message
  authorized u client_origin ctx q db (some user_id) (some token) =
      if is_empty q.msg
      then ok (answers (http_error (str "No message to be signed") 400))
      else with_message u client_origin ctx db user_id token q.peer (decode q.msg)
  authorized u client_origin ctx q db _ _ = ok (answers no_authorization)

  -- Up to the connection.
  unfoldable pub sign_start : Upgrade → Str → Context → Query → Db → Outcome (Start (Str × Signer))
  unfolding authorized
  sign_start u client_origin ctx q db =
      authorized u client_origin ctx q db (lookup (str "userId") ctx) (lookup (str "token") ctx)

-- Where the handler stands: in signer.Process, in the second of sleep after it, or it has returned.
pub data Main : Type 0 where
  processes : Main
  sleeps : Signature → Main
  finished : Signature → Main
  failed : Main

pub record State (e : Setting) : Type 0 where
  pub connection : Connection (Signer e)
  pub main : Main
  pub done : Bool  -- the context is done
  pub store : e.cache.Store

-- Send and Receive take turns with the process and the handler. The process of the library acts through
-- `tss_sends` and `tss_changes`.
pub data Event (e : Setting) : Type 0 where
  reads : Outcome Str → Event e
  writes : Outcome (Unit {0}) → Event e
  main_runs : Event e
  tss_sends : Str → Payload e.lib.M → Event e
  tss_changes : MainState → MainState → Event e
  request_cancelled : Event e

module _ (e : Setting) (token : Str) where
  open e use {a, lib, ecdsa, messages, cache}

  -- The signer as Send and Receive see it.
  abbrev pub server_tss : GenericTss (Signer e) lib.M
  server_tss = endpoint a lib e.signers (server_signer_next a lib e.signers)

  with_connection_of : State e → Outcome (Connection (Signer e)) → Outcome (State e)
  with_connection_of s r = r >>= λ c. ok (record s { connection = c })

  -- What signer.Process returns, once it does.
  unfoldable pub processed : State e → Option (Outcome Signature) → Outcome (State e)
  processed s none = ok s
  processed s (some (ok signature)) = ok (record s { main = sleeps signature })
  processed s (some (err x)) = ok (record s { main = failed; done = true })
  processed s (some panic) = panic

  unfoldable pub main_turn : Main → State e → Outcome (State e)
  unfolding processed server_signer_process
  main_turn processes s = processed s (server_signer_process a lib e.signers ecdsa s.connection.tss)
  main_turn (sleeps signature) s =
      ok (record s { main = finished signature; done = true; store = cache.delete token s.store })
  main_turn (finished signature) s = ok s
  main_turn failed s = ok s

  unfoldable pub step : State e → Event e → Outcome (State e)
  unfolding with_connection_of main_turn endpoint turn process_sends process_changes
      server_signer_next
  step s (reads read) =
      with_connection_of s (turn messages server_tss s.connection (receives s.done read))
  step s (writes write) =
      with_connection_of s (turn messages server_tss s.connection (sends s.done write))
  step s main_runs = main_turn s.main s
  step s (tss_sends to message) =
      ok (record s { connection = process_sends lib s.connection to message })
  step s (tss_changes old_state new_state) =
      with_connection_of s (process_changes lib s.connection old_state new_state)
  step s request_cancelled = ok (record s { done = true })

  unfoldable pub run : State e → List (Event e) → Outcome (State e)
  run s [] = ok s
  run s (x ∷ xs) = step s x >>= λ s'. run s' xs

  -- When the goroutines start.
  abbrev pub initial : Signer e → cache.Store → State e
  initial signer store = record {
    connection = opened signer;
    main = processes;
    done = false;
    store = store;
  }
