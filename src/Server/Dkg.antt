-- ===== src/Server/Dkg.antt =====
-- DkgHandler (server/tss_dkg.go): its reading goroutine, the goroutine of TssSend, and the handler itself, which
-- run concurrently. `step` is one atomic step of one of them; a turn of a goroutine that has to wait
-- changes nothing. The process of the library acts through `tss_sends` and `tss_changes`.
pub mod Steps
pub mod Safety
pub mod Result
pub mod Stuck
pub mod Acks
pub mod Protocol
use meemaw.Prelude.{
  ℕ, Bool, true, false, ◌||◌, List, [], ◌∷◌, ◌++◌, Option, none, some, Str, str, lookup, ltb,
  if◌then◌else◌, Outcome, ok, err, panic, ◌>>=◌, GoError, no_rows,
}
use meemaw.Encoding.Hex.{Bytes}
use meemaw.Tss.Alice.{Alice}
use meemaw.Tss.Wallet.{DkgResult, Output}
use meemaw.Tss.PeerManager.{Message, PeerManager, Payload, must_send}
use meemaw.Tss.Service.{Library, Service, MainState, on_state_changed_dkg}
use meemaw.Tss.Actors.{
  Party, DkgConfig, new_server_dkg, dkg_handle_message, decode_message, server_dkg_next,
  server_dkg_process,
}
use meemaw.Ws.{
  WsMessage, MessageType, peer_id_broadcast_message, tss_message, metadata_message,
  metadata_ack_message, unexpected, switch, Round, stops, idles, sends, fails, crashes,
  tss_send_round, process_errors, read_tss,
}
use meemaw.Server.Database.{Db, User}
use meemaw.Server.Vault.{Crypto, wallet_exists, store_wallet}
use meemaw.Server.Auth.{Context, Response, http_error, no_authorization}
use meemaw.Server.Origin.{Upgrade, Start, answers, begins, connect}

-- What the handler calls: the process of the library, the vault's libraries, the JSON of a tss.Message and
-- websocket.CloseStatus(err) == StatusNormalClosure.
pub record Setting : Type 1 where
  pub a : Alice
  pub lib : Library (Output a)
  pub new_dkg : PeerManager lib.M lib.Actor → ℕ → ℕ → Outcome lib.Actor
  pub crypto : Crypto
  pub marshal_json : Message lib.M → Outcome Bytes
  pub unmarshal_json : Bytes → Outcome (Message lib.M)
  pub is_normal_closure : GoError → Bool

-- Where the reading goroutine stands: at wsjson.Read, at `startTss <- struct{}{}`, before `stage = 30`, or
-- it has returned.
pub data Reader : Type 0 where
  reading offers_start sets_stage returned : Reader

-- The goroutine of TssSend.
pub data Sender : Type 0 where
  not_started polling stopped : Sender

-- Where the handler stands: at `<-startTss`, in dkg.Process, before ProcessErrors, before StoreWallet, before
-- the metadata is written, at `<-serverDone`, or it has returned, after success or an error.
pub data Main : Type 0 where
  waits_start processes : Main
  checks stores : DkgResult → Main
  sends_metadata : Str → Main
  waits_done finished failed : Main

pub record State (e : Setting) : Type 0 where
  pub stage : ℕ
  pub client_peer_id : Str
  pub dkg : Option (Party DkgConfig e.lib)
  pub reader : Reader
  pub sender : Sender
  pub main : Main
  pub server_done : Bool  -- the channel is closed
  pub cancelled : Bool  -- ctx.Err() == context.Canceled
  pub errs : List GoError
  pub written : List WsMessage
  pub db : Db
  pub random : e.crypto.Random

abbrev conflict : Response
conflict = http_error (str "Conflict") 409

pub data Case : Type 0 where
  peer_id_case tss_case metadata_ack_case default_case : Case

unfoldable pub case_of : MessageType → Case
unfolding switch
case_of t =
    switch t
      ((peer_id_broadcast_message, peer_id_case)
        ∷ (tss_message, tss_case)
        ∷ (metadata_ack_message, metadata_ack_case)
        ∷ [])
      default_case

module _ (e : Setting) where
  open e use {a, lib, crypto}

  -- `errs <- err` and `return` in the reading goroutine.
  unfoldable pub reader_fails : State e → GoError → State e
  reader_fails s x = record s { errs = s.errs ++ x ∷ []; reader = returned }

  -- A write on the connection that is not followed by anything else.
  unfoldable pub writes : State e → WsMessage → Outcome (Unit {0}) → Outcome (State e)
  unfolding reader_fails
  writes s msg (ok u) = ok (record s { written = s.written ++ msg ∷ [] })
  writes s msg (err x) = ok (reader_fails s x)
  writes s msg panic = panic

  unfoldable pub prepares : State e → Str → Outcome (Party DkgConfig lib) → Outcome (State e)
  unfolding reader_fails
  prepares s peer_id (ok d) =
      ok (record s { client_peer_id = peer_id; dkg = some d; reader = offers_start })
  prepares s peer_id (err x) =
      ok (reader_fails (record s { client_peer_id = peer_id; dkg = none }) x)
  prepares s peer_id panic = panic

  -- HandleMessage of the *tss.ServerDkg, which is nil before the peer id has come.
  unfoldable pub handles :
      State e → Option (Party DkgConfig lib) → Message lib.M → Outcome (State e)
  unfolding dkg_handle_message
  handles s none m = decode_message lib m >>= λ _. panic
  handles s (some d) m = do
    service ← dkg_handle_message lib d.service m
    ok (record s { dkg = some (record d { service = service }) })

  or_fails : State e → Outcome (State e) → Outcome (State e)
  unfolding reader_fails
  or_fails s (ok s') = ok s'
  or_fails s (err x) = ok (reader_fails s x)
  or_fails s panic = panic

  -- The body of a case of the `switch`; `write` is what a write on the connection gives.
  unfoldable pub on_message : Case → State e → WsMessage → Outcome (Unit {0}) → Outcome (State e)
  unfolding prepares handles or_fails read_tss writes new_server_dkg
  on_message peer_id_case s msg write =
      if ltb msg.msg_type.msg_stage s.stage
      then ok s
      else prepares s msg.msg (new_server_dkg a lib e.new_dkg msg.msg)
  on_message tss_case s msg write =
      if ltb msg.msg_type.msg_stage s.stage
      then ok s
      else or_fails s (read_tss e.unmarshal_json msg.msg >>= λ m. handles s s.dkg m)
  on_message metadata_ack_case s msg write =
      if s.server_done then panic else ok (record s { server_done = true })
  on_message default_case s msg write = writes s unexpected write

  -- What dkg.Process returns, once it does.
  unfoldable pub processed : State e → Option (Outcome DkgResult) → Outcome (State e)
  processed s none = ok s
  processed s (some (ok result)) = ok (record s { main = checks result })
  processed s (some (err x)) = ok (record s { main = failed; cancelled = true })
  processed s (some panic) = panic

  pub process_of : Option (Party DkgConfig lib) → Option (Outcome DkgResult)
  unfolding server_dkg_process
  process_of none = none
  process_of (some d) = server_dkg_process a lib d

  -- What the deferred calls and an early return leave.
  unfoldable pub gives_up : State e → State e
  gives_up s = record s { main = failed; cancelled = true }

  unfoldable pub checked :
      State e → DkgResult → Outcome (Unit {0}) × List GoError → Outcome (State e)
  unfolding gives_up
  checked s result (ok u, errs) = ok (record s { main = stores result; stage = 40; errs = errs })
  checked s result (err x, errs) = ok (gives_up (record s { errs = errs }))
  checked s result (panic, errs) = panic

  unfoldable pub stored : State e → Outcome (Str × Db × crypto.Random) → Outcome (State e)
  unfolding gives_up
  stored s (ok (metadata, db, random)) =
      ok (record s { main = sends_metadata metadata; db = db; random = random })
  stored s (err x) = ok (gives_up s)
  stored s panic = panic

  unfoldable pub metadata_sent : State e → Str → Outcome (Unit {0}) → Outcome (State e)
  unfolding gives_up
  metadata_sent s metadata (ok u) = ok (record s {
    main = waits_done;
    written = s.written ++ record { msg_type = metadata_message; msg = metadata } ∷ [];
  })
  metadata_sent s metadata (err x) = ok (gives_up s)
  metadata_sent s metadata panic = panic

  module _ (user_id user_agent : Str) where
    -- The next step of the handler itself.
    unfoldable pub main_turn : Main → State e → Outcome (Unit {0}) → Outcome (State e)
    unfolding processed process_of checked stored metadata_sent gives_up process_errors store_wallet
    main_turn waits_start s write = ok s
    main_turn processes s write = processed s (process_of s.dkg)
    main_turn (checks result) s write =
        checked s result (process_errors e.is_normal_closure s.cancelled s.errs)
    main_turn (stores result) s write =
        stored s (store_wallet crypto user_id s.client_peer_id user_agent result s.db s.random)
    main_turn (sends_metadata metadata) s write = metadata_sent s metadata write
    main_turn waits_done s write =
        if s.server_done then ok (record s { main = finished; cancelled = true }) else ok s
    main_turn finished s write = ok s
    main_turn failed s write = ok s

  -- One round of TssSend over the manager of the DKG.
  sender_round : State e → Party DkgConfig lib → Round (PeerManager lib.M lib.Actor)
  unfolding tss_send_round server_dkg_next
  sender_round s d =
      tss_send_round e.marshal_json (s.cancelled || s.server_done)
        (λ pm. server_dkg_next a lib (record d { service = record d.service { pm = pm } }))
        d.service.pm

  with_manager : State e → Party DkgConfig lib → PeerManager lib.M lib.Actor → State e
  with_manager s d pm = record s {
    dkg = some (record d { service = record d.service { pm = pm } });
  }

  -- A message is taken off the queue also when it cannot be written.
  unfoldable pub sender_turn :
      State e
      → Party DkgConfig lib
      → Round (PeerManager lib.M lib.Actor)
      → Outcome (Unit {0})
      → Outcome (State e)
  unfolding with_manager
  sender_turn s d stops write = ok (record s { sender = stopped })
  sender_turn s d (idles pm) write = ok (with_manager s d pm)
  sender_turn s d (sends msg pm) (ok u) =
      ok (record (with_manager s d pm) { written = s.written ++ msg ∷ [] })
  sender_turn s d (sends msg pm) (err x) =
      ok (record (with_manager s d pm) { errs = s.errs ++ x ∷ []; sender = stopped })
  sender_turn s d (sends msg pm) panic = panic
  sender_turn s d (fails x pm) write =
      ok (record (with_manager s d pm) { errs = s.errs ++ x ∷ []; sender = stopped })
  sender_turn s d crashes write = panic

-- What can happen next; `sender_ends` is the end of the minute that TssSend has. `write` is what a
-- write on the connection gives; a read fails quietly when the context was cancelled or the
-- connection closed.
pub data Event (e : Setting) : Type 0 where
  reads : WsMessage → Outcome (Unit {0}) → Event e
  read_ends : Event e
  read_fails : GoError → Event e
  starts : Event e
  stage_set : Event e
  sender_runs : Outcome (Unit {0}) → Event e
  main_runs : Outcome (Unit {0}) → Event e
  tss_sends : Str → Payload e.lib.M → Event e
  tss_changes : MainState → MainState → Event e
  request_cancelled sender_ends : Event e

module _ (e : Setting) (user_id user_agent : Str) where
  open e use {a, lib, crypto}

  when_reading : Reader → State e → Outcome (State e) → Outcome (State e)
  when_reading reading s next = next
  when_reading _ s next = ok s

  -- The send and the receive on `startTss` happen together.
  unfoldable pub rendezvous : Reader → Main → State e → State e
  rendezvous offers_start waits_start s = record s {
    reader = sets_stage;
    main = processes;
    sender = polling;
  }
  rendezvous _ _ s = s

  unfoldable pub sets : Reader → State e → State e
  sets sets_stage s = record s { stage = 30; reader = reading }
  sets _ s = s

  unfoldable pub polls :
      Sender → Option (Party DkgConfig lib) → State e → Outcome (Unit {0}) → Outcome (State e)
  unfolding sender_turn sender_round
  polls polling (some d) s write = sender_turn e s d (sender_round e s d) write
  polls _ _ s write = ok s

  unfoldable pub ends : Sender → State e → State e
  ends polling s = record s { sender = stopped }
  ends _ s = s

  -- What the library's process does, through the service.
  unfoldable pub with_service :
      Option (Party DkgConfig lib)
      → State e
      → (Service DkgConfig lib → Outcome (Service DkgConfig lib))
      → Outcome (State e)
  with_service none s f = ok s
  with_service (some d) s f =
      f d.service >>= λ service. ok (record s { dkg = some (record d { service = service }) })

  unfoldable pub step : State e → Event e → Outcome (State e)
  unfolding when_reading case_of on_message reader_fails rendezvous sets ends polls main_turn
      with_service on_state_changed_dkg
  step s (reads msg write) =
      when_reading s.reader s (on_message e (case_of msg.msg_type) s msg write)
  step s read_ends = when_reading s.reader s (ok (record s { reader = returned }))
  step s (read_fails x) = when_reading s.reader s (ok (reader_fails e s x))
  step s starts = ok (rendezvous s.reader s.main s)
  step s stage_set = ok (sets s.reader s)
  step s (sender_runs write) = polls s.sender s.dkg s write
  step s (main_runs write) = main_turn e user_id user_agent s.main s write
  step s (tss_sends to message) =
      with_service s.dkg s (λ p. ok (record p { pm = must_send p.pm to message }))
  step s (tss_changes old_state new_state) =
      with_service s.dkg s (λ p. on_state_changed_dkg lib p old_state new_state)
  step s request_cancelled = ok (record s { cancelled = true })
  step s sender_ends = ok (ends s.sender s)

  unfoldable pub run : State e → List (Event e) → Outcome (State e)
  run s [] = ok s
  run s (x ∷ xs) = step s x >>= λ s'. run s' xs

module _ (e : Setting) where
  -- When the goroutines start.
  abbrev pub initial : Db → e.crypto.Random → State e
  initial db random = record {
    stage = 0;
    client_peer_id = [];
    dkg = none;
    reader = reading;
    sender = not_started;
    main = waits_start;
    server_done = false;
    cancelled = false;
    errs = [];
    written = [];
    db = db;
    random = random;
  }

  connected : {C : Type 0} → Str → Start C → Start Str
  connected user_id (answers response) = answers response
  connected user_id (begins conn) = begins user_id

  after_check : Upgrade → Str → Str → Outcome User → Outcome (Start Str)
  unfolding connected connect
  after_check u client_origin user_id (ok user) = ok (answers conflict)
  after_check u client_origin user_id (err no_rows) =
      connect u client_origin >>= λ r. ok (connected user_id r)
  after_check u client_origin user_id (err x) = ok (answers conflict)
  after_check u client_origin user_id panic = panic

  with_user : Upgrade → Str → Db → Option Str → Outcome (Start Str)
  unfolding after_check wallet_exists
  with_user u client_origin db none = ok (answers no_authorization)
  with_user u client_origin db (some user_id) =
      after_check u client_origin user_id (wallet_exists e.crypto user_id db)

  -- What the handler does first: the user, that the user has no wallet, and the connection.
  unfoldable pub dkg_start : Upgrade → Str → Context → Db → Outcome (Start Str)
  unfolding with_user
  dkg_start u client_origin ctx db = with_user u client_origin db (lookup (str "userId") ctx)
