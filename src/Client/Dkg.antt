-- ===== src/Client/Dkg.antt =====
-- Dkg (client/client.go): the requests before it, and its goroutines, which are those of DkgHandler on the other
-- side. `step` is one atomic step of one of them; one that has to wait changes nothing.
pub mod Returns
use meemaw.Prelude.{
  ℕ, Bool, true, false, ◌||◌, List, [], ◌∷◌, ◌++◌, Option, none, some, Str, str, ltb, length,
  if◌then◌else◌, Outcome, ok, err, panic, ◌>>=◌, ◌==◌, GoError,
}
use meemaw.Encoding.Hex.{Bytes}
use meemaw.Tss.Alice.{Alice}
use meemaw.Tss.Wallet.{DkgResult, Output}
use meemaw.Tss.PeerManager.{Message, PeerManager, Payload, must_send}
use meemaw.Tss.Service.{Library, Service, MainState, on_state_changed_dkg}
use meemaw.Tss.Actors.{
  Party, DkgConfig, new_client_dkg, dkg_handle_message, client_dkg_process, client_dkg_next,
}
use meemaw.Ws.{
  WsMessage, MessageType, peer_id_broadcast_message, tss_message, metadata_message,
  metadata_ack_message, unexpected, switch, Round, stops, idles, sends, fails, crashes,
  tss_send_round, process_errors, read_tss,
}
use meemaw.Client.{Web, get_access_token, url_to_http, url_to_ws, Dialled, connected, refused}

pub record Setting : Type 1 where
  pub a : Alice
  pub lib : Library (Output a)
  pub new_dkg : PeerManager lib.M lib.Actor → ℕ → ℕ → Outcome lib.Actor
  pub marshal_json : Message lib.M → Outcome Bytes
  pub unmarshal_json : Bytes → Outcome (Message lib.M)
  pub is_normal_closure : GoError → Bool

-- The answer to the first call of /dkg: 426 asks for a websocket, as there is no wallet yet.
first_call : ℕ → Outcome (Unit {0})
first_call status =
    if status == 401
    then err GoError.unauthorized
    else if status == 400
    then err GoError.bad_request
    else if status == 404
    then err GoError.not_found
    else if status == 409
    then err GoError.conflict
    else if status == 426
    then ok tt
    else err (GoError.text (str "Dkg - unknown behavior"))

-- Here the status of a refused connection does not matter.
plainly : {C : Type 0} → Dialled C → Outcome C
plainly (connected c) = ok c
plainly (refused status x) = err x

module _ (w : Web) (e : Setting) where
  open e use {a, lib}

  -- Up to the goroutines; `peer_id` is a new UUID, and `write` what writing it to the connection gives.
  unfoldable pub dkg_start :
      Str → Str → Str → (w.Conn → Outcome (Unit {0})) → Outcome (w.Conn × Party DkgConfig lib)
  unfolding first_call plainly get_access_token url_to_http url_to_ws new_client_dkg
  dkg_start host auth_data peer_id write = do
    token ← get_access_token w host [] auth_data
    let path = str "/dkg?token=" ++ token
    http_host ← url_to_http w host
    status ← w.get (http_host ++ path)
    checked ← first_call status
    ws_host ← url_to_ws w host
    dkg ← new_client_dkg a lib e.new_dkg peer_id
    c ← plainly (w.dial (ws_host ++ path))
    sent ← write c
    ok (c, dkg)

pub data Reader : Type 0 where
  reading returned : Reader

pub data Sender : Type 0 where
  polling stopped : Sender

-- Where Dkg stands: in dkg.Process, before ProcessErrors, at `<-serverDone`, or it has returned: a result with
-- the metadata, nothing at all without an error, or an error.
pub data Main : Type 0 where
  processes : Main
  checks waits_done : DkgResult → Main
  finished : DkgResult → Str → Main
  finished_empty : Main
  failed : GoError → Main

pub record State (e : Setting) : Type 0 where
  pub stage : ℕ
  pub metadata : Str
  pub dkg : Party DkgConfig e.lib
  pub reader : Reader
  pub sender : Sender
  pub main : Main
  pub server_done : Bool  -- the channel is closed
  pub cancelled : Bool
  pub errs : List GoError
  pub written : List WsMessage

pub data Case : Type 0 where
  tss_case metadata_case default_case : Case

unfoldable pub case_of : MessageType → Case
unfolding switch
case_of t = switch t ((tss_message, tss_case) ∷ (metadata_message, metadata_case) ∷ []) default_case

abbrev pub metadata_ack : WsMessage
metadata_ack = record { msg_type = metadata_ack_message; msg = [] }

module _ (e : Setting) where
  open e use {a, lib}

  reader_fails : State e → GoError → State e
  reader_fails s x = record s { errs = s.errs ++ x ∷ []; reader = returned }

  handled : State e → Outcome (Service DkgConfig lib) → Outcome (State e)
  unfolding reader_fails
  handled s (ok service) = ok (record s { dkg = record s.dkg { service = service } })
  handled s (err x) = ok (reader_fails s x)
  handled s panic = panic

  -- The acknowledgement, and then `close(serverDone)`.
  acked : State e → Outcome (Unit {0}) → Outcome (State e)
  unfolding reader_fails
  acked s (ok u) =
      if s.server_done
      then panic
      else ok (record s { written = s.written ++ metadata_ack ∷ []; server_done = true })
  acked s (err x) = ok (reader_fails s x)
  acked s panic = panic

  answered : State e → Outcome (Unit {0}) → Outcome (State e)
  unfolding reader_fails
  answered s (ok u) = ok (record s { written = s.written ++ unexpected ∷ [] })
  answered s (err x) = ok (reader_fails s x)
  answered s panic = panic

  unfoldable pub on_message : Case → State e → WsMessage → Outcome (Unit {0}) → Outcome (State e)
  unfolding handled acked answered read_tss dkg_handle_message
  on_message tss_case s msg write =
      if ltb msg.msg_type.msg_stage s.stage
      then ok s
      else handled s
          (read_tss e.unmarshal_json msg.msg >>= λ m. dkg_handle_message lib s.dkg.service m)
  on_message metadata_case s msg write = acked (record s { metadata = msg.msg }) write
  on_message default_case s msg write = answered s write

  -- An error of the process goes to the channel, which holds two, and Dkg returns without an error.
  processed : State e → Option (Outcome DkgResult) → Outcome (State e)
  processed s none = ok s
  processed s (some (ok result)) = ok (record s { main = checks result })
  processed s (some (err x)) =
      if ltb (length s.errs) 2
      then ok (record s { main = finished_empty; errs = s.errs ++ x ∷ []; cancelled = true })
      else ok s
  processed s (some panic) = panic

  checked : State e → DkgResult → Outcome (Unit {0}) × List GoError → Outcome (State e)
  checked s result (ok u, errs) =
      ok (record s { main = waits_done result; stage = 40; errs = errs })
  checked s result (err x, errs) = ok (record s { main = failed x; errs = errs; cancelled = true })
  checked s result (panic, errs) = panic

  unfoldable pub main_turn : Main → State e → Outcome (State e)
  unfolding processed checked process_errors client_dkg_process
  main_turn processes s = processed s (client_dkg_process a lib s.dkg)
  main_turn (checks result) s =
      checked s result (process_errors e.is_normal_closure s.cancelled s.errs)
  main_turn (waits_done result) s =
      if s.server_done
      then ok (record s { main = finished result s.metadata; cancelled = true })
      else ok s
  main_turn (finished result metadata) s = ok s
  main_turn finished_empty s = ok s
  main_turn (failed x) s = ok s

  with_manager : State e → PeerManager lib.M lib.Actor → State e
  with_manager s pm = record s { dkg = record s.dkg { service = record s.dkg.service { pm = pm } } }

  sender_turn :
      State e → Round (PeerManager lib.M lib.Actor) → Outcome (Unit {0}) → Outcome (State e)
  unfolding with_manager
  sender_turn s stops write = ok (record s { sender = stopped })
  sender_turn s (idles pm) write = ok (with_manager s pm)
  sender_turn s (sends msg pm) (ok u) =
      ok (record (with_manager s pm) { written = s.written ++ msg ∷ [] })
  sender_turn s (sends msg pm) (err x) =
      ok (record (with_manager s pm) { errs = s.errs ++ x ∷ []; sender = stopped })
  sender_turn s (sends msg pm) panic = panic
  sender_turn s (fails x pm) write =
      ok (record (with_manager s pm) { errs = s.errs ++ x ∷ []; sender = stopped })
  sender_turn s crashes write = panic

  polls : Sender → State e → Outcome (Unit {0}) → Outcome (State e)
  unfolding sender_turn tss_send_round client_dkg_next
  polls polling s write =
      sender_turn s
        (tss_send_round e.marshal_json (s.cancelled || s.server_done)
          (λ pm.
            client_dkg_next a lib (record s.dkg { service = record s.dkg.service { pm = pm } }))
          s.dkg.service.pm)
        write
  polls stopped s write = ok s

-- What can happen next; `sender_ends` is the end of the minute that TssSend has.
pub data Event (e : Setting) : Type 0 where
  reads : WsMessage → Outcome (Unit {0}) → Event e
  read_ends : Event e
  read_fails : GoError → Event e
  sender_runs : Outcome (Unit {0}) → Event e
  main_runs : Event e
  tss_sends : Str → Payload e.lib.M → Event e
  tss_changes : MainState → MainState → Event e
  sender_ends : Event e

module _ (e : Setting) where
  open e use {lib}

  when_reading : Reader → State e → Outcome (State e) → Outcome (State e)
  when_reading reading s next = next
  when_reading returned s next = ok s

  with_service : State e → Outcome (Service DkgConfig lib) → Outcome (State e)
  with_service s r = r >>= λ service. ok (record s { dkg = record s.dkg { service = service } })

  unfoldable pub step : State e → Event e → Outcome (State e)
  unfolding when_reading case_of on_message reader_fails polls main_turn with_service
      on_state_changed_dkg
  step s (reads msg write) =
      when_reading s.reader s (on_message e (case_of msg.msg_type) s msg write)
  step s read_ends = when_reading s.reader s (ok (record s { reader = returned }))
  step s (read_fails x) = when_reading s.reader s (ok (reader_fails e s x))
  step s (sender_runs write) = polls e s.sender s write
  step s main_runs = main_turn e s.main s
  step s (tss_sends to message) =
      with_service s (ok (record s.dkg.service { pm = must_send s.dkg.service.pm to message }))
  step s (tss_changes old_state new_state) =
      with_service s (on_state_changed_dkg lib s.dkg.service old_state new_state)
  step s sender_ends = ok (record s { sender = stopped })

  unfoldable pub run : State e → List (Event e) → Outcome (State e)
  run s [] = ok s
  run s (x ∷ xs) = step s x >>= λ s'. run s' xs

  abbrev pub initial : Party DkgConfig lib → State e
  initial dkg = record {
    stage = 0;
    metadata = [];
    dkg = dkg;
    reader = reading;
    sender = polling;
    main = processes;
    server_done = false;
    cancelled = false;
    errs = [];
    written = [];
  }
