-- ===== src/Client/AddDevice/Register.antt =====
-- RegisterDevice once its connection stands (client/tss_add.go): the goroutine that reads, that of TssSend, and the
-- call itself.
pub mod Safe
pub mod Returns
use meemaw.Prelude.{
  Bool, true, false, List, [], ◌∷◌, Option, none, some, Str, Dict, ltb, if◌then◌else◌, Outcome, ok,
  err, panic, ◌>>=◌, GoError,
}
use meemaw.Encoding.Hex.{decode}
use meemaw.Tss.Wallet.{PubkeyStr, Bk, DkgResult}
use meemaw.Tss.PeerManager.{Payload}
use meemaw.Tss.Service.{MainState}
use meemaw.Tss.Actors.{Party}
use meemaw.Tss.Actors.Adder.{AddNewConfig, new_client_add, client_add_process}
use meemaw.Ws.{
  WsMessage, MessageType, peer_id_broadcast_message, device_message, pubkey_message, tss_message,
  metadata_message, everything_stored_client_message, existing_device_done_message, unexpected,
  switch, process_errors,
}
use meemaw.Ws.Endpoint.{
  Reader, reading, inside, returned, not_started, polling, Turn, reads, read_ends, ends, cancels,
  starts, read_fails, goes, polls, runs, reader_fails, writes, unless_past, while_reading,
  ends_sending, checked, reports,
}
use meemaw.Client.AddDevice.{
  Setting, Device, of_type, reads_tss, polls_adder, adder_sends, adder_changes,
}

-- At the write of the device's name, `startTss <-`, the write of EverythingStoredClientMessage, and that of an
-- error message.
pub data Inside : Type 0 where
  names_device offers_start stores answers : Inside

-- At `<-startTss`, in adder.Process, before ProcessErrors, at `<-serverDone`, or the call has returned: a result
-- with its metadata, nothing at all without an error, or an error. It may also wait for room for an error.
pub data Main : Type 0 where
  waits_start processes : Main
  checks waits_done : DkgResult → Main
  finished : DkgResult → Str → Main
  finished_empty blocked : Main
  failed : GoError → Main

pub data Case : Type 0 where
  peer_id_case pubkey_case tss_case metadata_case done_case default_case : Case

unfoldable pub case_of : MessageType → Case
unfolding switch
case_of t =
    switch t
      ((peer_id_broadcast_message, peer_id_case)
        ∷ (pubkey_message, pubkey_case)
        ∷ (tss_message, tss_case)
        ∷ (metadata_message, metadata_case)
        ∷ (existing_device_done_message, done_case)
        ∷ [])
      default_case

-- Once the process has started, the variable `adder` is not read any more: the field is the one it runs on.
unfoldable pub assigned_at : {A : Type 0} → Bool → Option A → Option A → Option A
assigned_at true new old = new
assigned_at false new old = old

unfoldable waits : Main → Bool
waits waits_start = true
waits _ = false

module _ (e : Setting) where
  open e use {a, lib, al}

  abbrev pub Register : Type 0
  Register = Device e Inside Main AddNewConfig

  module _ (peer_id device : Str) where
    made : Register → Outcome (Party AddNewConfig lib) → Outcome Register
    unfolding assigned_at waits reader_fails
    made h (ok p) = ok (record h {
      adder = assigned_at (waits h.main) (some p) h.adder;
      reader = inside offers_start;
    })
    made h (err x) =
        ok (reader_fails (record h { adder = assigned_at (waits h.main) none h.adder }) x)
    made h panic = panic

    with_wallet : Register → Outcome (PubkeyStr × Dict Bk) → Outcome Register
    unfolding made reader_fails new_client_add
    with_wallet h (ok (pubkey, bks)) =
        made h (new_client_add a lib al peer_id h.existing_client_peer_id pubkey bks)
    with_wallet h (err x) = ok (reader_fails h x)
    with_wallet h panic = panic

    -- The acceptingDevicePeerID is `existing_client_peer_id`.
    unfoldable pub on_message : Case → Register → WsMessage → Outcome Register
    unfolding with_wallet unless_past reads_tss
    on_message peer_id_case h msg = ok (
        unless_past msg h
          (record h { existing_client_peer_id = msg.msg; reader = inside names_device }))
    on_message pubkey_case h msg =
        with_wallet h (decode msg.msg >>= λ json. e.unmarshal_wallet json)
    on_message tss_case h msg = reads_tss e h msg
    on_message metadata_case h msg = ok (record h { metadata = msg.msg; reader = inside stores })
    on_message done_case h msg =
        if ltb msg.msg_type.msg_stage h.stage
        then ok h
        else if h.server_done
        then panic
        else ok (record h { server_done = true })
    on_message default_case h msg = ok (record h { reader = inside answers })

    pub read_message : Reader Inside → Register → WsMessage → Outcome Register
    unfolding on_message case_of
    read_message reading h msg = on_message (case_of msg.msg_type) h msg
    read_message (inside p) h msg = ok h
    read_message returned h msg = ok h

    pub go_on : Reader Inside → Register → Outcome (Unit {0}) → Outcome Register
    unfolding writes
    go_on (inside names_device) h write = writes h (of_type device_message device) reading write
    go_on (inside offers_start) h write = ok h
    go_on (inside stores) h write =
        writes h (of_type everything_stored_client_message []) reading write
    go_on (inside answers) h write = writes h unexpected reading write
    go_on reading h write = ok h
    go_on returned h write = ok h

    unfoldable pub rendezvous : Reader Inside → Main → Register → Register
    rendezvous (inside offers_start) waits_start h = record h {
      reader = reading;
      sender = polling;
      main = processes;
    }
    rendezvous _ _ h = h

    -- What adder.Process returns; its error goes to the channel, and the call returns nothing.
    processed : Register → Option (Outcome DkgResult) → Outcome Register
    unfolding reports
    processed h none = ok h
    processed h (some (ok result)) = ok (record h { main = checks result })
    processed h (some (err x)) = ok (reports finished_empty blocked h x)
    processed h (some panic) = panic

    process_of : Option (Party AddNewConfig lib) → Option (Outcome DkgResult)
    unfolding client_add_process
    process_of none = some panic
    process_of (some p) = client_add_process a lib al p

    unfoldable pub main_turn : Main → Register → Outcome Register
    unfolding processed process_of checked process_errors
    main_turn waits_start h = ok h
    main_turn processes h = processed h (process_of h.adder)
    main_turn (checks result) h =
        checked (waits_done result) failed h (process_errors e.is_normal_closure h.cancelled h.errs)
    main_turn (waits_done result) h = ok (
        if h.server_done
        then record h { main = finished result h.metadata; cancelled = true }
        else h)
    main_turn (finished result metadata) h = ok h
    main_turn finished_empty h = ok h
    main_turn blocked h = ok h
    main_turn (failed x) h = ok h

    unfoldable pub turn : Register → Turn → Outcome Register
    unfolding read_message go_on rendezvous main_turn while_reading reader_fails ends_sending
        polls_adder
    turn h (reads msg) = read_message h.reader h msg
    turn h read_ends = while_reading h.reader h (ok (record h { reader = returned }))
    turn h (read_fails x) = while_reading h.reader h (ok (reader_fails h x))
    turn h (goes write) = go_on h.reader h write
    turn h starts = ok (rendezvous h.reader h.main h)
    turn h (polls write) = polls_adder e h h.adder write
    turn h ends = ok (ends_sending h.sender h)
    turn h cancels = ok (record h { cancelled = true })
    turn h (runs write) = main_turn h.main h

-- A step of a goroutine, or of the library's process.
pub data Event (e : Setting) : Type 0 where
  turns : Turn → Event e
  tss_sends : Str → Payload e.lib.M → Event e
  tss_changes : MainState → MainState → Event e

module _ (e : Setting) (peer_id device : Str) where
  unfoldable pub step : Register e → Event e → Outcome (Register e)
  unfolding turn adder_sends adder_changes
  step h (turns t) = turn e peer_id device h t
  step h (tss_sends to message) = ok (adder_sends e h h.adder to message)
  step h (tss_changes old_state new_state) = adder_changes e h h.adder old_state new_state

  unfoldable pub run : Register e → List (Event e) → Outcome (Register e)
  unfolding step
  run h [] = ok h
  run h (x ∷ xs) = step h x >>= λ h'. run h' xs

-- When the goroutines start.
abbrev pub initial : (e : Setting) → Register e
initial e = record {
  reader = reading;
  sender = not_started;
  main = waits_start;
  stage = 0;
  new_client_peer_id = [];
  existing_client_peer_id = [];
  metadata = [];
  adder = none;
  server_done = false;
  cancelled = false;
  errs = [];
  written = [];
}
