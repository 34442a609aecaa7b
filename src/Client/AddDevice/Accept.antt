-- ===== src/Client/AddDevice/Accept.antt =====
-- AcceptDevice once its connection stands (client/tss_add.go): the goroutine that reads, that of TssSend, and the
-- call itself.
pub mod Safe
pub mod Returns
use meemaw.Prelude.{
  ℕ, Bool, true, false, ◌++◌, List, [], ◌∷◌, Option, none, some, Str, str, length, ltb,
  if◌then◌else◌, Outcome, ok, err, panic, ◌>>=◌, GoError,
}
use meemaw.Tss.Wallet.{DkgResult}
use meemaw.Tss.PeerManager.{Payload}
use meemaw.Tss.Service.{MainState}
use meemaw.Tss.Actors.{Party}
use meemaw.Tss.Actors.Adder.{
  AddExistingConfig, new_existing_client_add, existing_client_add_process,
}
use meemaw.Ws.{
  WsMessage, MessageType, peer_id_broadcast_message, metadata_message, metadata_ack_message,
  tss_message, tss_done_message, new_device_done_message, existing_device_done_message, unexpected,
  switch, process_errors,
}
use meemaw.Ws.Endpoint.{
  Reader, reading, inside, returned, Sender, not_started, polling, Endpoint, Turn, reads, read_ends,
  ends, cancels, starts, read_fails, goes, polls, runs, reader_fails, writes, unless_past,
  while_reading, ends_sending, gives_up, checked, reports,
}
use meemaw.Client.AddDevice.{
  Setting, Device, of_type, reads_tss, polls_adder, adder_sends, adder_changes,
}
use meemaw.Client.AddDevice.Register.{assigned_at}

-- At the write of the metadata, `startTss <-`, the write of ExistingDeviceDoneMessage, and that of an error
-- message.
pub data Inside : Type 0 where
  sends_metadata offers_start sends_done answers : Inside

-- At `<-startTss`, in adder.Process, before ProcessErrors, at the write of TssDoneMessage, at `<-serverDone`, or the
-- call has returned: without an error, at the end or after an error of the process, or with one. It
-- may also wait for room for an error.
pub data Main : Type 0 where
  waits_start processes checks sends_tss_done waits_done finished gave_up blocked : Main
  failed : GoError → Main

pub data Case : Type 0 where
  peer_id_case metadata_ack_case tss_case new_done_case default_case : Case

unfoldable pub case_of : MessageType → Case
unfolding switch
case_of t =
    switch t
      ((peer_id_broadcast_message, peer_id_case)
        ∷ (metadata_ack_message, metadata_ack_case)
        ∷ (tss_message, tss_case)
        ∷ (new_device_done_message, new_done_case)
        ∷ [])
      default_case

unfoldable waits : Main → Bool
waits waits_start = true
waits _ = false

abbrev pub existing_device_done : WsMessage
existing_device_done = of_type existing_device_done_message []

module _ (e : Setting) where
  open e use {a, lib, al}

  abbrev pub Accept : Type 0
  Accept = Device e Inside Main AddExistingConfig

  module _ (wallet : DkgResult) (metadata : Str) where
    made : Accept → Outcome (Party AddExistingConfig lib) → Outcome Accept
    unfolding assigned_at waits reader_fails
    made h (ok p) = ok (record h {
      adder = assigned_at (waits h.main) (some p) h.adder;
      reader = inside offers_start;
    })
    made h (err x) =
        ok (reader_fails (record h { adder = assigned_at (waits h.main) none h.adder }) x)
    made h panic = panic

    unfoldable pub on_message : Case → Accept → WsMessage → Outcome Accept
    unfolding made unless_past reads_tss new_existing_client_add
    on_message peer_id_case h msg = ok (
        unless_past msg h
          (record h { new_client_peer_id = msg.msg; reader = inside sends_metadata }))
    on_message metadata_ack_case h msg = made h (
        new_existing_client_add a lib al h.new_client_peer_id wallet.peer_id wallet.pubkey
          wallet.share wallet.bks)
    on_message tss_case h msg = reads_tss e h msg
    on_message new_done_case h msg =
        ok (unless_past msg h (record h { reader = inside sends_done }))
    on_message default_case h msg = ok (record h { reader = inside answers })

    pub read_message : Reader Inside → Accept → WsMessage → Outcome Accept
    unfolding on_message case_of
    read_message reading h msg = on_message (case_of msg.msg_type) h msg
    read_message (inside p) h msg = ok h
    read_message returned h msg = ok h

    -- The last message, and then `close(serverDone)`.
    done_sent : Accept → Outcome (Unit {0}) → Outcome Accept
    unfolding reader_fails
    done_sent h (ok u) =
        if h.server_done
        then panic
        else ok (record h {
          written = h.written ++ existing_device_done ∷ [];
          server_done = true;
          reader = reading;
        })
    done_sent h (err x) = ok (reader_fails h x)
    done_sent h panic = panic

    unfoldable pub go_on : Reader Inside → Accept → Outcome (Unit {0}) → Outcome Accept
    unfolding writes done_sent
    go_on (inside sends_metadata) h write =
        writes h (of_type metadata_message metadata) reading write
    go_on (inside offers_start) h write = ok h
    go_on (inside sends_done) h write = done_sent h write
    go_on (inside answers) h write = writes h unexpected reading write
    go_on reading h write = ok h
    go_on returned h write = ok h

    unfoldable pub rendezvous : Reader Inside → Main → Accept → Accept
    rendezvous (inside offers_start) waits_start h = record h {
      reader = reading;
      sender = polling;
      main = processes;
    }
    rendezvous _ _ h = h

    -- What adder.Process returns; its error goes to the channel, and the call returns without one.
    processed : Accept → Option (Outcome DkgResult) → Outcome Accept
    unfolding reports
    processed h none = ok h
    processed h (some (ok result)) = ok (record h { main = checks })
    processed h (some (err x)) = ok (reports gave_up blocked h x)
    processed h (some panic) = panic

    process_of : Option (Party AddExistingConfig lib) → Option (Outcome DkgResult)
    unfolding existing_client_add_process
    process_of none = some panic
    process_of (some p) = existing_client_add_process a lib al p

    tss_done_sent : Accept → Outcome (Unit {0}) → Outcome Accept
    unfolding gives_up
    tss_done_sent h (ok u) =
        ok (record h { main = waits_done; written = h.written ++ of_type tss_done_message [] ∷ [] })
    tss_done_sent h (err x) = ok (gives_up (failed x) h)
    tss_done_sent h panic = panic

    unfoldable pub main_turn : Main → Accept → Outcome (Unit {0}) → Outcome Accept
    unfolding processed process_of checked process_errors tss_done_sent
    main_turn waits_start h write = ok h
    main_turn processes h write = processed h (process_of h.adder)
    main_turn checks h write =
        checked sends_tss_done failed h (process_errors e.is_normal_closure h.cancelled h.errs)
    main_turn sends_tss_done h write = tss_done_sent h write
    main_turn waits_done h write =
        ok (if h.server_done then record h { main = finished; cancelled = true } else h)
    main_turn finished h write = ok h
    main_turn gave_up h write = ok h
    main_turn blocked h write = ok h
    main_turn (failed x) h write = ok h

    unfoldable pub turn : Accept → Turn → Outcome Accept
    unfolding read_message go_on rendezvous main_turn while_reading reader_fails ends_sending
        polls_adder
    turn h (reads msg) = read_message h.reader h msg
    turn h read_ends = while_reading h.reader h (ok (record h { reader = returned }))
    turn h (read_fails x) = while_reading h.reader h (ok (reader_fails h x))
    turn h (goes write) = go_on h.reader h write
    turn h starts = ok (rendezvous h.reader h.main h)
    turn h (polls write) = polls_adder e h h.adder write
    turn h ends = ok (ends_sending h.sender h)
    turn h cancels = ok (record h { cancelled = true })
    turn h (runs write) = main_turn h.main h write

-- A step of a goroutine, or of the library's process.
pub data Event (e : Setting) : Type 0 where
  turns : Turn → Event e
  tss_sends : Str → Payload e.lib.M → Event e
  tss_changes : MainState → MainState → Event e

module _ (e : Setting) (wallet : DkgResult) (metadata : Str) where
  unfoldable pub step : Accept e → Event e → Outcome (Accept e)
  unfolding turn adder_sends adder_changes
  step h (turns t) = turn e wallet metadata h t
  step h (tss_sends to message) = ok (adder_sends e h h.adder to message)
  step h (tss_changes old_state new_state) = adder_changes e h h.adder old_state new_state

  unfoldable pub run : Accept e → List (Event e) → Outcome (Accept e)
  unfolding step
  run h [] = ok h
  run h (x ∷ xs) = step h x >>= λ h'. run h' xs

-- When the goroutines start.
abbrev pub initial : (e : Setting) → Accept e
initial e = record {
  reader = reading;
  sender = not_started;
  main = waits_start;
  stage = 0;
  new_client_peer_id = [];
  existing_client_peer_id = [];
  metadata = [];
  adder = none;
  server_done = false;
  cancelled = false;
  errs = [];
  written = [];
}
