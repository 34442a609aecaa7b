-- ===== src/Server/AddDevice/Register.antt =====
-- RegisterDeviceHandler once its connection stands (server/tss_add.go): the goroutine that reads, that of TssSend,
-- and the handler itself. `register_turn` is one atomic step of one of them; one that has to wait
-- changes nothing.
pub mod Safe
pub mod Making
pub mod Reading
pub mod Steps
use meemaw.Prelude.{
  ℕ, Bool, true, false, ◌++◌, List, [], ◌∷◌, Option, none, some, Str, str, length, Dict, ltb,
  if◌then◌else◌, Outcome, ok, err, panic, ◌>>=◌, GoError,
}
use meemaw.Encoding.Hex.{Bytes, encode}
use meemaw.Tss.Wallet.{DkgResult}
use meemaw.Tss.Actors.Adder.{new_server_add}
use meemaw.Ws.{
  WsMessage, MessageType, peer_id_broadcast_message, device_message, pubkey_message, tss_message,
  metadata_message, everything_stored_client_message, existing_device_done_message, unexpected,
  switch, process_errors,
}
use meemaw.Ws.Endpoint.{
  Reader, reading, inside, returned, Sender, not_started, polling, Endpoint, Turn, reads, read_ends,
  ends, cancels, starts, read_fails, goes, polls, runs, reader_fails, writes, unless_past,
  while_reading, ends_sending, gives_up, checked, reports,
}
use meemaw.Server.Vault.{retrieve_wallet}
use meemaw.Server.AddDevice.Shared.{
  Setting, Adder, Shared, points_to, reads_tss, polls_adder, is_done,
}

-- Inside the cases of the reading goroutine: at `newClientPeerIdCh <-`, `<-existingClientPeerIdCh`,
-- `useragentCh <-`, the write of the peer id, `<-metadataCh`, `adderCh <-`, the write of the public
-- wallet, `startTss <-`, `stage = 30`, `newDeviceDoneCh <-`, and the write of an error message.
pub data Inside : Type 0 where
  offers_peer_id awaits_peer_id offers_useragent broadcasts : Inside
  awaits_metadata : Str → Inside
  offers_adder sends_pubkey : DkgResult → Inside
  offers_start sets_stage offers_done answers : Inside

-- At `<-startTss`, `<-tssDone`, `<-existingDeviceTssDoneCh`, the write of the metadata,
-- `<-existingDeviceDoneCh`, the write of the last message, or the handler has returned, or waits
-- for room for an error.
pub data Main : Type 0 where
  waits_start waits_tss awaits_tss_done sends_metadata awaits_done sends_done : Main
  finished failed blocked : Main

abbrev pub Register : Type 0
Register = Endpoint Inside Main ℕ

pub data Case : Type 0 where
  peer_id_case device_case tss_case stored_case default_case : Case

unfoldable pub case_of : MessageType → Case
unfolding switch
case_of t =
    switch t
      ((peer_id_broadcast_message, peer_id_case)
        ∷ (device_message, device_case)
        ∷ (tss_message, tss_case)
        ∷ (everything_stored_client_message, stored_case)
        ∷ [])
      default_case

abbrev pub of_type : MessageType → Str → WsMessage
of_type t text = record { msg_type = t; msg = text }

module _ (e : Setting) (user_id user_agent : Str) where
  open e use {a, lib, al, crypto}

  pub alone : Shared e → Outcome Register → Outcome (Register × Shared e)
  alone sh r = r >>= λ h. ok (h, sh)

  -- A message has been read.
  unfoldable pub on_message : Case → Register → Shared e → WsMessage → Outcome (Register × Shared e)
  unfolding unless_past reads_tss
  on_message peer_id_case h sh msg = ok (
    unless_past msg h (record h { new_client_peer_id = msg.msg; reader = inside offers_peer_id }),
    sh,
  )
  on_message device_case h sh msg =
      ok (unless_past msg h (record h { reader = inside (awaits_metadata msg.msg) }), sh)
  on_message tss_case h sh msg =
      if ltb msg.msg_type.msg_stage h.stage then ok (h, sh) else reads_tss e h sh msg.msg
  on_message stored_case h sh msg = ok (record h { reader = inside offers_done }, sh)
  on_message default_case h sh msg = ok (record h { reader = inside answers }, sh)

  made : Register → Shared e → Str → DkgResult → Outcome (Adder e) → Outcome (Register × Shared e)
  made h sh device result (ok p) = ok (
    record h { adder = some (length sh.adders); reader = inside (offers_adder result) },
    record sh { adders = sh.adders ++ p ∷ []; device = some device },
  )
  made h sh device result (err x) = ok (record h { adder = none; reader = returned }, sh)
  made h sh device result panic = panic

  -- RetrieveWallet and NewServerAdd; an error of theirs is only logged, and the goroutine returns.
  retrieved : Register → Shared e → Str → Outcome DkgResult → Outcome (Register × Shared e)
  unfolding made new_server_add
  retrieved h sh device (ok result) = made h sh device result (
      new_server_add a lib al h.new_client_peer_id h.existing_client_peer_id result.pubkey
        result.share result.bks)
  retrieved h sh device (err x) = ok (record h { reader = returned }, sh)
  retrieved h sh device panic = panic

  pub with_metadata : Register → Shared e → Str → Option Str → Outcome (Register × Shared e)
  unfolding retrieved retrieve_wallet
  with_metadata h sh device none = ok (h, sh)
  with_metadata h sh device (some metadata) =
      retrieved (record h { metadata = metadata }) (record sh { metadata_ch = none }) device
        (retrieve_wallet crypto (some metadata) user_id sh.db)

  with_wallet_json :
      Register → Shared e → Outcome Bytes → Outcome (Unit {0}) → Outcome (Register × Shared e)
  unfolding writes reader_fails
  with_wallet_json h sh (ok json) write =
      alone sh (writes h (of_type pubkey_message (encode json)) (inside offers_start) write)
  with_wallet_json h sh (err x) write = ok (reader_fails h x, sh)
  with_wallet_json h sh panic write = panic

  offer_peer_id : Option Str → Register → Shared e → Register × Shared e
  offer_peer_id none h sh = (
    record h { reader = inside awaits_peer_id },
    record sh { new_client_peer_id_ch = some h.new_client_peer_id },
  )
  offer_peer_id (some other) h sh = (h, sh)

  take_peer_id : Option Str → Register → Shared e → Register × Shared e
  take_peer_id none h sh = (h, sh)
  take_peer_id (some peer_id) h sh = (
    record h { existing_client_peer_id = peer_id; reader = inside offers_useragent },
    record sh { existing_client_peer_id_ch = none },
  )

  offer_useragent : Option Str → Register → Shared e → Register × Shared e
  offer_useragent none h sh =
      (record h { reader = inside broadcasts }, record sh { useragent_ch = some user_agent })
  offer_useragent (some other) h sh = (h, sh)

  offer_adder : Option ℕ → DkgResult → Register → Shared e → Register × Shared e
  offer_adder none result h sh =
      (record h { reader = inside (sends_pubkey result) }, record sh { adder_ch = h.adder })
  offer_adder (some other) result h sh = (h, sh)

  offer_done : Bool → Register → Shared e → Register × Shared e
  offer_done false h sh = (record h { reader = reading }, record sh { new_device_done_ch = true })
  offer_done true h sh = (h, sh)

  -- The reading goroutine goes on inside a case.
  unfoldable pub goes_on :
      Inside → Register → Shared e → Outcome (Unit {0}) → Outcome (Register × Shared e)
  unfolding with_metadata with_wallet_json offer_peer_id take_peer_id offer_useragent offer_adder
      offer_done alone writes
  goes_on offers_peer_id h sh write = ok (offer_peer_id sh.new_client_peer_id_ch h sh)
  goes_on awaits_peer_id h sh write = ok (take_peer_id sh.existing_client_peer_id_ch h sh)
  goes_on offers_useragent h sh write = ok (offer_useragent sh.useragent_ch h sh)
  goes_on broadcasts h sh write =
      alone sh
        (writes h (of_type peer_id_broadcast_message h.existing_client_peer_id) reading write)
  goes_on (awaits_metadata device) h sh write = with_metadata h sh device sh.metadata_ch
  goes_on (offers_adder result) h sh write = ok (offer_adder sh.adder_ch result h sh)
  goes_on (sends_pubkey result) h sh write =
      with_wallet_json h sh (e.marshal_wallet result.pubkey result.bks) write
  goes_on offers_start h sh write = ok (h, sh)
  goes_on sets_stage h sh write = ok (record h { stage = 30; reader = reading }, sh)
  goes_on offers_done h sh write = ok (offer_done sh.new_device_done_ch h sh)
  goes_on answers h sh write = alone sh (writes h unexpected reading write)

  pub go_on :
      Reader Inside → Register → Shared e → Outcome (Unit {0}) → Outcome (Register × Shared e)
  unfolding goes_on
  go_on (inside p) h sh write = goes_on p h sh write
  go_on reading h sh write = ok (h, sh)
  go_on returned h sh write = ok (h, sh)

  -- The send and the receive on `startTss` happen together.
  unfoldable pub rendezvous : Reader Inside → Main → Register → Register
  rendezvous (inside offers_start) waits_start h = record h {
    reader = inside sets_stage;
    sender = polling;
    main = waits_tss;
  }
  rendezvous _ _ h = h

  take_tss_done : Bool → Register → Shared e → Register × Shared e
  take_tss_done true h sh =
      (record h { main = sends_metadata }, record sh { existing_device_tss_done_ch = false })
  take_tss_done false h sh = (h, sh)

  take_done : Bool → Register → Shared e → Register × Shared e
  take_done true h sh =
      (record h { main = sends_done }, record sh { existing_device_done_ch = false })
  take_done false h sh = (h, sh)

  metadata_sent : Register → Outcome (Unit {0}) → Outcome Register
  unfolding reports
  metadata_sent h (ok u) = ok (record h {
    main = awaits_done;
    written = h.written ++ of_type metadata_message h.metadata ∷ [];
  })
  metadata_sent h (err x) = ok (reports failed blocked h x)
  metadata_sent h panic = panic

  -- The last message, and then `close(serverDone)` and `cancel()`.
  done_sent : Register → Outcome (Unit {0}) → Outcome Register
  unfolding reports
  done_sent h (ok u) = ok (record h {
    main = finished;
    written = h.written ++ of_type existing_device_done_message [] ∷ [];
    server_done = true;
    cancelled = true;
  })
  done_sent h (err x) = ok (reports failed blocked h x)
  done_sent h panic = panic

  unfoldable pub main_turn :
      Main → Register → Shared e → Outcome (Unit {0}) → Outcome (Register × Shared e)
  unfolding take_tss_done take_done metadata_sent done_sent alone checked is_done process_errors
      points_to
  main_turn waits_start h sh write = ok (h, sh)
  main_turn waits_tss h sh write =
      if is_done e (points_to h.adder sh.adders)
      then alone sh (
          checked awaits_tss_done (λ x. failed) h
            (process_errors e.is_normal_closure h.cancelled h.errs))
      else ok (h, sh)
  main_turn awaits_tss_done h sh write = ok (take_tss_done sh.existing_device_tss_done_ch h sh)
  main_turn sends_metadata h sh write = alone sh (metadata_sent h write)
  main_turn awaits_done h sh write = ok (take_done sh.existing_device_done_ch h sh)
  main_turn sends_done h sh write = alone sh (done_sent h write)
  main_turn finished h sh write = ok (h, sh)
  main_turn failed h sh write = ok (h, sh)
  main_turn blocked h sh write = ok (h, sh)

  pub read_message : Reader Inside → Register → Shared e → WsMessage → Outcome (Register × Shared e)
  unfolding on_message case_of
  read_message reading h sh msg = on_message (case_of msg.msg_type) h sh msg
  read_message (inside p) h sh msg = ok (h, sh)
  read_message returned h sh msg = ok (h, sh)

  unfoldable pub register_turn : Register → Shared e → Turn → Outcome (Register × Shared e)
  unfolding read_message go_on rendezvous main_turn alone while_reading reader_fails ends_sending
      polls_adder points_to
  register_turn h sh (reads msg) = read_message h.reader h sh msg
  register_turn h sh read_ends =
      alone sh (while_reading h.reader h (ok (record h { reader = returned })))
  register_turn h sh (read_fails x) = alone sh (while_reading h.reader h (ok (reader_fails h x)))
  register_turn h sh (goes write) = go_on h.reader h sh write
  register_turn h sh starts = ok (rendezvous h.reader h.main h, sh)
  register_turn h sh (polls write) =
      polls_adder e h sh h.new_client_peer_id h.adder (points_to h.adder sh.adders) write
  register_turn h sh ends = ok (ends_sending h.sender h, sh)
  register_turn h sh cancels = ok (record h { cancelled = true }, sh)
  register_turn h sh (runs write) = main_turn h.main h sh write

-- When its goroutines start.
abbrev pub initial : Register
initial = record {
  reader = reading;
  sender = not_started;
  main = waits_start;
  stage = 0;
  new_client_peer_id = [];
  existing_client_peer_id = [];
  metadata = [];
  adder = none;
  server_done = false;
  cancelled = false;
  errs = [];
  written = [];
}
