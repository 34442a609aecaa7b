-- ===== src/Server/AddDevice/Accept.antt =====
-- AcceptDeviceHandler once its connection stands (server/tss_add.go): the goroutine that reads, that of TssSend, and
-- the handler itself. `accept_turn` is one atomic step of one of them; one that has to wait changes
-- nothing.
pub mod Meeting
pub mod Steps
pub mod Stored
pub mod Turns
pub mod Effects
use meemaw.Prelude.{
  ℕ, Bool, true, false, ◌++◌, List, [], ◌∷◌, Option, none, some, Str, str, length, ltb,
  if◌then◌else◌, Outcome, ok, err, panic, ◌>>=◌, GoError,
}
use meemaw.Tss.Wallet.{DkgResult, merge_dkg_results}
use meemaw.Tss.Actors.Adder.{get_original_wallet, server_add_process}
use meemaw.Ws.{
  WsMessage, MessageType, peer_id_broadcast_message, tss_message, metadata_message,
  metadata_ack_message, tss_done_message, existing_device_done_message, new_device_done_message,
  unexpected, switch, process_errors,
}
use meemaw.Ws.Endpoint.{
  Reader, reading, inside, returned, Sender, not_started, polling, Endpoint, Turn, reads, read_ends,
  ends, cancels, starts, read_fails, goes, polls, runs, reader_fails, writes, unless_past,
  while_reading, ends_sending, gives_up, checked, reports,
}
use meemaw.Server.Database.{Db}
use meemaw.Server.Vault.{vault_add_peer}
use meemaw.Server.AddDevice.Shared.{
  Setting, Adder, Shared, points_to, reads_tss, polls_adder, is_done,
}
use meemaw.Server.AddDevice.Register.{of_type}

-- Inside the cases of the reading goroutine: at `existingClientPeerIdCh <-`, `<-newClientPeerIdCh`, the write of
-- the peer id, `metadataCh <-`, `<-adderCh`, the write of the acknowledgement, `startTss <-`,
-- `stage = 30`, `existingDeviceTssDoneCh <-`, `existingDeviceDoneCh <-`, and the write of an error
-- message.
pub data Inside : Type 0 where
  offers_peer_id awaits_peer_id broadcasts offers_metadata awaits_adder acks : Inside
  offers_start sets_stage offers_tss_done offers_done answers : Inside

-- At `<-startTss`, in adder.Process, at `<-useragentCh`, `<-tssDone`, `<-newDeviceDoneCh`, the write of the last
-- message, `<-serverDone`, or the handler has returned, or waits for room for an error.
pub data Main : Type 0 where
  waits_start : Main
  processes awaits_useragent : DkgResult → Main
  waits_tss awaits_new_done sends_done waits_done finished failed blocked : Main

abbrev pub Accept : Type 0
Accept = Endpoint Inside Main ℕ

pub data Case : Type 0 where
  peer_id_case metadata_case tss_case tss_done_case done_case default_case : Case

unfoldable pub case_of : MessageType → Case
unfolding switch
case_of t =
    switch t
      ((peer_id_broadcast_message, peer_id_case)
        ∷ (metadata_message, metadata_case)
        ∷ (tss_message, tss_case)
        ∷ (tss_done_message, tss_done_case)
        ∷ (existing_device_done_message, done_case)
        ∷ [])
      default_case

abbrev pub new_device_done : WsMessage
new_device_done = of_type new_device_done_message []

module _ (e : Setting) (user_id : Str) where
  open e use {a, lib, al, crypto}

  pub alone : Shared e → Outcome Accept → Outcome (Accept × Shared e)
  alone sh r = r >>= λ h. ok (h, sh)

  -- A message has been read.
  unfoldable pub on_message : Case → Accept → Shared e → WsMessage → Outcome (Accept × Shared e)
  unfolding unless_past reads_tss
  on_message peer_id_case h sh msg = ok (
    unless_past msg h
        (record h { existing_client_peer_id = msg.msg; reader = inside offers_peer_id }),
    sh,
  )
  on_message metadata_case h sh msg =
      ok (unless_past msg h (record h { metadata = msg.msg; reader = inside offers_metadata }), sh)
  on_message tss_case h sh msg =
      if ltb msg.msg_type.msg_stage h.stage then ok (h, sh) else reads_tss e h sh msg.msg
  on_message tss_done_case h sh msg =
      ok (unless_past msg h (record h { reader = inside offers_tss_done }), sh)
  on_message done_case h sh msg =
      ok (unless_past msg h (record h { reader = inside offers_done }), sh)
  on_message default_case h sh msg = ok (record h { reader = inside answers }, sh)

  offer_peer_id : Option Str → Accept → Shared e → Accept × Shared e
  offer_peer_id none h sh = (
    record h { reader = inside awaits_peer_id },
    record sh { existing_client_peer_id_ch = some h.existing_client_peer_id },
  )
  offer_peer_id (some other) h sh = (h, sh)

  take_peer_id : Option Str → Accept → Shared e → Accept × Shared e
  take_peer_id none h sh = (h, sh)
  take_peer_id (some peer_id) h sh = (
    record h { new_client_peer_id = peer_id; reader = inside broadcasts },
    record sh { new_client_peer_id_ch = none },
  )

  offer_metadata : Option Str → Accept → Shared e → Accept × Shared e
  offer_metadata none h sh =
      (record h { reader = inside awaits_adder }, record sh { metadata_ch = some h.metadata })
  offer_metadata (some other) h sh = (h, sh)

  take_adder : Option ℕ → Accept → Shared e → Accept × Shared e
  take_adder none h sh = (h, sh)
  take_adder (some n) h sh =
      (record h { adder = some n; reader = inside acks }, record sh { adder_ch = none })

  offer_tss_done : Bool → Accept → Shared e → Accept × Shared e
  offer_tss_done false h sh =
      (record h { reader = reading }, record sh { existing_device_tss_done_ch = true })
  offer_tss_done true h sh = (h, sh)

  -- The send on the channel, and then `close(serverDone)`.
  offer_done : Bool → Accept → Shared e → Outcome (Accept × Shared e)
  offer_done false h sh =
      if h.server_done
      then panic
      else ok (
        record h { reader = reading; server_done = true },
        record sh { existing_device_done_ch = true },
      )
  offer_done true h sh = ok (h, sh)

  -- The reading goroutine goes on inside a case.
  unfoldable pub goes_on :
      Inside → Accept → Shared e → Outcome (Unit {0}) → Outcome (Accept × Shared e)
  unfolding offer_peer_id take_peer_id offer_metadata take_adder offer_tss_done offer_done alone
      writes
  goes_on offers_peer_id h sh write = ok (offer_peer_id sh.existing_client_peer_id_ch h sh)
  goes_on awaits_peer_id h sh write = ok (take_peer_id sh.new_client_peer_id_ch h sh)
  goes_on broadcasts h sh write =
      alone sh (writes h (of_type peer_id_broadcast_message h.new_client_peer_id) reading write)
  goes_on offers_metadata h sh write = ok (offer_metadata sh.metadata_ch h sh)
  goes_on awaits_adder h sh write = ok (take_adder sh.adder_ch h sh)
  goes_on acks h sh write =
      alone sh (writes h (of_type metadata_ack_message []) (inside offers_start) write)
  goes_on offers_start h sh write = ok (h, sh)
  goes_on sets_stage h sh write = ok (record h { stage = 30; reader = reading }, sh)
  goes_on offers_tss_done h sh write = ok (offer_tss_done sh.existing_device_tss_done_ch h sh)
  goes_on offers_done h sh write = offer_done sh.existing_device_done_ch h sh
  goes_on answers h sh write = alone sh (writes h unexpected reading write)

  go_on : Reader Inside → Accept → Shared e → Outcome (Unit {0}) → Outcome (Accept × Shared e)
  unfolding goes_on
  go_on (inside p) h sh write = goes_on p h sh write
  go_on reading h sh write = ok (h, sh)
  go_on returned h sh write = ok (h, sh)

  -- `startTss` and GetOriginalWallet; a nil adder panics.
  pub started : Option (Adder e) → Accept → Outcome Accept
  unfolding get_original_wallet
  started none h = panic
  started (some p) h = ok (record h {
    reader = inside sets_stage;
    sender = polling;
    main = processes (get_original_wallet a lib al p);
  })

  unfoldable pub rendezvous : Reader Inside → Main → Accept → Shared e → Outcome Accept
  unfolding started points_to
  rendezvous (inside offers_start) waits_start h sh = started (points_to h.adder sh.adders) h
  rendezvous _ _ h sh = ok h

  merged : Accept → Option DkgResult → Accept
  unfolding gives_up
  merged h none = gives_up failed h
  merged h (some result) = record h { main = awaits_useragent result }

  -- What adder.Process returns, once it does, merged with the original wallet.
  unfoldable pub processed : Accept → DkgResult → Option (Outcome DkgResult) → Outcome Accept
  unfolding merged gives_up merge_dkg_results
  processed h original none = ok h
  processed h original (some (ok updated)) = ok (merged h (merge_dkg_results original updated))
  processed h original (some (err x)) = ok (gives_up failed h)
  processed h original (some panic) = panic

  process_of : Option (Adder e) → Option (Outcome DkgResult)
  unfolding server_add_process
  process_of none = none
  process_of (some p) = server_add_process a lib al p

  unfoldable pub stored :
      Accept → Shared e → Outcome (Db × crypto.Random) → Outcome (Accept × Shared e)
  unfolding gives_up
  stored h sh (ok (db, random)) =
      ok (record h { main = waits_tss }, record sh { db = db; random = random })
  stored h sh (err x) = ok (gives_up failed h, sh)
  stored h sh panic = panic

  -- `<-useragentCh`, and AddPeer.
  unfoldable pub adds_peer :
      Accept → Shared e → DkgResult → Option Str → Outcome (Accept × Shared e)
  unfolding stored vault_add_peer
  adds_peer h sh result none = ok (h, sh)
  adds_peer h sh result (some user_agent) =
      stored h (record sh { useragent_ch = none })
        (vault_add_peer crypto (some h.metadata) user_id h.new_client_peer_id user_agent result
          sh.db sh.random)

  take_new_done : Bool → Accept → Shared e → Accept × Shared e
  take_new_done true h sh =
      (record h { main = sends_done }, record sh { new_device_done_ch = false })
  take_new_done false h sh = (h, sh)

  unfoldable pub done_sent : Accept → Outcome (Unit {0}) → Outcome Accept
  unfolding reports
  done_sent h (ok u) =
      ok (record h { main = waits_done; written = h.written ++ new_device_done ∷ [] })
  done_sent h (err x) = ok (reports failed blocked h x)
  done_sent h panic = panic

  unfoldable pub main_turn :
      Main → Accept → Shared e → Outcome (Unit {0}) → Outcome (Accept × Shared e)
  unfolding processed process_of adds_peer take_new_done done_sent alone checked is_done
      process_errors points_to
  main_turn waits_start h sh write = ok (h, sh)
  main_turn (processes original) h sh write =
      alone sh (processed h original (process_of (points_to h.adder sh.adders)))
  main_turn (awaits_useragent result) h sh write = adds_peer h sh result sh.useragent_ch
  main_turn waits_tss h sh write =
      if is_done e (points_to h.adder sh.adders)
      then alone sh (
          checked awaits_new_done (λ x. failed) h
            (process_errors e.is_normal_closure h.cancelled h.errs))
      else ok (h, sh)
  main_turn awaits_new_done h sh write = ok (take_new_done sh.new_device_done_ch h sh)
  main_turn sends_done h sh write = alone sh (done_sent h write)
  main_turn waits_done h sh write =
      ok (if h.server_done then record h { main = finished; cancelled = true } else h, sh)
  main_turn finished h sh write = ok (h, sh)
  main_turn failed h sh write = ok (h, sh)
  main_turn blocked h sh write = ok (h, sh)

  read_message : Reader Inside → Accept → Shared e → WsMessage → Outcome (Accept × Shared e)
  unfolding on_message case_of
  read_message reading h sh msg = on_message (case_of msg.msg_type) h sh msg
  read_message (inside p) h sh msg = ok (h, sh)
  read_message returned h sh msg = ok (h, sh)

  unfoldable pub accept_turn : Accept → Shared e → Turn → Outcome (Accept × Shared e)
  unfolding read_message go_on rendezvous main_turn alone while_reading reader_fails ends_sending
      polls_adder points_to
  accept_turn h sh (reads msg) = read_message h.reader h sh msg
  accept_turn h sh read_ends =
      alone sh (while_reading h.reader h (ok (record h { reader = returned })))
  accept_turn h sh (read_fails x) = alone sh (while_reading h.reader h (ok (reader_fails h x)))
  accept_turn h sh (goes write) = go_on h.reader h sh write
  accept_turn h sh starts = alone sh (rendezvous h.reader h.main h sh)
  accept_turn h sh (polls write) =
      polls_adder e h sh h.existing_client_peer_id h.adder (points_to h.adder sh.adders) write
  accept_turn h sh ends = ok (ends_sending h.sender h, sh)
  accept_turn h sh cancels = ok (record h { cancelled = true }, sh)
  accept_turn h sh (runs write) = main_turn h.main h sh write

-- When its goroutines start.
abbrev pub initial : Accept
initial = record {
  reader = reading;
  sender = not_started;
  main = waits_start;
  stage = 0;
  new_client_peer_id = [];
  existing_client_peer_id = [];
  metadata = [];
  adder = none;
  server_done = false;
  cancelled = false;
  errs = [];
  written = [];
}
