-- ===== src/Tss/Actors.antt =====
-- What the TSS actors share, and ServerDkg and ClientDkg (utils/tss/tssManager.go, serviceAdd.go). The
-- constructors of the library's processes are parameters. The signers and the actors that add a
-- device are in the child modules.
pub mod Signer
pub mod Adder
pub mod Relay
pub mod Parties
use meemaw.Prelude.{
  ℕ, Bool, false, ◌||◌, [], ◌∷◌, Option, none, some, Str, str, str_eq, if◌then◌else◌, Outcome, ok,
  err, ◌>>=◌, GoError,
}
use meemaw.Encoding.Hex.{decode}
use meemaw.Tss.Alice.{Alice}
use meemaw.Tss.Wallet.{DkgResult, Output, post_process_result}
use meemaw.Tss.PeerManager.{
  Payload, proto, hex_text, Message, PeerManager, new_peer_manager, add_peer,
  register_handle_message, must_send, get_next_message_to_send_peer,
}
use meemaw.Tss.Service.{Library, Service, handle, receive}

abbrev pub rank : ℕ
rank = 0

abbrev pub threshold : ℕ
threshold = 2

abbrev pub server_id : Str
server_id = str "server"

-- Which Birkhoff parameters an actor keeps: the server's and its own or its client's.
unfoldable pub keeps : Str → Str → Bool
keeps client_peer_id key = str_eq key server_id || str_eq key client_peer_id

abbrev pub not_a_string : GoError
not_a_string = GoError.text (str "msg was not a string")

module _ {Out : Type 0} (lib : Library Out) where
  read_text : Payload lib.M → Outcome Str
  read_text (hex_text s) = ok s
  read_text _ = err not_a_string

  -- The type assertion, hex.DecodeString and proto.Unmarshal at the top of every HandleMessage.
  unfoldable pub decode_message : Message lib.M → Outcome lib.M
  unfolding read_text
  decode_message msg = do text ← read_text msg.message; bytes ← decode text; lib.unmarshal bytes

module _ {C Out : Type 0} (lib : Library Out) where
  -- The service as the constructors make it, after Init and RegisterHandleMessage.
  unfoldable pub make_service : C → PeerManager lib.M lib.Actor → lib.Actor → Service C lib
  make_service config pm actor = record {
    config = config;
    pm = register_handle_message pm (handle lib);
    actor = actor;
    done = false;
    result = none;
    failure = none;
  }

  -- Process returns only after `done` is closed; until then it waits, which is `none`. `missing` is the
  -- text of the error when there is no result.
  unfoldable pub process :
      {R : Type 0} → Str → Service C lib → (Out → Outcome R) → Option (Outcome R)
  process missing p finish =
      if p.done
      then some (elim p.result [ none ↦ err (GoError.text missing) | some out ↦ finish out ])
      else none

  -- HandleMessage of ServerDkg and ClientDkg.
  unfoldable pub dkg_handle_message : Service C lib → Message lib.M → Outcome (Service C lib)
  dkg_handle_message p msg = do m ← decode_message lib msg; receive lib p m

  -- AdderGenericHandle, over the service that holds the manager.
  unfoldable pub adder_generic_handle :
      Message lib.M → Service C lib → Str → Outcome (Service C lib)
  adder_generic_handle msg p peer_id = do
    m ← decode_message lib msg
    (if str_eq msg.peer_id peer_id
        then receive lib p m
        else ok (record p { pm = must_send p.pm msg.peer_id (proto m) }))

pub record DkgConfig : Type 0 where
  pub threshold : ℕ
  pub rank : ℕ

-- An actor: its service, and the peer id that it remembers.
pub record Party (C : Type 0) {Out : Type 0} (lib : Library Out) : Type 0 where
  pub service : Service C lib
  pub peer_id : Str

module _ (a : Alice) (lib : Library (Output a)) where
  open lib use {M, Actor}

  -- The end of the Process methods: ProcessResult and PostProcessResult.
  pub to_dkg_result : Str → Output a → Outcome DkgResult
  to_dkg_result peer_id out = ok (
      post_process_result a (record {
        public_key = out.public_key;
        share = out.share;
        bks = out.bks;
        peer_id = peer_id;
      }))

  module _ (new_dkg : PeerManager M Actor → ℕ → ℕ → Outcome Actor) where
    abbrev dkg_config : DkgConfig
    dkg_config = record { threshold = threshold; rank = rank }

    unfoldable pub new_server_dkg : Str → Outcome (Party DkgConfig lib)
    unfolding make_service
    new_server_dkg client_peer_id = do
      let pm = add_peer (new_peer_manager server_id) client_peer_id
      actor ← new_dkg pm threshold rank
      ok (record { service = make_service lib dkg_config pm actor; peer_id = client_peer_id })

    unfoldable pub new_client_dkg : Str → Outcome (Party DkgConfig lib)
    unfolding make_service
    new_client_dkg client_peer_id = do
      let pm = add_peer (new_peer_manager client_peer_id) server_id
      actor ← new_dkg pm threshold rank
      ok (record { service = make_service lib dkg_config pm actor; peer_id = client_peer_id })

  unfoldable pub server_dkg_process : Party DkgConfig lib → Option (Outcome DkgResult)
  unfolding to_dkg_result process
  server_dkg_process p =
      process lib (str "could not get ServerDkg dkg results") p.service (to_dkg_result p.peer_id)

  unfoldable pub client_dkg_process : Party DkgConfig lib → Option (Outcome DkgResult)
  unfolding to_dkg_result process
  client_dkg_process p =
      process lib (str "could not get client dkg results") p.service (to_dkg_result p.peer_id)

  -- GetNextMessageToSend of the two actors.
  unfoldable pub server_dkg_next : Party DkgConfig lib → Outcome (Message M × PeerManager M Actor)
  server_dkg_next p = get_next_message_to_send_peer lib.marshal p.service.pm p.peer_id

  unfoldable pub client_dkg_next : Party DkgConfig lib → Outcome (Message M × PeerManager M Actor)
  client_dkg_next p = get_next_message_to_send_peer lib.marshal p.service.pm server_id
