-- ===== src/Tss/Actors/Adder.antt =====
-- ServerAdd, ExistingClientAdd and ClientAdd (utils/tss/serviceAdd.go), which add a device.
use meemaw.Prelude.{ℕ, Option, Str, str, Dict, keep_keys, Outcome, ok, ◌>>=◌}
use meemaw.Prelude.Int.{ℤ}
use meemaw.Encoding.Hex.{Bytes}
use meemaw.Tss.Alice.{Alice}
use meemaw.Tss.Wallet.{
  Pubkey, PubkeyStr, Bk, DkgResult, Output, new_pubkey, get_str, get_address, get_ec_point,
  convert_dkg_result,
}
use meemaw.Tss.PeerManager.{
  Message, PeerManager, new_peer_manager, add_peer, get_next_message_to_send_peer,
  get_next_message_to_send_all, get_next_message_to_send,
}
use meemaw.Tss.Service.{Library, Service}
use meemaw.Tss.Actors.{
  Party, rank, threshold, server_id, keeps, make_service, process, to_dkg_result,
  adder_generic_handle,
}

pub record AddExistingConfig : Type 0 where
  pub pubkey : Pubkey
  pub share : Str
  pub threshold : ℕ
  pub new_client_id : Str
  pub bks : Dict Bk
  pub original_bks : Dict Bk  -- ServerAdd.originalBKs

pub record AddNewConfig : Type 0 where
  pub pubkey : Pubkey
  pub threshold : ℕ
  pub rank : ℕ
  pub bks : Dict Bk

-- oldpeer.NewAddShare and newpeer.NewAddShare.
pub record AddLibrary (a : Alice) (lib : Library (Output a)) : Type 0 where
  pub new_old_peer :
      PeerManager lib.M lib.Actor → a.Point → ℕ → ℤ → Dict a.Bk → Str → Outcome lib.Actor
  pub new_new_peer : PeerManager lib.M lib.Actor → a.Point → ℕ → ℕ → lib.Actor

module _ (a : Alice) (lib : Library (Output a)) (al : AddLibrary a lib) where
  open lib use {M, Actor}

  -- serviceAddExisting.Init.
  pub init_add_existing : AddExistingConfig → PeerManager M Actor → Outcome Actor
  init_add_existing p pm = do
    dkg_result ← convert_dkg_result a p.pubkey p.share p.bks
    al.new_old_peer pm dkg_result.public_key p.threshold dkg_result.share dkg_result.bks
        p.new_client_id

  -- What NewServerAdd and NewExistingClientAdd have in common.
  unfoldable pub add_existing_with :
      PeerManager M Actor
      → Str
      → Str
      → Str
      → PubkeyStr
      → Str
      → Dict Bk
      → Outcome (Party AddExistingConfig lib)
  unfolding init_add_existing make_service
  add_existing_with pm peer_id kept_id new_client_peer_id pubkey_str share bks = do
    pubkey ← new_pubkey pubkey_str
    let config : AddExistingConfig = record {
      pubkey = pubkey;
      share = share;
      threshold = threshold;
      new_client_id = new_client_peer_id;
      bks = keep_keys (keeps kept_id) bks;
      original_bks = bks;
    }
    actor ← init_add_existing config pm
    ok (record { service = make_service lib config pm actor; peer_id = peer_id })

  unfoldable pub new_server_add :
      Str → Str → PubkeyStr → Str → Dict Bk → Outcome (Party AddExistingConfig lib)
  unfolding add_existing_with
  new_server_add new_client_peer_id existing_client_peer_id pubkey_str share bks =
      add_existing_with (add_peer (new_peer_manager server_id) existing_client_peer_id) server_id
        existing_client_peer_id new_client_peer_id pubkey_str share bks

  unfoldable pub new_existing_client_add :
      Str → Str → PubkeyStr → Str → Dict Bk → Outcome (Party AddExistingConfig lib)
  unfolding add_existing_with
  new_existing_client_add new_client_peer_id peer_id pubkey_str share bks =
      add_existing_with (add_peer (new_peer_manager peer_id) server_id) peer_id peer_id
        new_client_peer_id pubkey_str share bks

  -- serviceAddNew.Init.
  pub init_add_new : AddNewConfig → PeerManager M Actor → Outcome Actor
  init_add_new p pm = do
    pubkey ← get_ec_point a p.pubkey
    ok (al.new_new_peer pm pubkey p.threshold p.rank)

  unfoldable pub new_client_add : Str → Str → PubkeyStr → Dict Bk → Outcome (Party AddNewConfig lib)
  unfolding init_add_new make_service
  new_client_add peer_id accepting_device_peer_id pubkey_str bks = do
    pubkey ← new_pubkey pubkey_str
    let config : AddNewConfig = record {
      pubkey = pubkey;
      threshold = threshold;
      rank = rank;
      bks = bks;
    }
    let pm = add_peer (add_peer (new_peer_manager peer_id) server_id) accepting_device_peer_id
    actor ← init_add_new config pm
    ok (record { service = make_service lib config pm actor; peer_id = peer_id })

  -- ServerAdd.GetOriginalWallet.
  unfoldable pub get_original_wallet : Party AddExistingConfig lib → DkgResult
  get_original_wallet p =
      let k = p.service.config.pubkey in
      record {
        pubkey = get_str k;
        bks = p.service.config.original_bks;
        share = p.service.config.share;
        address = a.address_hex (get_address a k);
        peer_id = server_id;
      }

  unfoldable pub server_add_process : Party AddExistingConfig lib → Option (Outcome DkgResult)
  unfolding to_dkg_result process
  server_add_process p =
      process lib (str "could not get serverAdd results") p.service (to_dkg_result a lib server_id)

  unfoldable pub existing_client_add_process :
      Party AddExistingConfig lib → Option (Outcome DkgResult)
  unfolding to_dkg_result process
  existing_client_add_process p =
      process lib (str "could not get ExistingClientAdd dkg results") p.service
        (to_dkg_result a lib p.peer_id)

  unfoldable pub client_add_process : Party AddNewConfig lib → Option (Outcome DkgResult)
  unfolding to_dkg_result process
  client_add_process p =
      process lib (str "could not get ClientAdd dkg results") p.service
        (to_dkg_result a lib p.peer_id)

  -- The server fetches the messages for one device, a device fetches all of its messages.
  unfoldable pub server_add_next :
      Party AddExistingConfig lib → Str → Outcome (Message M × PeerManager M Actor)
  server_add_next p peer_id = get_next_message_to_send_peer lib.marshal p.service.pm peer_id

  unfoldable pub client_add_next_all :
      {C : Type 0} → Party C lib → Outcome (Message M × PeerManager M Actor)
  client_add_next_all p = get_next_message_to_send_all lib.marshal p.service.pm

  -- GetNextMessageToSend of the two clients, which nothing calls.
  unfoldable pub client_add_next :
      {C : Type 0} → Party C lib → Str → Outcome (Bytes × PeerManager M Actor)
  client_add_next p peer_id = get_next_message_to_send lib.marshal p.service.pm peer_id

  -- HandleMessage of the three actors.
  unfoldable pub server_add_handle_message :
      Party AddExistingConfig lib → Message M → Outcome (Service AddExistingConfig lib)
  server_add_handle_message p msg = adder_generic_handle lib msg p.service server_id

  unfoldable pub client_add_handle_message :
      {C : Type 0} → Party C lib → Message M → Outcome (Service C lib)
  client_add_handle_message p msg = adder_generic_handle lib msg p.service p.peer_id
