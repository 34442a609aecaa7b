-- ===== src/Tss/Actors/Signer.antt =====
-- ServerSigner and ClientSigner (utils/tss/tssManager.go) and Init of serviceSigner (serviceSigner.go).
-- A signer's process yields the two numbers R and S.
pub mod Signed
pub mod Endpoint
use meemaw.Prelude.{ℕ, Option, Str, str, Dict, keep_keys, Outcome, ok, ◌>>=◌}
use meemaw.Prelude.Int.{ℤ}
use meemaw.Encoding.Hex.{Bytes}
use meemaw.Tss.Alice.{Alice}
use meemaw.Tss.Wallet.{Pubkey, PubkeyStr, Bk, new_pubkey, convert_dkg_result}
use meemaw.Tss.Signature.{Ecdsa, Signature, post_process}
use meemaw.Tss.PeerManager.{PeerManager, new_peer_manager, add_peer, get_next_message_to_send}
use meemaw.Tss.Service.{Library, Service, receive}
use meemaw.Tss.Actors.{Party, server_id, keeps, make_service, process}

pub record SignerConfig : Type 0 where
  pub pubkey : Pubkey
  pub share : Str
  pub bks : Dict Bk
  pub message : Bytes

pub record SignerOutput : Type 0 where
  pub r : ℤ
  pub s : ℤ

-- paillier.NewPaillier and signer.NewSigner.
pub record SignerLibrary (a : Alice) (lib : Library SignerOutput) : Type 1 where
  pub Paillier : Type 0
  pub new_paillier : ℕ → Outcome Paillier
  pub new_signer :
      PeerManager lib.M lib.Actor → a.Point → Paillier → ℤ → Dict a.Bk → Bytes → Outcome lib.Actor

module _ (a : Alice) (lib : Library SignerOutput) (sl : SignerLibrary a lib) where
  open lib use {M, Actor}

  unfoldable pub init_signer : SignerConfig → PeerManager M Actor → Outcome Actor
  init_signer p pm = do
    dkg_result ← convert_dkg_result a p.pubkey p.share p.bks
    paillier ← sl.new_paillier 2048
    sl.new_signer pm dkg_result.public_key paillier dkg_result.share dkg_result.bks p.message

  -- What the two constructors have in common: which parameters are kept, Init, the handler.
  unfoldable pub signer_with :
      PeerManager M Actor
      → Str
      → PubkeyStr
      → Str
      → Dict Bk
      → Bytes
      → Outcome (Party SignerConfig lib)
  unfolding init_signer make_service
  signer_with pm client_peer_id pubkey_str share bks message = do
    pubkey ← new_pubkey pubkey_str
    let config : SignerConfig = record {
      pubkey = pubkey;
      share = share;
      bks = keep_keys (keeps client_peer_id) bks;
      message = message;
    }
    actor ← init_signer config pm
    ok (record { service = make_service lib config pm actor; peer_id = client_peer_id })

  unfoldable pub new_server_signer :
      Str → PubkeyStr → Str → Dict Bk → Bytes → Outcome (Party SignerConfig lib)
  unfolding signer_with
  new_server_signer client_peer_id pubkey_str share bks message =
      signer_with (add_peer (new_peer_manager server_id) client_peer_id) client_peer_id pubkey_str
        share bks message

  unfoldable pub new_client_signer :
      Str → PubkeyStr → Str → Dict Bk → Bytes → Outcome (Party SignerConfig lib)
  unfolding signer_with
  new_client_signer client_peer_id pubkey_str share bks message =
      signer_with (add_peer (new_peer_manager client_peer_id) server_id) client_peer_id pubkey_str
        share bks message

  -- GetNextMessageToSend, with the manager that is left.
  unfoldable pub server_signer_next : Party SignerConfig lib → Outcome (Bytes × PeerManager M Actor)
  server_signer_next p = get_next_message_to_send lib.marshal p.service.pm p.peer_id

  unfoldable pub client_signer_next : Party SignerConfig lib → Outcome (Bytes × PeerManager M Actor)
  client_signer_next p = get_next_message_to_send lib.marshal p.service.pm server_id

  -- HandleMessage takes the library's message as it is.
  unfoldable pub signer_handle_message :
      Party SignerConfig lib → M → Outcome (Service SignerConfig lib)
  signer_handle_message p msg = receive lib p.service msg

  module _ (c : Ecdsa) where
    finish_signature : Service SignerConfig lib → SignerOutput → Outcome Signature
    finish_signature p out = post_process a c out.r out.s p.config.pubkey p.config.message

    unfoldable pub server_signer_process : Party SignerConfig lib → Option (Outcome Signature)
    unfolding finish_signature process
    server_signer_process p =
        process lib (str "could not get server signer results") p.service
          (finish_signature p.service)

    unfoldable pub client_signer_process : Party SignerConfig lib → Option (Outcome Signature)
    unfolding finish_signature process
    client_signer_process p =
        process lib (str "could not get client signer results") p.service
          (finish_signature p.service)
