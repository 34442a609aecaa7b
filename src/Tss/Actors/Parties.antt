-- ===== src/Tss/Actors/Parties.antt =====
-- What the constructors of the actors establish (NewServerSigner, NewClientSigner of
-- utils/tss/tssManager.go, NewServerAdd, NewExistingClientAdd of utils/tss/serviceAdd.go).
use meemaw.Prelude.{
  ◌≡◌, refl, [], ◌∷◌, false, none, Str, Dict, lookup, insert, keep_keys, lookup-keep_keys, ok,
  if◌then◌else◌, >>=-eq-ok,
}
use meemaw.Encoding.Hex.{Bytes}
use meemaw.Tss.Alice.{Alice}
use meemaw.Tss.Wallet.{PubkeyStr, Bk, new_pubkey}
use meemaw.Tss.PeerManager.{peer_ids, self_id, new_peer_manager, add_peer, register_handle_message}
use meemaw.Tss.Service.{Library, Service}
use meemaw.Tss.Service.Lifecycle.{Registered}
use meemaw.Tss.Actors.{Party, server_id, keeps, make_service}
use meemaw.Tss.Actors.Signer.{
  SignerConfig, SignerOutput, SignerLibrary, init_signer, signer_with, new_server_signer,
  new_client_signer,
}

-- A service that is about to run with one peer: nothing is sent, received or finished yet, and messages
-- go to the process.
pub record IsFresh {C Out : Type 0} (lib : Library Out) (own_id peer_id : Str) (p : Service C lib)
    : Type 0 where
  pub own : self_id p.pm ≡ own_id
  pub peers : peer_ids p.pm ≡ peer_id ∷ []
  pub registered : Registered lib p
  pub silent : p.pm.outward_messages ≡ []
  pub open_channel : p.done ≡ false
  pub no_result : p.result ≡ none
  pub no_failure : p.failure ≡ none

-- The parameters that are kept: the server's and one client's, unchanged.
abbrev pub KeepsOnly : Str → Dict Bk → Dict Bk → Type 0
KeepsOnly client_peer_id kept bks =
    (peer_id : Str)
    → lookup peer_id kept ≡ (if keeps client_peer_id peer_id then lookup peer_id bks else none)

module _ {C Out : Type 0} (lib : Library Out) where
  make_service-IsFresh :
      (config : C) (own_id peer_id : Str) (actor : lib.Actor)
      → IsFresh lib own_id peer_id
          (make_service lib config (add_peer (new_peer_manager own_id) peer_id) actor)
  unfolding make_service self_id peer_ids register_handle_message add_peer new_peer_manager insert
  make_service-IsFresh config own_id peer_id actor = record {
    own = refl;
    peers = refl;
    registered = refl;
    silent = refl;
    open_channel = refl;
    no_result = refl;
    no_failure = refl;
  }

module _ (a : Alice) (lib : Library SignerOutput) (sl : SignerLibrary a lib) where
  pub record SignerReady (own_id peer_id client_peer_id : Str) (share : Str) (bks : Dict Bk)
      (message : Bytes) (p : Party SignerConfig lib) : Type 0 where
    pub fresh : IsFresh lib own_id peer_id p.service
    pub client : p.peer_id ≡ client_peer_id
    pub parameters : KeepsOnly client_peer_id p.service.config.bks bks
    pub same_share : p.service.config.share ≡ share
    pub same_message : p.service.config.message ≡ message

  signer_with-SignerReady :
      (own_id peer_id client_peer_id : Str) (pubkey_str : PubkeyStr) (share : Str) (bks : Dict Bk)
      (message : Bytes) (p : Party SignerConfig lib)
      → signer_with a lib sl
          (add_peer (new_peer_manager own_id) peer_id)
          client_peer_id
          pubkey_str
          share
          bks
          message
        ≡ ok p
      → SignerReady own_id peer_id client_peer_id share bks message p
  unfolding signer_with
  signer_with-SignerReady own_id peer_id client_peer_id pubkey_str share bks message p h =
      let pm = add_peer (new_peer_manager {M = lib.M} {A = lib.Actor} own_id) peer_id in
      let (k, ek, h') = >>=-eq-ok (new_pubkey pubkey_str) _ h in
      let config : SignerConfig = record {
        pubkey = k;
        share = share;
        bks = keep_keys (keeps client_peer_id) bks;
        message = message;
      } in
      let (actor, ea, h'') = >>=-eq-ok (init_signer a lib sl config pm) _ h' in
      let made : Party SignerConfig lib = record {
        service = make_service lib config pm actor;
        peer_id = client_peer_id;
      } in
      let same : made ≡ p = cc h'' in
      rw (← same) (record {
        fresh = make_service-IsFresh lib config own_id peer_id actor;
        client = refl;
        parameters = λ j. lookup-keep_keys (keeps client_peer_id) j bks;
        same_share = unfold make_service in refl;
        same_message = unfold make_service in refl;
      })

  -- A new server signer and a new client signer have one peer each, the other side, are registered
  -- with their managers and have nothing sent, received or finished, remember the client, keep the
  -- given share and message, and of the Birkhoff parameters exactly the server's and that client's.
  new_signers_ready :
      (client_peer_id : Str) (pubkey_str : PubkeyStr) (share : Str) (bks : Dict Bk)
      (message : Bytes) (p q : Party SignerConfig lib)
      → new_server_signer a lib sl client_peer_id pubkey_str share bks message ≡ ok p
      → new_client_signer a lib sl client_peer_id pubkey_str share bks message ≡ ok q
      → SignerReady server_id client_peer_id client_peer_id share bks message p
        × SignerReady client_peer_id server_id client_peer_id share bks message q
  unfolding new_server_signer new_client_signer
  new_signers_ready client_peer_id pubkey_str share bks message p q hp hq = (
    signer_with-SignerReady server_id client_peer_id client_peer_id pubkey_str share bks message p
        hp,
    signer_with-SignerReady client_peer_id server_id client_peer_id pubkey_str share bks message q
        hq,
  )
