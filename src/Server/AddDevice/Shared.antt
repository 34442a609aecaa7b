-- ===== src/Server/AddDevice/Shared.antt =====
-- What RegisterDeviceHandler and AcceptDeviceHandler share (server/tss_add.go): the eight channels between
-- them, each with room for one value, the *tss.ServerAdd objects, known by their place in a list, the
-- database, and the device in the cache.
pub mod Aside
use meemaw.Prelude.{
  ℕ, zero, suc, Bool, true, false, List, [], ◌∷◌, ◌++◌, Option, none, some, Str, str, length, Dict,
  Outcome, ok, err, panic, ◌>>=◌, GoError,
}
use meemaw.Encoding.Hex.{Bytes}
use meemaw.Tss.Alice.{Alice}
use meemaw.Tss.Wallet.{PubkeyStr, Bk, Output}
use meemaw.Tss.PeerManager.{Message, PeerManager, Payload, must_send}
use meemaw.Tss.Service.{Library, Service, MainState, on_state_changed}
use meemaw.Tss.Actors.{Party}
use meemaw.Tss.Actors.Adder.{
  AddExistingConfig, AddLibrary, server_add_handle_message, server_add_next,
}
use meemaw.Ws.{read_tss}
use meemaw.Ws.Endpoint.{Reader, returned, reading, Endpoint, reader_fails, sending}
use meemaw.Server.Database.{Db}
use meemaw.Server.Vault.{Crypto}

pub record Setting : Type 1 where
  pub a : Alice
  pub lib : Library (Output a)
  pub al : AddLibrary a lib
  pub crypto : Crypto
  pub marshal_json : Message lib.M → Outcome Bytes
  pub unmarshal_json : Bytes → Outcome (Message lib.M)
  pub marshal_wallet : PubkeyStr → Dict Bk → Outcome Bytes  -- json.Marshal of a PublicWallet
  pub is_normal_closure : GoError → Bool

abbrev pub Adder : Setting → Type 0
Adder e = Party AddExistingConfig e.lib

pub record Shared (e : Setting) : Type 0 where
  pub new_client_peer_id_ch : Option Str
  pub existing_client_peer_id_ch : Option Str
  pub useragent_ch : Option Str
  pub metadata_ch : Option Str
  pub adder_ch : Option ℕ
  pub existing_device_tss_done_ch : Bool  -- a value waits
  pub new_device_done_ch : Bool
  pub existing_device_done_ch : Bool
  pub adders : List (Adder e)
  pub device : Option Str
  pub db : Db
  pub random : e.crypto.Random

-- As the channels are made.
abbrev pub fresh : (e : Setting) → Db → e.crypto.Random → Shared e
fresh e db random = record {
  new_client_peer_id_ch = none;
  existing_client_peer_id_ch = none;
  useragent_ch = none;
  metadata_ch = none;
  adder_ch = none;
  existing_device_tss_done_ch = false;
  new_device_done_ch = false;
  existing_device_done_ch = false;
  adders = [];
  device = none;
  db = db;
  random = random;
}

module _ {A : Type 0} where
  unfoldable pub at_place : ℕ → List A → Option A
  at_place n [] = none
  at_place zero (x ∷ xs) = some x
  at_place (suc n) (x ∷ xs) = at_place n xs

  unfoldable pub put_at : ℕ → A → List A → List A
  put_at n y [] = []
  put_at zero y (x ∷ xs) = y ∷ xs
  put_at (suc n) y (x ∷ xs) = x ∷ put_at n y xs

  -- What a pointer that may be nil points to.
  unfoldable pub points_to : Option ℕ → List A → Option A
  unfolding at_place
  points_to none xs = none
  points_to (some n) xs = at_place n xs

module _ (e : Setting) where
  open e use {a, lib, al}

  unfoldable pub with_service : ℕ → Adder e → Service AddExistingConfig lib → Shared e → Shared e
  unfolding put_at
  with_service n p service sh = record sh {
    adders = put_at n (record p { service = service }) sh.adders;
  }

  -- OnStateChanged, which the library calls, of the object at a place.
  unfoldable pub adder_changes :
      ℕ → Option (Adder e) → MainState → MainState → Shared e → Outcome (Shared e)
  unfolding with_service on_state_changed
  adder_changes n none old_state new_state sh = ok sh
  adder_changes n (some p) old_state new_state sh =
      on_state_changed lib (str "adding failed") p.service old_state new_state >>= λ service.
      ok (with_service n p service sh)

  unfoldable pub adder_sends : ℕ → Option (Adder e) → Str → Payload lib.M → Shared e → Shared e
  unfolding with_service
  adder_sends n none to message sh = sh
  adder_sends n (some p) to message sh =
      with_service n p (record p.service { pm = must_send p.service.pm to message }) sh

  module _ {P Main : Type 0} where
    unfoldable pub keeps_service :
        Endpoint P Main ℕ
        → Shared e
        → ℕ
        → Adder e
        → Outcome (Service AddExistingConfig lib)
        → Outcome (Endpoint P Main ℕ × Shared e)
    unfolding with_service reader_fails
    keeps_service h sh n p (ok service) = ok (h, with_service n p service sh)
    keeps_service h sh n p (err x) = ok (reader_fails h x, sh)
    keeps_service h sh n p panic = panic

    -- adder.HandleMessage in the reading goroutine; a nil adder panics.
    unfoldable pub handles :
        Endpoint P Main ℕ
        → Shared e
        → Option ℕ
        → Option (Adder e)
        → Message lib.M
        → Outcome (Endpoint P Main ℕ × Shared e)
    unfolding keeps_service server_add_handle_message
    handles h sh (some n) (some p) m =
        keeps_service h sh n p (server_add_handle_message a lib al p m)
    handles h sh _ _ m = panic

    unfoldable pub with_message :
        Endpoint P Main ℕ
        → Shared e
        → Outcome (Message lib.M)
        → Outcome (Endpoint P Main ℕ × Shared e)
    unfolding handles reader_fails points_to
    with_message h sh (ok m) = handles h sh h.adder (points_to h.adder sh.adders) m
    with_message h sh (err x) = ok (reader_fails h x, sh)
    with_message h sh panic = panic

    -- The case of a TssMessage that is not discarded.
    unfoldable pub reads_tss :
        Endpoint P Main ℕ → Shared e → Str → Outcome (Endpoint P Main ℕ × Shared e)
    unfolding with_message read_tss
    reads_tss h sh text = with_message h sh (read_tss e.unmarshal_json text)

    unfoldable pub queue_kept :
        Shared e
        → ℕ
        → Adder e
        → Endpoint P Main ℕ × Option (PeerManager lib.M lib.Actor)
        → Endpoint P Main ℕ × Shared e
    unfolding with_service
    queue_kept sh n p (h, none) = (h, sh)
    queue_kept sh n p (h, some pm) = (h, with_service n p (record p.service { pm = pm }) sh)

    -- A round of TssSend over adder.GetNextMessageToSend for one device.
    unfoldable pub polls_adder :
        Endpoint P Main ℕ
        → Shared e
        → Str
        → Option ℕ
        → Option (Adder e)
        → Outcome (Unit {0})
        → Outcome (Endpoint P Main ℕ × Shared e)
    unfolding queue_kept sending server_add_next
    polls_adder h sh peer_id (some n) (some p) write =
        sending e.marshal_json h.sender h
          (λ pm.
            server_add_next a lib al (record p { service = record p.service { pm = pm } }) peer_id)
          p.service.pm write
        >>= λ r. ok (queue_kept sh n p r)
    polls_adder h sh peer_id _ _ write = ok (h, sh)

-- Whether the process of the adder has ended: its channel is closed.
unfoldable pub is_done : (e : Setting) → Option (Adder e) → Bool
is_done e none = false
is_done e (some p) = p.service.done
