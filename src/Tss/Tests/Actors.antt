-- ===== src/Tss/Tests/Actors.antt =====
-- Runs of the services and of the actors, with small stand-ins for the library.
use meemaw.Prelude.{
  ◌≡◌, ◌≢◌, refl, ◌+◌, true, false, List, [], ◌∷◌, none, some, arith, Str, str, Dict, ok,
}
use meemaw.Prelude.Int.{pos}
use meemaw.Encoding.Hex.{Bytes}
use meemaw.Tss.Wallet.{PubkeyStr, Bk}
use meemaw.Tss.PeerManager.{
  proto, PeerManager, get_next_message_to_send_all, get_next_message_to_send_peer,
}
use meemaw.Tss.PeerManager.Queue.{pending}
use meemaw.Tss.PeerManager.Fifo.{Took}
use meemaw.Tss.Service.{
  Library, Service, Event, received, sends, changed, state_init, state_done, handle, run,
}
use meemaw.Tss.Service.Lifecycle.{NeverPanics, already, endings, run_returns}
use meemaw.Tss.Actors.{Party, server_id, adder_generic_handle}
use meemaw.Tss.Actors.Relay.{wire, relay_end_to_end}
use meemaw.Tss.Actors.Signer.{SignerConfig, SignerOutput, SignerLibrary}
use meemaw.Tss.Tests.{alice, phone, laptop}

-- A process that keeps the messages it is given.
abbrev pub library : Library SignerOutput
library = record {
  M = Bytes;
  Actor = List Bytes;
  marshal = ok;
  unmarshal = ok;
  add_message = λ actor m. ok (m ∷ actor);
  get_result = λ actor. ok (record { r = pos 3; s = pos 4 });
}

library_returns : NeverPanics library
library_returns = record {
  add_message_returns = λ actor m h. cc h;
  get_result_returns = λ actor h. cc h;
}

-- A service that is registered with a manager of this identifier.
abbrev service : Str → Service (Unit {0}) library
service id = record {
  config = tt;
  pm = record {
    id = id;
    peers = [];
    handle_message_function = some (handle library);
    outward_messages = [];
  };
  actor = [];
  done = false;
  result = none;
  failure = none;
}

abbrev events : List (Event Bytes)
events =
    received (1 ∷ [])
    ∷ sends phone (proto (2 ∷ []))
    ∷ changed state_init state_done
    ∷ received (3 ∷ [])
    ∷ []

abbrev after : Service (Unit {0}) library
after = record {
  config = tt;
  pm = record {
    id = laptop;
    peers = [];
    handle_message_function = some (handle library);
    outward_messages = record { peer_id = phone; message = proto (2 ∷ []) } ∷ [];
  };
  actor = (3 ∷ []) ∷ (1 ∷ []) ∷ [];
  done = true;
  result = some (record { r = pos 3; s = pos 4 });
  failure = none;
}

run_returns_example :
    (p' : Service (Unit {0}) library) × (run library (str "failed") (service laptop) events ≡ ok p')
    × (already p'.done ≡ already (service laptop).done + endings events)
unfolding endings
run_returns_example =
    run_returns library (str "failed") library_returns (service laptop) events refl (omega arith)

phone_not_server : phone ≢ server_id
unfolding str
phone_not_server h = ground arith

abbrev sender : PeerManager Bytes (List Bytes)
sender = record {
  id = laptop;
  peers = [];
  handle_message_function = none;
  outward_messages = record { peer_id = phone; message = proto (5 ∷ []) } ∷ [];
}

relay_end_to_end_example :
    (pm pm' : PeerManager Bytes (List Bytes)) × (get_next_message_to_send_all ok sender
      ≡ ok (wire library phone (5 ∷ []), record sender { outward_messages = [] }))
    × (adder_generic_handle library (wire library phone (5 ∷ [])) (service server_id) server_id
        ≡ ok (record (service server_id) { pm = pm }))
    × (get_next_message_to_send_peer ok pm phone ≡ ok (wire library phone (5 ∷ []), pm'))
    × Took phone pm pm' []
    × (adder_generic_handle library (wire library phone (5 ∷ [])) (service phone) phone
        ≡ ok (record (service phone) { actor = (5 ∷ []) ∷ [] }))
unfolding pending
relay_end_to_end_example =
    relay_end_to_end library sender (service server_id) (service phone) phone (5 ∷ []) (5 ∷ []) []
      ((5 ∷ []) ∷ []) refl refl refl (omega arith, tt) refl phone_not_server refl refl refl

abbrev pub signer_library : SignerLibrary alice library
signer_library = record {
  Paillier = Unit {0};
  new_paillier = λ size. ok tt;
  new_signer = λ pm point paillier share bks message. ok [];
}

abbrev key_text : PubkeyStr
key_text = record { x = b'5' ∷ []; y = b'6' ∷ [] }

abbrev parameters : Dict Bk
parameters =
    (server_id, record { x = b'1' ∷ []; rank = 0 })
    ∷ (phone, record { x = b'2' ∷ []; rank = 0 })
    ∷ (laptop, record { x = b'3' ∷ []; rank = 0 })
    ∷ []

-- The signer that one side makes: it keeps the parameters of the server and the phone.
abbrev pub signer : Str → Str → Party SignerConfig library
signer own_id peer_id = record {
  service = record {
    config = record {
      pubkey = record { x = pos 5; y = pos 6 };
      share = b'9' ∷ [];
      bks =
          (phone, record { x = b'2' ∷ []; rank = 0 })
          ∷ (server_id, record { x = b'1' ∷ []; rank = 0 })
          ∷ [];
      message = 1 ∷ [];
    };
    pm = record {
      id = own_id;
      peers = (peer_id, true) ∷ [];
      handle_message_function = some (handle library);
      outward_messages = [];
    };
    actor = [];
    done = false;
    result = none;
    failure = none;
  };
  peer_id = phone;
}
