-- ===== src/Client/Tests/Register.antt =====
-- A complete run of RegisterDevice, with the stand-ins that the server's handlers have.
use meemaw.Prelude.{
  ◌≡◌, ◌⊎◌, refl, true, List, [], ◌∷◌, some, none, false, Str, ok, err, conversion, str, str_eq,
  map_values, insert, lookup,
}
use meemaw.Prelude.Int.{pos}
use meemaw.Encoding.Decimal.{to_string, set_string}
use meemaw.Encoding.Hex.{encode, decode}
use meemaw.Tss.Wallet.{DkgResult, new_pubkey, get_ec_point, get_address, post_process_result}
use meemaw.Tss.Service.{state_init, state_done, handle}
use meemaw.Tss.Actors.{Party, server_id}
use meemaw.Tss.Actors.Adder.{AddNewConfig}
use meemaw.Tss.Tests.{alice, phone, laptop}
use meemaw.Ws.{
  peer_id_broadcast_message, pubkey_message, device_message, metadata_message,
  everything_stored_client_message, existing_device_done_message,
}
use meemaw.Ws.Endpoint.{reads, goes, starts, runs, reading, polling}
use meemaw.Server.Tests.Dkg.{library, with_share, key}
use meemaw.Client.AddDevice.{Setting, of_type}
use meemaw.Client.AddDevice.Register.{
  Register, Event, turns, tss_changes, finished, finished_empty, initial, run,
}
use meemaw.Client.AddDevice.Register.Safe.{reads_done, IsGiven, Comes, Fails}
use meemaw.Client.AddDevice.Register.Returns.{Reached, run-Comes}

abbrev setting : Setting
setting = record {
  a = alice;
  lib = library;
  al = record { new_old_peer = λ pm p t x bks id. ok []; new_new_peer = λ pm p t r. [] };
  marshal_json = λ m. ok [];
  unmarshal_json = λ bytes. err conversion;
  unmarshal_wallet = λ bytes. ok ((with_share phone []).pubkey, []);
  is_normal_closure = λ x. false;
}

abbrev events : List (Event setting)
events =
    turns (reads (of_type peer_id_broadcast_message phone))
    ∷ turns (goes (ok tt))
    ∷ turns (reads (of_type pubkey_message []))
    ∷ turns starts
    ∷ tss_changes state_init state_done
    ∷ turns (runs (ok tt))
    ∷ turns (runs (ok tt))
    ∷ turns (reads (of_type metadata_message key))
    ∷ turns (goes (ok tt))
    ∷ turns (reads (of_type existing_device_done_message []))
    ∷ turns (runs (ok tt))
    ∷ []

abbrev adder : Party AddNewConfig library
adder = record {
  service = record {
    config = record { pubkey = record { x = pos 5; y = pos 6 }; threshold = 2; rank = 0; bks = [] };
    pm = record {
      id = laptop;
      peers = (server_id, true) ∷ (phone, true) ∷ [];
      handle_message_function = some (handle library);
      outward_messages = [];
    };
    actor = [];
    done = true;
    result = some (record { public_key = (pos 5, pos 6); share = pos 9; bks = [] });
    failure = none;
  };
  peer_id = laptop;
}

abbrev end : Register setting
end = record {
  reader = reading;
  sender = polling;
  main = finished (with_share laptop (b'9' ∷ [])) key;
  stage = 40;
  new_client_peer_id = [];
  existing_client_peer_id = phone;
  metadata = key;
  adder = some adder;
  server_done = true;
  cancelled = true;
  errs = [];
  written =
      of_type device_message (str "laptop") ∷ of_type everything_stored_client_message [] ∷ [];
}

ran : run setting laptop (str "laptop") (initial setting) events ≡ ok end
unfolding run str_eq str decode encode new_pubkey set_string get_address post_process_result
    to_string map_values insert lookup meemaw.Tss.PeerManager.register_handle_message
    meemaw.Tss.PeerManager.add_peer meemaw.Tss.PeerManager.new_peer_manager get_ec_point
ran = refl

run-Comes_example :
    ((result : DkgResult) (metadata : Str)
      → end.main ≡ finished result metadata
      → Comes setting (Reached setting laptop (str "laptop") events) result
        × (reads_done events ≡ true)
        × (IsGiven events metadata ⊎ (metadata ≡ [])))
    × (end.main ≡ finished_empty → Fails setting (Reached setting laptop (str "laptop") events))
run-Comes_example = run-Comes setting laptop (str "laptop") events end ran
