-- ===== src/Client/Tests/Accept.antt =====
-- A complete run of AcceptDevice, with the stand-ins that the server's handlers have.
use meemaw.Prelude.{
  ◌≡◌, refl, true, false, List, [], ◌∷◌, some, none, ok, err, conversion, str, str_eq, map_values,
  keep_keys, insert, lookup,
}
use meemaw.Prelude.Int.{pos}
use meemaw.Encoding.Decimal.{to_string, set_string}
use meemaw.Encoding.Hex.{encode, decode}
use meemaw.Tss.Wallet.{new_pubkey, convert_dkg_result, get_address, post_process_result}
use meemaw.Tss.Service.{state_init, state_done, handle}
use meemaw.Tss.Actors.{Party, server_id}
use meemaw.Tss.Actors.Adder.{AddExistingConfig}
use meemaw.Tss.Tests.{alice, phone, laptop}
use meemaw.Ws.{
  peer_id_broadcast_message, metadata_message, metadata_ack_message, tss_done_message,
  new_device_done_message,
}
use meemaw.Ws.Endpoint.{reads, goes, starts, runs, reading, polling}
use meemaw.Server.Tests.Dkg.{library, with_share, key}
use meemaw.Client.AddDevice.{Setting, of_type}
use meemaw.Client.AddDevice.Accept.{
  Accept, Event, turns, tss_changes, finished, existing_device_done, initial, run,
}
use meemaw.Client.AddDevice.Accept.Safe.{told, reads_new_done, Fails}
use meemaw.Client.AddDevice.Accept.Returns.{Reached, run-told}

abbrev setting : Setting
setting = record {
  a = alice;
  lib = library;
  al = record { new_old_peer = λ pm p t x bks id. ok []; new_new_peer = λ pm p t r. [] };
  marshal_json = λ m. ok [];
  unmarshal_json = λ bytes. err conversion;
  unmarshal_wallet = λ bytes. err conversion;
  is_normal_closure = λ x. false;
}

abbrev events : List (Event setting)
events =
    turns (reads (of_type peer_id_broadcast_message laptop))
    ∷ turns (goes (ok tt))
    ∷ turns (reads (of_type metadata_ack_message []))
    ∷ turns starts
    ∷ tss_changes state_init state_done
    ∷ turns (runs (ok tt))
    ∷ turns (runs (ok tt))
    ∷ turns (runs (ok tt))
    ∷ turns (reads (of_type new_device_done_message []))
    ∷ turns (goes (ok tt))
    ∷ turns (runs (ok tt))
    ∷ []

abbrev adder : Party AddExistingConfig library
adder = record {
  service = record {
    config = record {
      pubkey = record { x = pos 5; y = pos 6 };
      share = b'9' ∷ [];
      threshold = 2;
      new_client_id = laptop;
      bks = [];
      original_bks = [];
    };
    pm = record {
      id = phone;
      peers = (server_id, true) ∷ [];
      handle_message_function = some (handle library);
      outward_messages = [];
    };
    actor = [];
    done = true;
    result = some (record { public_key = (pos 5, pos 6); share = pos 9; bks = [] });
    failure = none;
  };
  peer_id = phone;
}

abbrev end : Accept setting
end = record {
  reader = reading;
  sender = polling;
  main = finished;
  stage = 40;
  new_client_peer_id = laptop;
  existing_client_peer_id = [];
  metadata = [];
  adder = some adder;
  server_done = true;
  cancelled = true;
  errs = [];
  written = of_type metadata_message key ∷ of_type tss_done_message [] ∷ existing_device_done ∷ [];
}

ran : run setting (with_share phone (b'9' ∷ [])) key (initial setting) events ≡ ok end
unfolding run str_eq str decode encode new_pubkey set_string convert_dkg_result keep_keys
    get_address post_process_result to_string map_values insert lookup
    meemaw.Tss.PeerManager.register_handle_message meemaw.Tss.PeerManager.add_peer
    meemaw.Tss.PeerManager.new_peer_manager
ran = refl

run-told_example :
    (told end.written ≡ true → reads_new_done events ≡ true)
    × (end.main ≡ finished → told end.written ≡ true)
    × (end.main ≡ meemaw.Client.AddDevice.Accept.gave_up
        → Fails setting (Reached setting (with_share phone (b'9' ∷ [])) key events))
run-told_example = run-told setting (with_share phone (b'9' ∷ [])) key events end ran
