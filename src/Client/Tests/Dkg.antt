-- ===== src/Client/Tests/Dkg.antt =====
-- A complete run of the client's Dkg, with the stand-ins that the server's has.
use meemaw.Prelude.{
  ◌≡◌, refl, true, false, List, [], ◌∷◌, none, str, str_eq, map_values, insert, ok, err, conversion,
}
use meemaw.Encoding.Decimal.{to_string}
use meemaw.Encoding.Hex.{encode}
use meemaw.Tss.Wallet.{post_process_result}
use meemaw.Tss.PeerManager.{get_next_message_to_send_peer}
use meemaw.Tss.Service.{state_init, state_done}
use meemaw.Tss.Actors.{Party, DkgConfig}
use meemaw.Tss.Tests.{alice, phone}
use meemaw.Ws.{metadata_message}
use meemaw.Server.Tests.Dkg.{library, made, with_share, key}
use meemaw.Client.Dkg.{
  Setting, State, Event, reads, sender_runs, main_runs, tss_changes, reading, polling, finished,
  metadata_ack, initial, step, run, case_of,
}
use meemaw.Client.Dkg.Returns.{acks, one_if, At, Reached, run-acks}

abbrev setting : Setting
setting = record {
  a = alice;
  lib = library;
  new_dkg = λ pm threshold rank. ok [];
  marshal_json = λ m. ok [];
  unmarshal_json = λ bytes. err conversion;
  is_normal_closure = λ x. false;
}

abbrev before : Party DkgConfig library
before = record made { service = record made.service { done = false; result = none } }

abbrev events : List (Event setting)
events =
    sender_runs (ok tt)
    ∷ tss_changes state_init state_done
    ∷ main_runs
    ∷ main_runs
    ∷ reads (record { msg_type = metadata_message; msg = key }) (ok tt)
    ∷ main_runs
    ∷ []

abbrev end : State setting
end = record {
  stage = 40;
  metadata = key;
  dkg = made;
  reader = reading;
  sender = polling;
  main = finished (with_share phone (b'9' ∷ [])) key;
  server_done = true;
  cancelled = true;
  errs = [];
  written = metadata_ack ∷ [];
}

ran : run setting (initial setting before) events ≡ ok end
unfolding run step case_of str_eq str post_process_result to_string map_values insert encode
    get_next_message_to_send_peer
ran = refl

run-acks_example :
    (acks end.written ≡ one_if end.server_done)
    × At setting (Reached setting before events) (finished (with_share phone (b'9' ∷ [])) key) true
run-acks_example = run-acks setting before events end ran
