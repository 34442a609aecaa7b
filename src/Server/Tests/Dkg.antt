-- ===== src/Server/Tests/Dkg.antt =====
-- A complete run of DkgHandler with stand-ins for the library, the vault and the connection.
use meemaw.Prelude.{
  ◌≡◌, refl, ap, true, false, List, [], ◌∷◌, none, some, select, arith, Str, str, str_eq,
  str_eq_iff, replicate, Dict, map_values, insert, if◌then◌else◌, Outcome, ok, err, GoError,
  conversion,
}
use meemaw.Prelude.Int.{pos}
use meemaw.Encoding.Hex.{Bytes, encode}
use meemaw.Encoding.Decimal.{to_string}
use meemaw.Tss.Wallet.{Bk, DkgResult, Output, post_process_result}
use meemaw.Tss.PeerManager.{
  get_next_message_to_send_peer, register_handle_message, add_peer, new_peer_manager,
}
use meemaw.Tss.Service.{Library, state_init, state_done, handle}
use meemaw.Tss.Actors.{Party, DkgConfig}
use meemaw.Tss.Tests.{alice}
use meemaw.Ws.{
  WsMessage, peer_id_broadcast_message, metadata_message, metadata_ack_message, same_type,
}
use meemaw.Server.Database.{DkgParams, dkg, get_user_by_foreign_key, one, users_with}
use meemaw.Server.Vault.{Crypto, CryptoLaws, wallet_exists, retrieve_wallet}
use meemaw.Server.Dkg.{
  Setting, State, reading, polling, returned, finished, waits_start, not_started, Event, reads,
  starts, stage_set, sender_runs, main_runs, tss_changes, initial, step, run, rendezvous, main_turn,
}
use meemaw.Server.Dkg.Steps.{metadata_of}
use meemaw.Server.Dkg.Safety.{Comes, At, Reached, run-At}
use meemaw.Server.Dkg.Protocol.{Reaches, view, Passes, run-Reaches}
use meemaw.Server.Dkg.Result.{run-retrieve_wallet}
use meemaw.Server.Dkg.Stuck.{run-waits_start}
use meemaw.Server.Tests.{user, empty, phone, crypto, empty-HasIntegrity, zeros}

abbrev pub library : Library (Output alice)
library = record {
  M = Bytes;
  Actor = List Bytes;
  marshal = ok;
  unmarshal = ok;
  add_message = λ actor m. ok (m ∷ actor);
  get_result = λ actor. ok (record { public_key = (pos 5, pos 6); share = pos 9; bks = [] });
}

abbrev pub address_text : Str
address_text = encode (7 ∷ [])

-- The results that the stand-in for JSON knows: those that differ from a given one in the share only.
abbrev pub with_share : Str → Str → DkgResult
with_share peer share = record {
  pubkey = record { x = b'5' ∷ []; y = b'6' ∷ [] };
  bks = [];
  share = share;
  address = address_text;
  peer_id = peer;
}

unfoldable pub exactly : Str → Str → Outcome Bytes → Outcome Bytes
exactly s t m = if str_eq s t then m else err conversion

exactly-ok :
    (s t : Str) (m : Outcome Bytes) (json : Bytes)
    → exactly s t m ≡ ok json
    → (s ≡ t) × (m ≡ ok json)
unfolding exactly
exactly-ok s t m json h = ground (arith, h, str_eq_iff s t)

unfoldable pub without_bks : Dict Bk → Str → Outcome Bytes
without_bks [] share = ok share
without_bks (b ∷ bks) share = err conversion

without_bks-ok :
    (bks : Dict Bk) (share : Str) (json : Bytes)
    → without_bks bks share ≡ ok json
    → (bks ≡ []) × (share ≡ json)
unfolding without_bks
without_bks-ok [] share json h = (refl, cc h)
without_bks-ok (b ∷ bks) share json h = cc h

unfoldable pub json_of : Str → DkgResult → Outcome Bytes
unfolding exactly without_bks
json_of peer r = exactly r.pubkey.x (b'5' ∷ []) (
    exactly r.pubkey.y (b'6' ∷ [])
      (exactly r.address address_text (exactly r.peer_id peer (without_bks r.bks r.share))))

json_of-ok :
    (peer : Str) (r : DkgResult) (json : Bytes)
    → json_of peer r ≡ ok json
    → with_share peer json ≡ r
unfolding json_of
json_of-ok peer r json h =
    let (ex, h₁) = exactly-ok r.pubkey.x _ _ json h in
    let (ey, h₂) = exactly-ok r.pubkey.y _ _ json h₁ in
    let (ea, h₃) = exactly-ok r.address _ _ json h₂ in
    let (ep, h₄) = exactly-ok r.peer_id _ _ json h₃ in
    let (eb, es) = without_bks-ok r.bks r.share json h₄ in cc (ex, ey, ea, ep, eb, es)

abbrev pub json_crypto : Str → Crypto
json_crypto peer = record crypto {
  marshal_json = json_of peer;
  unmarshal_json = λ json. ok (with_share peer json);
}

pub json_crypto_laws : (peer : Str) → CryptoLaws (json_crypto peer)
json_crypto_laws peer = record {
  read_full-length = λ n r bytes r' h. zeros n bytes r' h;
  gcm_open-gcm_seal = λ gcm nonce plaintext h. refl;
  unmarshal-marshal = λ r json h. ap ok (json_of-ok peer r json h);
}

abbrev setting : Setting
setting = record {
  a = alice;
  lib = library;
  new_dkg = λ pm threshold rank. ok [];
  crypto = json_crypto phone;
  marshal_json = λ m. ok [];
  unmarshal_json = λ bytes. err conversion;
  is_normal_closure = λ x. false;
}

abbrev ack : WsMessage
ack = record { msg_type = metadata_ack_message; msg = [] }

abbrev events : List (Event setting)
events =
    reads (record { msg_type = peer_id_broadcast_message; msg = phone }) (ok tt)
    ∷ starts
    ∷ sender_runs (ok tt)
    ∷ stage_set
    ∷ tss_changes state_init state_done
    ∷ main_runs (ok tt)
    ∷ main_runs (ok tt)
    ∷ main_runs (ok tt)
    ∷ main_runs (ok tt)
    ∷ reads ack (ok tt)
    ∷ main_runs (ok tt)
    ∷ []

abbrev pub key : Str
key = encode (replicate 32 0)

abbrev pub made : Party DkgConfig library
made = record {
  service = record {
    config = record { threshold = 2; rank = 0 };
    pm = record {
      id = str "server";
      peers = (phone, true) ∷ [];
      handle_message_function = some (handle library);
      outward_messages = [];
    };
    actor = [];
    done = true;
    result = some (record { public_key = (pos 5, pos 6); share = pos 9; bks = [] });
    failure = none;
  };
  peer_id = phone;
}

abbrev pub wallet : DkgParams
wallet = record {
  user_agent = [];
  peer_id = phone;
  foreign_key = user;
  public_address = address_text;
  encrypted_dkg_results = b'9' ∷ [];
  nonce = 0 ∷ 0 ∷ [];
}

abbrev end : State setting
end = record {
  stage = 40;
  client_peer_id = phone;
  dkg = some made;
  reader = reading;
  sender = polling;
  main = finished;
  server_done = true;
  cancelled = true;
  errs = [];
  written = record { msg_type = metadata_message; msg = key } ∷ [];
  db = (dkg wallet empty).1;
  random = tt;
}

ran : run setting user [] (initial setting empty tt) events ≡ ok end
unfolding run step json_of exactly without_bks str_eq str get_next_message_to_send_peer
    register_handle_message add_peer new_peer_manager post_process_result to_string encode
    map_values insert
ran = refl

run-At_example :
    At setting user [] empty tt
      (Reached setting user [] empty tt events)
      finished
      end.db
      tt
      (key ∷ [])
unfolding metadata_of same_type str_eq str
run-At_example = run-At setting user [] empty tt events end ran

run-Reaches_example :
    Reaches setting user []
      (Passes setting user [] (initial setting empty tt) events)
      (view setting user []
        (Passes setting user [] (initial setting empty tt) events)
        (initial setting empty tt))
      (view setting user [] (Passes setting user [] (initial setting empty tt) events) end)
run-Reaches_example = run-Reaches setting user [] events (initial setting empty tt) end ran

run-retrieve_wallet_example :
    (end.server_done ≡ true)
    × (metadata : Str) × (metadata_of end.written ≡ metadata ∷ [])
    × (result : DkgResult) × Comes setting user [] empty tt
        (Reached setting user [] empty tt events)
        result
    × (retrieve_wallet (json_crypto phone) (some metadata) user end.db ≡ ok result)
unfolding wallet_exists get_user_by_foreign_key users_with one select
run-retrieve_wallet_example =
    run-retrieve_wallet setting (json_crypto_laws phone) user [] empty tt events end
      empty-HasIntegrity refl ran refl

-- The connection broke before the device said its peer id.
abbrev alone : State setting
alone = record (initial setting empty tt) { reader = returned; errs = GoError.time_out ∷ [] }

run-waits_start_example :
    (alone.reader ≡ returned) × (alone.main ≡ waits_start) × (alone.sender ≡ not_started)
unfolding run step rendezvous main_turn
run-waits_start_example =
    run-waits_start setting user [] alone alone (starts ∷ main_runs (ok tt) ∷ []) refl refl refl
      refl
