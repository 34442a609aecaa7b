-- ===== src/Server/Tests/Sign.antt =====
-- A signing session of the server with stand-ins for the libraries, and what begins one.
use meemaw.Prelude.{
  ◌≡◌, refl, select, true, List, [], ◌∷◌, some, str, str_eq, lookup, keep_keys, insert, ok,
}
use meemaw.Prelude.Int.{pos}
use meemaw.Encoding.Hex.{decode, encode}
use meemaw.Tss.Signature.{
  Signature, post_process, bad_size, byte_len, to_low_s, sign_bytes, recover_loop, finish, field,
}
use meemaw.Tss.Wallet.{pub_key_addr, get_address, new_pubkey, convert_dkg_result}
use meemaw.Tss.PeerManager.{
  get_next_message_to_send, register_handle_message, add_peer, new_peer_manager,
}
use meemaw.Encoding.Decimal.{set_string}
use meemaw.Tss.Actors.Signer.{new_server_signer}
use meemaw.Tss.Service.{state_init, state_done}
use meemaw.Tss.Actors.{server_id}
use meemaw.Tss.Connection.{opened}
use meemaw.Tss.Tests.{alice, phone}
use meemaw.Tss.Tests.Actors.{library, signer_library, signer}
use meemaw.Tss.Tests.Signing.{ecdsa, other_key, sig_bytes}
use meemaw.Server.Auth.{Context}
use meemaw.Server.Database.{dkg, get_user_signing_parameters}
use meemaw.Server.Origin.{Upgrade}
use meemaw.Server.Sign.{
  Setting, Signer, Query, State, Event, writes, main_runs, tss_changes, finished, initial, step,
  run, sign_start,
}
use meemaw.Server.Sign.Session.{At, run-At_session}
use meemaw.Server.Sign.Begun.{IsBegun, sign_start-IsBegun}
use meemaw.Server.Tests.{user, empty}
use meemaw.Server.Tests.Access.{cache, tokens}
use meemaw.Server.Tests.Dkg.{json_crypto, wallet, key}

abbrev setting : Setting
setting = record {
  a = alice;
  lib = library;
  signers = signer_library;
  ecdsa = ecdsa other_key;
  crypto = json_crypto phone;
  messages = record { unmarshal_dkg = ok; unmarshal_sign = ok };
  cache = cache;
}

abbrev server_side : Signer setting
server_side = signer server_id phone

abbrev events : List (Event setting)
events = writes (ok tt) ∷ tss_changes state_init state_done ∷ main_runs ∷ main_runs ∷ []

abbrev out : Signature
out = record { r = pos 3; s = pos 4; signature = sig_bytes 3 4 }

abbrev end : State setting
end = record {
  connection = opened (record server_side {
    service = record server_side.service {
      done = true;
      result = some (record { r = pos 3; s = pos 4 });
    };
  });
  main = finished out;
  done = true;
  store = cache.delete (str "t1") tokens;
}

ran : run setting (str "t1") (initial setting (str "t1") server_side tokens) events ≡ ok end
unfolding run step get_next_message_to_send post_process bad_size byte_len to_low_s sign_bytes
    recover_loop str_eq pub_key_addr get_address finish field
ran = refl

run-At_session_example : At setting (str "t1") server_side tokens (finished out) end.store
run-At_session_example = run-At_session setting (str "t1") server_side tokens events end ran

abbrev upgrade : Upgrade
upgrade = record { parse = λ s. ok (s, []); Conn = Unit {0}; accept = λ origin. ok tt }

abbrev context : Context
context = (str "userId", user) ∷ (str "token", str "t1") ∷ (str "metadata", key) ∷ []

abbrev query : Query
query = record { msg = str "01"; peer = phone }

abbrev begun : Signer setting
begun = record server_side {
  service = record server_side.service { config = record server_side.service.config { bks = [] } };
}

sign_start-IsBegun_example :
    IsBegun setting upgrade (str "*") context query (dkg wallet empty).1 (str "t1") begun
unfolding sign_start lookup str_eq str decode get_user_signing_parameters select dkg encode
    new_server_signer new_pubkey set_string convert_dkg_result keep_keys register_handle_message
    add_peer new_peer_manager insert
sign_start-IsBegun_example =
    sign_start-IsBegun setting upgrade (str "*") context query (dkg wallet empty).1 (str "t1") begun
      refl
