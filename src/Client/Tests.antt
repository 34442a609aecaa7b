-- ===== src/Client/Tests.antt =====
-- Runs of the client against a server, with stand-ins for the libraries and the connections.
pub mod Dkg
pub mod Accept
pub mod Register
use meemaw.Prelude.{
  ◌≡◌, ◌⊎◌, refl, ℕ, Bool, true, not, List, [], ◌∷◌, ◌++◌, none, some, Str, str, str_eq, is_empty,
  lookup, Dict, keep_keys, insert, if◌then◌else◌, Outcome, ok, err, panic, ◌>>=◌, GoError,
  trim_suffix_slash,
}
use meemaw.Prelude.Int.{pos}
use meemaw.Tss.Wallet.{
  DkgResult, PubkeyStr, Bk, pub_key_addr, get_address, new_pubkey, convert_dkg_result,
}
use meemaw.Tss.PeerManager.{
  register_handle_message, add_peer, new_peer_manager, get_next_message_to_send,
}
use meemaw.Tss.Signature.{
  Signature, post_process, bad_size, byte_len, to_low_s, sign_bytes, recover_loop, finish, field,
}
use meemaw.Tss.Service.{state_init, state_done}
use meemaw.Tss.Actors.{server_id, keeps}
use meemaw.Tss.Connection.{opened}
use meemaw.Tss.Tests.{alice, phone, laptop}
use meemaw.Tss.Actors.Signer.{new_client_signer}
use meemaw.Encoding.Decimal.{set_string}
use meemaw.Tss.Tests.Actors.{library, signer_library, signer}
use meemaw.Tss.Tests.Signing.{ecdsa, other_key, sig_bytes}
use meemaw.Server.Auth.{Context, Request, Response, http_error, CacheItem}
use meemaw.Server.Export.{export_handler, wallet_error}
use meemaw.Server.Export.Tokens.{Refused}
use meemaw.Server.Tests.Access.{cache, tokens}
use meemaw.Server.Tests.Dkg.{with_share}
use meemaw.Client.{
  Web, Reply, refused, connected, get_access_token, export, url_to_http, url_to_ws, dialled,
  sign_start,
}
use meemaw.Client.Exports.{reply_of, IsExport, export-export_handler}
use meemaw.Client.Session.{
  Setting, State, Event, reads, writes, main_runs, tss_changes, returned, initial, step, run,
}
use meemaw.Client.Session.Signed.{IsSignatureOf, run-IsSignatureOf}

abbrev retrieve : Context → Str → Outcome DkgResult
retrieve ctx user_id = err GoError.not_found

abbrev recover : Str → PubkeyStr → Str → Str → Dict Bk → Outcome ℕ
recover peer_id pubkey share client_share bks = ok 1

abbrev request : Request
request = record { method = str "POST"; scheme = str "https"; headers = []; query = [] }

abbrev context : Context
context = (str "userId", str "bob") ∷ (str "token", str "t1") ∷ []

abbrev answer : Outcome Reply
answer =
    export_handler cache retrieve recover request context
      (ok (record { share = b'9' ∷ []; client_peer_id = phone })) tokens
    >>= λ a. ok (reply_of a.0)

-- A server that gives the token t1, and answers to the form with ExportHandler.
abbrev web : Web
web = record {
  Rest = Str;
  parse = λ s. ok ([], s);
  print = λ scheme rest. rest;
  get_with = λ url auth metadata. ok (record { status = 200; body = ok (str "t1") });
  get = λ url. ok 426;
  post_form = λ url share peer_id. answer;
  Conn = Unit {0};
  dial = λ url. refused none GoError.time_out;
  unmarshal_json = λ s. ok (with_share phone (b'9' ∷ []));
}

abbrev refusal : Response × Dict CacheItem
refusal = (http_error (str "Wallet does not exist.") 404, tokens)

export-export_handler_example :
    IsExport web cache retrieve recover
      (with_share phone (b'9' ∷ []))
      context
      tokens
      refusal
      (export web (str "h") [] [] [])
    ⊎ (Refused cache retrieve recover tokens refusal
        × (export web (str "h") [] [] [] ≡ ok refusal.0.body))
unfolding get_access_token url_to_http export_handler wallet_error str str_eq lookup
    trim_suffix_slash
export-export_handler_example =
    export-export_handler web cache retrieve recover (str "h") [] [] [] (str "t1") (str "h")
      (with_share phone (b'9' ∷ [])) request context tokens refusal refl refl refl refl refl

abbrev setting : Setting
setting = record {
  a = alice;
  lib = library;
  signers = signer_library;
  ecdsa = ecdsa other_key;
  messages = record { unmarshal_dkg = ok; unmarshal_sign = ok };
}

-- The process ends, and then the server closes the connection.
abbrev events : List (Event setting)
events =
    writes (ok tt)
    ∷ tss_changes state_init state_done
    ∷ main_runs
    ∷ main_runs
    ∷ reads (err GoError.time_out)
    ∷ main_runs
    ∷ []

abbrev out : Signature
out = record { r = pos 3; s = pos 4; signature = sig_bytes 3 4 }

abbrev end : State setting
end = record {
  connection =
      record (opened (record (signer phone server_id) {
        service = record (signer phone server_id).service {
          done = true;
          result = some (record { r = pos 3; s = pos 4 });
        };
      })) { receiving = Bool.false };
  main = returned (ok out);
  cancelled = true;
}

ran : run setting (initial setting (signer phone server_id)) events ≡ ok end
unfolding run step get_next_message_to_send post_process bad_size byte_len to_low_s sign_bytes
    recover_loop str_eq pub_key_addr get_address finish field
ran = refl

-- The wallet of the phone, which shares its key with the server and a laptop.
abbrev wallet : DkgResult
wallet = record (with_share phone (b'9' ∷ [])) {
  bks =
      (server_id, record { x = b'1' ∷ []; rank = 0 })
      ∷ (phone, record { x = b'2' ∷ []; rank = 0 })
      ∷ (laptop, record { x = b'3' ∷ []; rank = 0 })
      ∷ [];
}

-- A server that accepts the connection.
abbrev accepting : Web
accepting = record web { dial = λ url. connected tt; unmarshal_json = λ s. ok wallet }

started :
    sign_start accepting alice library signer_library (str "h") (1 ∷ []) [] [] []
    ≡ ok (tt, signer phone server_id)
unfolding sign_start get_access_token url_to_ws dialled str str_eq lookup trim_suffix_slash
    new_client_signer new_pubkey set_string convert_dkg_result keep_keys register_handle_message
    add_peer new_peer_manager insert keeps
started = refl

run-IsSignatureOf_example : IsSignatureOf setting accepting (1 ∷ []) [] out
run-IsSignatureOf_example =
    run-IsSignatureOf setting accepting (str "h") (1 ∷ []) [] [] [] tt (signer phone server_id)
      events end out started ran refl
