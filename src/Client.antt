-- ===== src/Client.antt =====
-- The client's requests (client/client.go): the addresses of the server, the access token, the identity, the
-- export of the key, and the preparation of a signature. net/url, net/http, the JSON decoder and the
-- websocket are parameters.
pub mod Session
pub mod Dkg
pub mod Exports
pub mod Backup
pub mod AddDevice
pub mod Tests
use meemaw.Prelude.{
  ℕ, Bool, ◌||◌, List, [], ◌∷◌, ◌++◌, Option, none, some, Str, str, str_eq, trim_suffix_slash,
  if◌then◌else◌, Outcome, ok, err, panic, ◌>>=◌, ◌==◌, not, GoError,
}
use meemaw.Encoding.Hex.{Bytes, encode}
use meemaw.Tss.Alice.{Alice}
use meemaw.Tss.Wallet.{DkgResult}
use meemaw.Tss.Service.{Library}
use meemaw.Tss.Actors.{Party}
use meemaw.Tss.Actors.Signer.{SignerConfig, SignerOutput, SignerLibrary, new_client_signer}

-- A response: its status, and what reading its body gives.
pub record Reply : Type 0 where
  pub status : ℕ
  pub body : Outcome Str

-- The result of websocket.Dial: a connection, or an error with a response if there is one.
pub data Dialled (Conn : Type 0) : Type 0 where
  connected : Conn → Dialled Conn
  refused : Option ℕ → GoError → Dialled Conn

pub record Web : Type 1 where
  pub Rest : Type 0  -- a parsed URL but for its scheme
  pub parse : Str → Outcome (Str × Rest)
  pub print : Str → Rest → Str
  pub get_with : Str → Str → Str → Outcome Reply  -- with the headers Authorization and M-METADATA
  pub get : Str → Outcome ℕ  -- http.Get, with the status
  pub post_form : Str → Str → Str → Outcome Reply  -- with the fields share and clientPeerID
  pub Conn : Type 0
  pub dial : Str → Dialled Conn
  pub unmarshal_json : Str → Outcome DkgResult

http_scheme : Str → Str
http_scheme scheme =
    if str_eq scheme (str "https") || str_eq scheme (str "wss")
    then str "https"
    else if str_eq scheme (str "http") || str_eq scheme (str "ws")
    then str "http"
    else scheme

ws_scheme : Str → Str
ws_scheme scheme =
    if str_eq scheme (str "https") || str_eq scheme (str "wss")
    then str "wss"
    else if str_eq scheme (str "http") || str_eq scheme (str "ws")
    then str "ws"
    else scheme

-- The handlers replace an error by another one.
abbrev pub or_error : {A B : Type 0} → Outcome A → GoError → (A → Outcome B) → Outcome B
or_error (ok a) e k = k a
or_error (err x) e k = err e
or_error panic e k = panic

module _ (w : Web) where
  unfoldable pub url_to_http : Str → Outcome Str
  unfolding http_scheme
  url_to_http url = w.parse url >>= λ p. ok (trim_suffix_slash (w.print (http_scheme p.0) p.1))

  unfoldable pub url_to_ws : Str → Outcome Str
  unfolding ws_scheme
  url_to_ws url = w.parse url >>= λ p. ok (trim_suffix_slash (w.print (ws_scheme p.0) p.1))

  body_of : Str → Reply → Outcome Str
  body_of endpoint r = if not (r.status == 200) then err (GoError.text endpoint) else r.body

  unfoldable pub get_auth_data_from_server : Str → Str → Str → Str → Outcome Str
  unfolding url_to_http body_of
  get_auth_data_from_server host auth_data metadata endpoint = do
    http_host ← url_to_http host
    reply ← w.get_with (http_host ++ endpoint) (str "Bearer " ++ auth_data) metadata
    body_of endpoint reply

  unfoldable pub identify : Str → Str → Outcome Str
  unfolding get_auth_data_from_server
  identify host auth_data = get_auth_data_from_server host auth_data [] (str "/identify")

  unfoldable pub get_access_token : Str → Str → Str → Outcome Str
  unfolding get_auth_data_from_server
  get_access_token host metadata auth_data =
      get_auth_data_from_server host auth_data metadata (str "/authorize")

  unfoldable pub export : Str → Str → Str → Str → Outcome Str
  unfolding get_access_token url_to_http
  export host dkg_result_str metadata auth_data =
      or_error (get_access_token host metadata auth_data) GoError.unauthorized (λ token.
        or_error (url_to_http host) GoError.bad_request (λ http_host.
          or_error (w.unmarshal_json dkg_result_str) GoError.bad_request (λ result.
            or_error
              (w.post_form (http_host ++ (str "/export?token=" ++ token)) result.share
                result.peer_id)
              GoError.bad_request (λ reply. or_error reply.body GoError.bad_request ok))))

  -- The errors that stand for the statuses of a refused connection.
  dial_error : Option ℕ → GoError → GoError
  dial_error none e = e
  dial_error (some status) e =
      if status == 401
      then GoError.unauthorized
      else if status == 400
      then GoError.bad_request
      else if status == 404
      then GoError.not_found
      else if status == 409
      then GoError.conflict
      else e

  unfoldable pub dialled : Dialled w.Conn → Outcome w.Conn
  unfolding dial_error
  dialled (connected c) = ok c
  dialled (refused status e) = err (dial_error status e)

  pub sign_path : Bytes → Str → Str → Str
  sign_path message token peer =
      str "/sign?msg=" ++ (encode message ++ (str "&token=" ++ (token ++ (str "&peer=" ++ peer))))

  module _ (a : Alice) (lib : Library SignerOutput) (signers : SignerLibrary a lib) where
    -- Sign, up to the start of its goroutines: the connection and the signer.
    unfoldable pub sign_start :
        Str → Bytes → Str → Str → Str → Outcome (w.Conn × Party SignerConfig lib)
    unfolding get_access_token url_to_ws dialled sign_path new_client_signer
    sign_start host message dkg_result_str metadata auth_data =
        or_error (get_access_token host metadata auth_data) GoError.unauthorized (λ token.
          or_error (w.unmarshal_json dkg_result_str) GoError.bad_request (λ result.
            or_error (url_to_ws host) GoError.bad_request (λ ws_host. do
              c ← dialled (w.dial (ws_host ++ sign_path message token result.peer_id))
              or_error
                  (new_client_signer a lib signers result.peer_id result.pubkey result.share
                    result.bks message)
                  GoError.bad_request (λ signer. ok (c, signer)))))
