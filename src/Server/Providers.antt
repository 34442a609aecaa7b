-- ===== src/Server/Providers.antt =====
-- The auth providers (server/auth_providers.go). The two HTTP servers, the JSON decoding of the
-- answer and uuid.Parse are parameters; an answer has a status, and a body that may fail to be
-- read.
pub mod Named
use meemaw.Prelude.{
  ◌≡◌, ℕ, ◌||◌, List, [], ◌∷◌, ◌++◌, Str, str, str_eq, is_empty, trim_suffix_slash, ◌==◌,
  if◌then◌else◌, Outcome, ok, err, panic, ◌>>=◌, ◌>>◌, GoError, bad_request, unauthorized,
  not_found,
}
use meemaw.Encoding.Hex.{Bytes}

pub record AuthConfig : Type 0 where
  pub auth_type : Str
  pub auth_server_url : Str
  pub supabase_url : Str
  pub supabase_api_key : Str

pub record HttpAnswer : Type 0 where
  pub status_code : ℕ
  pub read_all : Outcome Bytes

pub record Web : Type 0 where
  pub get : Str → List (Str × Str) → Outcome HttpAnswer  -- NewRequest and client.Do: url, headers
  pub marshal_token : Str → Outcome Bytes  -- json.Marshal(AuthData{...})
  pub post : Str → Bytes → Outcome HttpAnswer
  pub unmarshal_user : Bytes → Outcome Str  -- the "id" of SupabaseUser, "" if it is absent
  pub parse_uuid : Str → Outcome (Unit {0})

as_bad_request : {A : Type 0} → Outcome A → Outcome A
as_bad_request (ok x) = ok x
as_bad_request (err e) = err bad_request
as_bad_request panic = panic

-- What a status other than 200 becomes.
supabase_error : ℕ → GoError
supabase_error status =
    if status == 400
    then bad_request
    else if status == 401 || status == 403
    then unauthorized
    else if status == 404
    then not_found
    else GoError.text (str "unknown error from Supabase")

custom_error : ℕ → GoError
custom_error status =
    if status == 400
    then bad_request
    else if status == 401
    then unauthorized
    else if status == 404
    then not_found
    else GoError.text (str "unknown error from custom auth")

read_answer : (ℕ → GoError) → HttpAnswer → Outcome Bytes
read_answer error answer =
    if answer.status_code == 200 then answer.read_all else err (error answer.status_code)

module _ (web : Web) where
  -- The id in the body, which must be there and be a UUID.
  user_of : Bytes → Outcome Str
  unfolding as_bad_request
  user_of body = do
    id ← as_bad_request (web.unmarshal_user body)
    if is_empty id then err bad_request else (as_bad_request (web.parse_uuid id) >> ok id)

  unfoldable pub supabase : Str → Str → Str → Outcome Str
  unfolding read_answer supabase_error user_of
  supabase supabase_url supabase_api_key jwt =
      if is_empty jwt
      then err bad_request
      else (web.get (trim_suffix_slash supabase_url ++ str "/auth/v1/user")
            ((str "Authorization", str "Bearer " ++ jwt) ∷ (str "apikey", supabase_api_key) ∷ [])
          >>= λ resp. read_answer supabase_error resp >>= λ body. user_of body)

  unfoldable pub custom_auth : Str → Str → Outcome Str
  unfolding read_answer custom_error
  custom_auth auth_server_url token =
      if is_empty token
      then err bad_request
      else (web.marshal_token token >>= λ req.
          web.post auth_server_url req >>= λ resp. read_answer custom_error resp)

  unfoldable pub auth_providers : AuthConfig → Str → Outcome Str
  unfolding supabase custom_auth
  auth_providers config bearer_token =
      if str_eq config.auth_type (str "supabase")
      then (if is_empty config.supabase_api_key || is_empty config.supabase_url
          then err (GoError.text (str "missing Supabase config"))
          else supabase config.supabase_url config.supabase_api_key bearer_token)
      else if str_eq config.auth_type (str "custom")
      then (if is_empty config.auth_server_url
          then err (GoError.text (str "missing custom auth url"))
          else custom_auth config.auth_server_url bearer_token)
      else err (GoError.text (str "wrong auth type"))
