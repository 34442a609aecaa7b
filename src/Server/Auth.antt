-- ===== src/Server/Auth.antt =====
-- Who a request is from: the middlewares and the two authorization handlers of server/handlers.go. A
-- request's context is the list of its values, the newest first, and all values are strings. The
-- cache of access tokens is library code, read at one moment, and a parameter.
pub mod Identity
use meemaw.Prelude.{
  ◌≡◌, ◌≢◌, ℕ, Bool, not, ◌||◌, List, [], ◌∷◌, ◌++◌, Option, none, some, Str, str, str_eq, is_empty,
  has_prefix, lower, drop, length, Dict, lookup, if◌then◌else◌, Outcome, ok, err, panic,
}

abbrev pub Context : Type 0
Context = Dict Str

abbrev pub with_value : Str → Str → Context → Context
with_value key v ctx = (key, v) ∷ ctx

pub record Request : Type 0 where
  pub method : Str
  pub scheme : Str  -- r.URL.Scheme
  pub headers : Dict (List Str)
  pub query : Dict (List Str)

-- What a handler writes, with the status.
pub record Response : Type 0 where
  pub status : ℕ
  pub body : Str

-- A middleware hands a context to the next handler, or answers by itself.
pub data Verdict : Type 0 where
  pass : Context → Verdict
  answer : Response → Verdict

-- http.Error writes the text and a newline.
abbrev pub http_error : Str → ℕ → Response
http_error text status = record { status = status; body = text ++ 10 ∷ [] }

abbrev pub header_prefix : Str
header_prefix = str "M-"

add_header : Str → List Str → Context → Context
add_header name [] ctx = ctx
add_header name (v ∷ vs) ctx =
    if has_prefix header_prefix name
    then with_value (lower (drop (length header_prefix) name)) v ctx
    else ctx

-- headerMiddleware, over the entries of the header map.
unfoldable pub header_middleware : Dict (List Str) → Context → Context
unfolding add_header
header_middleware [] ctx = ctx
header_middleware ((name, values) ∷ headers) ctx =
    header_middleware headers (add_header name values ctx)

-- The first value of a key, and "" where there is none (http.Header.Get).
first_value : Option (List Str) → Str
first_value none = []
first_value (some []) = []
first_value (some (v ∷ vs)) = v

-- strings.Replace(s, old, "", 1), for an `old` that is not empty.
unfoldable pub remove_first : Str → Str → Str
remove_first old [] = []
remove_first old (c ∷ s) =
    let rest = remove_first old s in
    if has_prefix old (c ∷ s) then drop (length old) (c ∷ s) else c ∷ rest

unfoldable pub get_bearer_token_from_header : Str → Str
unfolding remove_first
get_bearer_token_from_header header = remove_first (str " ") (remove_first (str "Bearer") header)

abbrev pub insecure : Response
insecure = http_error (str "Secure connection required") 401

-- identityMiddleware. `config` is _getAuthConfig, and `providers` is authProviders.
unfoldable pub identity_middleware :
    {AuthConfig : Type 0}
    → Bool
    → Outcome AuthConfig
    → (AuthConfig → Str → Outcome Str)
    → Request
    → Context
    → Outcome Verdict
unfolding first_value get_bearer_token_from_header
identity_middleware dev_mode config providers r ctx =
    let header = first_value (lookup (str "Authorization") r.headers) in
    let bearer = get_bearer_token_from_header header in
    if not (dev_mode || str_eq r.scheme (str "https"))
    then ok (answer insecure)
    else if is_empty header || is_empty bearer
    then ok (answer (http_error (str "Authorization header required") 401))
    else elim config [
      | err e ↦ ok (answer (http_error (str "Problem getting auth config") 400))
      | panic ↦ panic
      | ok auth_config ↦ elim (providers auth_config bearer) [
        | err e ↦ ok (answer (http_error (str "Invalid auth token") 401))
        | panic ↦ panic
        | ok user_id ↦ ok (pass (with_value (str "userId") user_id ctx))
      ]
    ]

abbrev pub no_authorization : Response
no_authorization = http_error (str "Authorization info not found") 401

unfoldable pub identify_handler : Context → Response
identify_handler ctx = elim (lookup (str "userId") ctx) [
  | none ↦ no_authorization
  | some user_id ↦ record { status = 200; body = user_id }
]

pub record TokenParameters : Type 0 where
  pub user_id : Str
  pub metadata : Str

-- What the cache holds: the parameters of an access token, or the channels and devices of
-- server/tss_add.go.
pub data CacheItem : Type 0 where
  token_parameters : TokenParameters → CacheItem
  other_item : CacheItem

-- github.com/patrickmn/go-cache.
pub record Cache : Type 1 where
  pub Store : Type 0
  pub set : Str → CacheItem → Store → Store
  pub get : Str → Store → Option CacheItem
  pub delete : Str → Store → Store

-- An entry is there from the moment it is set, and gone from the moment it is deleted.
pub record CacheLaws (c : Cache) : Type 0 where
  pub get-set : (k : Str) (v : CacheItem) (s : c.Store) → c.get k (c.set k v s) ≡ some v
  pub get-delete : (k : Str) (s : c.Store) → c.get k (c.delete k s) ≡ none
  pub get-delete_other : (k j : Str) (s : c.Store) → k ≢ j → c.get j (c.delete k s) ≡ c.get j s

module _ (c : Cache) where
  open c use {Store}

  -- Either value may be missing from the context, the user first.
  issue : Str → Option Str → Option Str → Store → Response × Store
  issue access_token none metadata store = (no_authorization, store)
  issue access_token (some user_id) none store = (no_authorization, store)
  issue access_token (some user_id) (some metadata) store = (
    record { status = 200; body = access_token },
    c.set access_token (token_parameters (record { user_id = user_id; metadata = metadata })) store,
  )

  -- `access_token` is uuid.New().String().
  unfoldable pub authorize_handler : Str → Context → Store → Response × Store
  unfolding issue
  authorize_handler access_token ctx store =
      issue access_token (lookup (str "userId") ctx) (lookup (str "metadata") ctx) store

  authenticate : Str → Option CacheItem → Context → Verdict
  authenticate token none ctx = answer (http_error (str "The access token does not exist") 401)
  authenticate token (some other_item) ctx =
      answer (http_error (str "Issue during authorization") 400)
  authenticate token (some (token_parameters params)) ctx = pass (
      with_value (str "token") token (
        with_value (str "metadata") params.metadata (with_value (str "userId") params.user_id ctx)))

  with_token : Option (List Str) → Store → Context → Verdict
  unfolding authenticate
  with_token (some (token ∷ more)) store ctx = authenticate token (c.get token store) ctx
  with_token _ store ctx = answer (http_error (str "You need to provide an access token") 401)

  unfoldable pub auth_middleware : Bool → Request → Store → Context → Verdict
  unfolding with_token
  auth_middleware dev_mode r store ctx =
      if not (dev_mode || str_eq r.scheme (str "wss"))
      then answer insecure
      else with_token (lookup (str "token") r.query) store ctx
