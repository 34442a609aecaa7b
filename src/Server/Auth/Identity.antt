-- ===== src/Server/Auth/Identity.antt =====
-- A request acts for the user whom the auth provider named (server/handlers.go).
use meemaw.Prelude.{
  ◌≡◌, ◌≢◌, refl, ◌∙◌, ℕ, Bool, true, false, not, ◌||◌, List, [], ◌∷◌, Option, none, some, arith,
  Str, str, str_eq, str_eq_iff, lower, drop, length, Dict, lookup, if◌then◌else◌,
}
use meemaw.Server.Auth.{
  Context, with_value, Request, Verdict, pass, answer, header_prefix, add_header, header_middleware,
  insecure, TokenParameters, CacheItem, token_parameters, other_item, Cache, CacheLaws,
  authorize_handler, authenticate, issue, with_token, auth_middleware,
}
use meemaw.Prelude.Text.{lower_byte}

lower_byte-lower_byte : (b : ℕ) → lower_byte (lower_byte b) ≡ lower_byte b
unfolding lower_byte
lower_byte-lower_byte b = ground arith

lower-lower : (s : Str) → lower (lower s) ≡ lower s
unfolding lower
lower-lower [] = refl
lower-lower (b ∷ s) = rw (lower_byte-lower_byte b, lower-lower s) refl

-- A key of a header is in lower case, so that it is no key with an upper-case letter.
lookup-add_header :
    (key name : Str) (values : List Str) (ctx : Context)
    → lower key ≢ key
    → lookup key (add_header name values ctx) ≡ lookup key ctx
unfolding add_header lookup
lookup-add_header key name [] ctx h = refl
lookup-add_header key name (v ∷ vs) ctx h = ground (
  arith,
  str_eq_iff (lower (drop (length header_prefix) name)) key,
  lower-lower (drop (length header_prefix) name),
)

-- No header changes a value of the context whose key has an upper-case letter, such as "userId".
lookup-header_middleware :
    (key : Str) (headers : Dict (List Str)) (ctx : Context)
    → lower key ≢ key
    → lookup key (header_middleware headers ctx) ≡ lookup key ctx
unfolding header_middleware
lookup-header_middleware key [] ctx h = refl
lookup-header_middleware key ((name, values) ∷ headers) ctx h =
    lookup-header_middleware key headers (add_header name values ctx) h
    ∙ lookup-add_header key name values ctx h

abbrev pub secure : Bool → Request → Str → Bool
secure dev_mode r scheme = dev_mode || str_eq r.scheme scheme

module _ (c : Cache) where
  -- The context that an access token stands for.
  pub record Authenticated (store : c.Store) (r : Request) (ctx : Context) : Type 0 where
    pub token : Str
    pub more : List Str
    pub params : TokenParameters
    pub in_query : lookup (str "token") r.query ≡ some (token ∷ more)
    pub in_cache : c.get token store ≡ some (token_parameters params)
    pub user : lookup (str "userId") ctx ≡ some params.user_id
    pub metadata : lookup (str "metadata") ctx ≡ some params.metadata
    pub access_token : lookup (str "token") ctx ≡ some token

  authenticate-pass :
      (token : Str) (more : List Str) (o : Option CacheItem) (store : c.Store) (r : Request)
      (ctx ctx' : Context)
      → lookup (str "token") r.query ≡ some (token ∷ more)
      → c.get token store ≡ o
      → authenticate c token o ctx ≡ pass ctx'
      → Authenticated store r ctx'
  unfolding authenticate
  authenticate-pass token more none store r ctx ctx' q g h = cc h
  authenticate-pass token more (some other_item) store r ctx ctx' q g h = cc h
  authenticate-pass token more (some (token_parameters params)) store r ctx ctx' q g h =
      let made : Context = with_value (str "token") token (
        with_value (str "metadata") params.metadata
          (with_value (str "userId") params.user_id ctx)) in
      let same : made ≡ ctx' = cc h in
      rw (← same) (record {
        token = token;
        more = more;
        params = params;
        in_query = q;
        in_cache = g;
        user = unfold lookup str str_eq in refl;
        metadata = unfold lookup str str_eq in refl;
        access_token = unfold lookup str str_eq in refl;
      })

  with_token-pass :
      (o : Option (List Str)) (store : c.Store) (r : Request) (ctx ctx' : Context)
      → lookup (str "token") r.query ≡ o
      → with_token c o store ctx ≡ pass ctx'
      → Authenticated store r ctx'
  unfolding with_token
  with_token-pass none store r ctx ctx' q h = cc h
  with_token-pass (some []) store r ctx ctx' q h = cc h
  with_token-pass (some (token ∷ more)) store r ctx ctx' q h =
      authenticate-pass token more (c.get token store) store r ctx ctx' q refl h

  guarded :
      (b : Bool) (v : Verdict) (ctx' : Context)
      → (if not b then answer insecure else v) ≡ pass ctx'
      → (b ≡ true) × (v ≡ pass ctx')
  guarded true v ctx' h = (refl, h)
  guarded false v ctx' h = cc h

  -- authMiddleware passes a request on only over a secure connection or in development, with a token
  -- that the cache holds parameters for; then the user, the metadata and the token of the context
  -- are those of that entry, whatever the context held.
  pub auth_middleware-Authenticated :
      (dev_mode : Bool) (r : Request) (store : c.Store) (ctx ctx' : Context)
      → auth_middleware c dev_mode r store ctx ≡ pass ctx'
      → (secure dev_mode r (str "wss") ≡ true) × Authenticated store r ctx'
  unfolding auth_middleware
  auth_middleware-Authenticated dev_mode r store ctx ctx' h =
      let (e, h') = guarded (secure dev_mode r (str "wss")) _ ctx' h in
      (e, with_token-pass (lookup (str "token") r.query) store r ctx ctx' refl h')

  -- Over a secure connection, the token that AuthorizeHandler answers with is accepted by
  -- authMiddleware, and the context has the user and the metadata that AuthorizeHandler was called
  -- for.
  pub auth_middleware-authorize_handler :
      (laws : CacheLaws c) (token user_id metadata : Str) (ctx ctx' : Context) (store : c.Store)
      (dev_mode : Bool) (r : Request) (more : List Str)
      → lookup (str "userId") ctx ≡ some user_id
      → lookup (str "metadata") ctx ≡ some metadata
      → secure dev_mode r (str "wss") ≡ true
      → lookup (str "token") r.query ≡ some (token ∷ more)
      → ((authorize_handler c token ctx store).0.body ≡ token)
        × (auth_middleware c dev_mode r (authorize_handler c token ctx store).1 ctx'
            ≡ pass (
                with_value
                  (str "token")
                  token
                  (with_value (str "metadata") metadata (with_value (str "userId") user_id ctx'))))
  unfolding authorize_handler auth_middleware with_token authenticate issue
  auth_middleware-authorize_handler laws token user_id metadata ctx ctx' store dev_mode r more u m s
        q =
      let given : TokenParameters = record { user_id = user_id; metadata = metadata } in
      let held = laws.get-set token (token_parameters given) store in
      (rw (u, m, issue) refl, rw (s, q, u, m, issue, held, authenticate) refl)
