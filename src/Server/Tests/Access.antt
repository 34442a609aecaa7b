-- ===== src/Server/Tests/Access.antt =====
-- Runs of the authorization of requests and of the export, with small stand-ins for the libraries.
use meemaw.Prelude.{
  ◌≡◌, ◌⊎◌, refl, ℕ, true, false, not, [], ◌∷◌, Str, str, str_eq, str_eq_refl, str_eq_ne, is_empty,
  Dict, lookup, insert, keep_keys, lookup-insert, lookup-keep_keys, Outcome, ok, err, conversion,
}
use meemaw.Encoding.Hex.{encode}
use meemaw.Tss.Wallet.{PubkeyStr, Bk, DkgResult}
use meemaw.Server.Auth.{
  Context, with_value, Request, Response, pass, TokenParameters, CacheItem, token_parameters,
  other_item, Cache, CacheLaws, authorize_handler, auth_middleware,
}
use meemaw.Server.Auth.Identity.{
  secure, Authenticated, auth_middleware-Authenticated, auth_middleware-authorize_handler,
}
use meemaw.Server.Providers.{Web, supabase}
use meemaw.Server.Providers.Named.{NamedBySupabase, supabase-NamedBySupabase}
use meemaw.Server.Export.{Form, export_handler, number_bytes}
use meemaw.Server.Export.Tokens.{Exported, Refused, export_handler-cases}

abbrev pub cache : Cache
cache = record {
  Store = Dict CacheItem;
  set = insert;
  get = lookup;
  delete = λ k s. keep_keys (λ j. not (str_eq k j)) s;
}

cache_laws : CacheLaws cache
cache_laws = record {
  get-set = λ k v s. rw (lookup-insert k k v s, str_eq_refl k) refl;
  get-delete = λ k s. rw (lookup-keep_keys (λ j. not (str_eq k j)) k s, str_eq_refl k) refl;
  get-delete_other =
      λ k j s n. rw (lookup-keep_keys (λ i. not (str_eq k i)) j s, str_eq_ne k j n) refl;
}

abbrev params : TokenParameters
params = record { user_id = str "bob"; metadata = str "07" }

abbrev pub tokens : Dict CacheItem
tokens = (str "t1", token_parameters params) ∷ (str "bob-adderch", other_item) ∷ []

abbrev request : Request
request = record {
  method = str "POST";
  scheme = str "wss";
  headers = [];
  query = (str "token", str "t1" ∷ []) ∷ [];
}

abbrev context : Context
context =
    with_value (str "token") (str "t1")
      (with_value (str "metadata") (str "07") (with_value (str "userId") (str "bob") []))

auth_middleware-Authenticated_example :
    (secure false request (str "wss") ≡ true) × Authenticated cache tokens request context
unfolding auth_middleware lookup str str_eq
auth_middleware-Authenticated_example =
    auth_middleware-Authenticated cache false request tokens [] context refl

auth_middleware-authorize_handler_example :
    ((authorize_handler cache (str "t1") context []).0.body ≡ str "t1")
    × (auth_middleware cache false request (authorize_handler cache (str "t1") context []).1 []
        ≡ pass context)
unfolding lookup str str_eq
auth_middleware-authorize_handler_example =
    auth_middleware-authorize_handler cache cache_laws (str "t1") (str "bob") (str "07") context []
      [] false request [] refl refl refl refl

-- Supabase answers with the user's id.
abbrev web : Web
web = record {
  get = λ url hs. ok (record { status_code = 200; read_all = ok (b'7' ∷ []) });
  marshal_token = ok;
  post = λ url body. err conversion;
  unmarshal_user = ok;
  parse_uuid = λ s. ok tt;
}

supabase-NamedBySupabase_example :
    (is_empty (b'j' ∷ []) ≡ false)
    × NamedBySupabase web (str "https://s/") (str "key") (b'j' ∷ []) (b'7' ∷ [])
unfolding supabase
supabase-NamedBySupabase_example =
    supabase-NamedBySupabase web (str "https://s/") (str "key") (b'j' ∷ []) (b'7' ∷ []) refl

abbrev wallet : DkgResult
wallet = record {
  pubkey = record { x = []; y = [] };
  bks = [];
  share = b'9' ∷ [];
  address = [];
  peer_id = [];
}

abbrev retrieve : Context → Str → Outcome DkgResult
retrieve ctx user_id = ok wallet

abbrev recover : Str → PubkeyStr → Str → Str → Dict Bk → Outcome ℕ
recover client_peer_id k server_share client_share bks = ok 258

abbrev form : Outcome Form
form = ok (record { share = b'4' ∷ []; client_peer_id = b'p' ∷ [] })

abbrev exported : Response × Dict CacheItem
exported = (record { status = 200; body = str "0102" }, (str "bob-adderch", other_item) ∷ [])

export_handler-cases_example :
    Exported cache retrieve recover context form tokens exported
    ⊎ Refused cache retrieve recover tokens exported
unfolding export_handler lookup keep_keys str str_eq number_bytes encode insert
export_handler-cases_example =
    export_handler-cases cache retrieve recover request context form tokens exported refl
