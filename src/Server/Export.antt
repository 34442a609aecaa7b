-- ===== src/Server/Export.antt =====
-- ExportHandler (server/tss_recover.go). `retrieve` is the vault's RetrieveWallet, `recover` is
-- RecoverPrivateKeyWrapper and gives D, and `form` is the form of the request, once parsed.
pub mod Tokens
use meemaw.Prelude.{
  ◌≡◌, ℕ, zero, suc, ◌/◌, ◌%◌, not, ◌||◌, [], ◌∷◌, ◌++◌, Option, some, Str, str, str_eq, is_empty,
  contains, Dict, lookup, if◌then◌else◌, Outcome, ok, err, panic, GoError, ◌==◌,
}
use meemaw.Encoding.Hex.{Bytes, encode}
use meemaw.Tss.Wallet.{DkgResult, PubkeyStr, Bk}
use meemaw.Prelude.Errors.{error_text}
use meemaw.Server.Auth.{Context, Request, Response, http_error, no_authorization, Cache}

-- (*big.Int).Bytes: the bytes of a number, most significant first, without leading zeros; the number is
-- fuel enough.
bytes_from : ℕ → ℕ → Bytes
bytes_from zero n = []
bytes_from (suc f) n =
    let rest = bytes_from f (n / 256) in if n == 0 then [] else rest ++ (n % 256) ∷ []

unfoldable pub number_bytes : ℕ → Bytes
unfolding bytes_from
number_bytes n = bytes_from n n

abbrev internal_error : Response
internal_error = http_error (str "Internal Server Error") 500

-- `errors.Is(err, &types.ErrNotFound{})`: the pointers to values of no size are equal.
unfoldable pub wallet_error : GoError → Response
wallet_error GoError.not_found = http_error (str "Wallet does not exist.") 404
wallet_error _ = internal_error

unfoldable pub recover_error : GoError → Response
unfolding error_text
recover_error e =
    if contains (str "invalid point") (error_text e)
    then http_error (str "Bad Request") 400
    else internal_error

pub record Form : Type 0 where
  pub share : Str
  pub client_peer_id : Str

module _ (c : Cache) (retrieve : Context → Str → Outcome DkgResult)
    (recover : Str → PubkeyStr → Str → Str → Dict Bk → Outcome ℕ) where
  open c use {Store}

  exported : Str → Store → Outcome ℕ → Outcome (Response × Store)
  exported token store (ok d) =
      ok (record { status = 200; body = encode (number_bytes d) }, c.delete token store)
  exported token store (err e) = ok (recover_error e, store)
  exported token store panic = panic

  with_wallet : Form → Str → Store → Outcome DkgResult → Outcome (Response × Store)
  unfolding exported
  with_wallet form token store (ok w) =
      exported token store (recover form.client_peer_id w.pubkey w.share form.share w.bks)
  with_wallet form token store (err e) = ok (wallet_error e, store)
  with_wallet form token store panic = panic

  with_form : Context → Str → Str → Store → Outcome Form → Outcome (Response × Store)
  unfolding with_wallet
  with_form ctx user_id token store (ok form) =
      if is_empty form.share || is_empty form.client_peer_id
      then ok (http_error (str "Missing information") 400, store)
      else with_wallet form token store (retrieve ctx user_id)
  with_form ctx user_id token store (err e) =
      ok (http_error (str "Unable to parse form") 400, store)
  with_form ctx user_id token store panic = panic

  authorized : Context → Option Str → Option Str → Store → Outcome Form → Outcome (Response × Store)
  unfolding with_form
  authorized ctx (some user_id) (some token) store form = with_form ctx user_id token store form
  authorized ctx _ _ store form = ok (no_authorization, store)

  unfoldable pub export_handler :
      Request → Context → Outcome Form → Store → Outcome (Response × Store)
  unfolding authorized
  export_handler r ctx form store =
      if not (str_eq r.method (str "POST"))
      then ok (http_error (str "Invalid request method") 405, store)
      else authorized ctx (lookup (str "userId") ctx) (lookup (str "token") ctx) store form
