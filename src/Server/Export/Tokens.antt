-- ===== src/Server/Export/Tokens.antt =====
-- An access token is used up by an export that succeeds, and only by that (server/tss_recover.go).
use meemaw.Prelude.{
  ◌≡◌, ◌≢◌, ◌⊎◌, inl, inr, refl, ℕ, Bool, true, false, not, ◌||◌, Option, none, some, arith, Str,
  str, str_eq, is_empty, Dict, lookup, if◌then◌else◌, Outcome, ok, err, panic, GoError,
}
use meemaw.Encoding.Hex.{encode}
use meemaw.Tss.Wallet.{DkgResult, PubkeyStr, Bk}
use meemaw.Server.Auth.{Context, Request, Response, Cache, no_authorization}
use meemaw.Server.Export.{
  Form, number_bytes, wallet_error, recover_error, exported, with_wallet, with_form, authorized,
  export_handler,
}

wallet_error-not_200 : (e : GoError) → (wallet_error e).status ≢ 200
unfolding wallet_error
wallet_error-not_200 GoError.not_found = λ h. omega arith
wallet_error-not_200 GoError.unauthorized = λ h. omega arith
wallet_error-not_200 GoError.bad_request = λ h. omega arith
wallet_error-not_200 GoError.tss_process_failed = λ h. omega arith
wallet_error-not_200 GoError.conflict = λ h. omega arith
wallet_error-not_200 GoError.time_out = λ h. omega arith
wallet_error-not_200 GoError.no_rows = λ h. omega arith
wallet_error-not_200 GoError.conversion = λ h. omega arith
wallet_error-not_200 GoError.not_enough_peers = λ h. omega arith
wallet_error-not_200 GoError.absent_curve = λ h. omega arith
wallet_error-not_200 GoError.pub_key_mismatch = λ h. omega arith
wallet_error-not_200 (GoError.text s) = λ h. omega arith
wallet_error-not_200 (GoError.wrapped s e) = λ h. omega arith

recover_error-not_200 : (e : GoError) → (recover_error e).status ≢ 200
unfolding recover_error
recover_error-not_200 e = ground arith

module _ (c : Cache) (retrieve : Context → Str → Outcome DkgResult)
    (recover : Str → PubkeyStr → Str → Str → Dict Bk → Outcome ℕ) where
  open c use {Store}

  -- A key was answered: from which wallet and shares, and that the token is gone.
  pub record Exported (ctx : Context) (form : Outcome Form) (store : Store) (out : Response × Store)
      : Type 0 where
    pub user_id : Str
    pub token : Str
    pub input : Form
    pub wallet : DkgResult
    pub d : ℕ
    pub user : lookup (str "userId") ctx ≡ some user_id
    pub access_token : lookup (str "token") ctx ≡ some token
    pub parsed : form ≡ ok input
    pub retrieved : retrieve ctx user_id ≡ ok wallet
    pub recovered :
        recover input.client_peer_id wallet.pubkey wallet.share input.share wallet.bks ≡ ok d
    pub key : out.0.status ≡ 200
    pub key_text : out.0.body ≡ encode (number_bytes d)
    pub used : out.1 ≡ c.delete token store

  abbrev pub Refused : Store → Response × Store → Type 0
  Refused store out = (out.0.status ≢ 200) × (out.1 ≡ store)

  refused :
      (resp : Response) (store : Store) (out : Response × Store)
      → resp.status ≢ 200
      → ok (resp, store) ≡ ok out
      → Refused store out
  refused resp store out n h =
      let given : Response × Store = (resp, store) in
      let same : given ≡ out = cc h in rw (← same) (n, refl)

  -- A check that answers by itself refuses.
  checked :
      (b : Bool) (resp : Response) (store : Store) (m : Outcome (Response × Store))
      (out : Response × Store)
      → resp.status ≢ 200
      → (if b then ok (resp, store) else m) ≡ ok out
      → (m ≡ ok out) ⊎ Refused store out
  checked true resp store m out n h = inr (refused resp store out n h)
  checked false resp store m out n h = inl h

  module _ (ctx : Context) (user_id token : Str) (store : Store) (out : Response × Store)
      (u : lookup (str "userId") ctx ≡ some user_id)
      (t : lookup (str "token") ctx ≡ some token) where
    exported-cases :
        (form : Outcome Form) (input : Form) (wallet : DkgResult) (o : Outcome ℕ)
        → form ≡ ok input
        → retrieve ctx user_id ≡ ok wallet
        → recover input.client_peer_id wallet.pubkey wallet.share input.share wallet.bks ≡ o
        → exported c retrieve recover token store o ≡ ok out
        → Exported ctx form store out ⊎ Refused store out
    unfolding exported
    exported-cases form input wallet (ok d) p w r h =
        let given : Response × Store =
          (record { status = 200; body = encode (number_bytes d) }, c.delete token store) in
        let same : given ≡ out = cc h in
        inl (record {
          user_id = user_id;
          token = token;
          input = input;
          wallet = wallet;
          d = d;
          user = u;
          access_token = t;
          parsed = p;
          retrieved = w;
          recovered = r;
          key = rw (← same) refl;
          key_text = rw (← same) refl;
          used = rw (← same) refl;
        })
    exported-cases form input wallet (err e) p w r h =
        inr (refused (recover_error e) store out (recover_error-not_200 e) h)
    exported-cases form input wallet panic p w r h = cc h

    with_wallet-cases :
        (form : Outcome Form) (input : Form) (o : Outcome DkgResult)
        → form ≡ ok input
        → retrieve ctx user_id ≡ o
        → with_wallet c retrieve recover input token store o ≡ ok out
        → Exported ctx form store out ⊎ Refused store out
    unfolding with_wallet
    with_wallet-cases form input (ok w) p e h = exported-cases form input w _ p e refl h
    with_wallet-cases form input (err x) p e h =
        inr (refused (wallet_error x) store out (wallet_error-not_200 x) h)
    with_wallet-cases form input panic p e h = cc h

    with_form-cases :
        (form o : Outcome Form)
        → form ≡ o
        → with_form c retrieve recover ctx user_id token store o ≡ ok out
        → Exported ctx form store out ⊎ Refused store out
    unfolding with_form
    with_form-cases form (ok input) p h =
        elim (checked (is_empty input.share || is_empty input.client_peer_id) _ store _ out
          (λ n. omega arith) h) [
            | inl h' ↦ with_wallet-cases form input _ p refl h'
            | inr r ↦ inr r
          ]
    with_form-cases form (err e) p h = inr (refused _ store out (λ n. omega arith) h)
    with_form-cases form panic p h = cc h

  authorized-cases :
      (ctx : Context) (form : Outcome Form) (store : Store) (out : Response × Store)
      (u t : Option Str)
      → lookup (str "userId") ctx ≡ u
      → lookup (str "token") ctx ≡ t
      → authorized c retrieve recover ctx u t store form ≡ ok out
      → Exported ctx form store out ⊎ Refused store out
  unfolding authorized
  authorized-cases ctx form store out (some user_id) (some token) eu et h =
      with_form-cases ctx user_id token store out eu et form form refl h
  authorized-cases ctx form store out (some user_id) none eu et h =
      inr (refused no_authorization store out (λ n. omega arith) h)
  authorized-cases ctx form store out none t eu et h =
      inr (refused no_authorization store out (λ n. omega arith) h)

  -- When ExportHandler answers, either it answers with status 200, the body is the hexadecimal of
  -- the private key that the server's share of the user's wallet and the share of the form give, and
  -- the access token is deleted, or the status is another one and the cache is as before.
  pub export_handler-cases :
      (r : Request) (ctx : Context) (form : Outcome Form) (store : Store) (out : Response × Store)
      → export_handler c retrieve recover r ctx form store ≡ ok out
      → Exported ctx form store out ⊎ Refused store out
  unfolding export_handler
  export_handler-cases r ctx form store out h =
      elim (checked (not (str_eq r.method (str "POST"))) _ store _ out (λ n. omega arith) h) [
        | inl h' ↦ authorized-cases ctx form store out _ _ refl refl h'
        | inr refusal ↦ inr refusal
      ]
