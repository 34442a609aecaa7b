-- ===== src/Server/Sign/Begun.antt =====
-- When the server begins a signing session (server/tss_sign.go).
use meemaw.Prelude.{
  ◌≡◌, refl, Bool, true, false, Option, none, some, Str, str, is_empty, lookup, if◌then◌else◌,
  Outcome, ok, err, panic, >>=-eq-ok,
}
use meemaw.Encoding.Hex.{Bytes, decode}
use meemaw.Tss.Wallet.{DkgResult}
use meemaw.Tss.Actors.Signer.{new_server_signer}
use meemaw.Server.Database.{Db}
use meemaw.Server.Vault.{retrieve_wallet}
use meemaw.Server.Auth.{Context}
use meemaw.Server.Origin.{Upgrade, Start, answers, begins, connect}
use meemaw.Server.Sign.{
  Setting, Query, Signer, with_connection, with_signer, with_wallet, with_message, authorized,
  sign_start,
}

module _ (e : Setting) (u : Upgrade) (client_origin : Str) where
  open e use {a, lib, signers, crypto}

  with_connection-begins :
      {C : Type 0} (token token' : Str) (signer signer' : Signer e) (r : Start C)
      → with_connection e token signer r ≡ begins (token', signer')
      → (token ≡ token') × (signer ≡ signer')
  unfolding with_connection
  with_connection-begins token token' signer signer' (answers response) h = cc h
  with_connection-begins token token' signer signer' (begins conn) h = (cc h, cc h)

  with_signer-begins :
      (token token' : Str) (r : Outcome (Signer e)) (signer : Signer e)
      → with_signer e u client_origin token r ≡ ok (begins (token', signer))
      → (token ≡ token') × (r ≡ ok signer)
  unfolding with_signer
  with_signer-begins token token' (ok made) signer h =
      let (c, _, h₁) = >>=-eq-ok (connect u client_origin) _ h in
      let (same, made_same) = with_connection-begins token token' made signer c (cc h₁) in
      (same, cc made_same)
  with_signer-begins token token' (err x) signer h = cc h
  with_signer-begins token token' panic signer h = cc h

  with_wallet-begins :
      (token token' peer : Str) (message : Bytes) (r : Outcome DkgResult) (signer : Signer e)
      → with_wallet e u client_origin token peer message r ≡ ok (begins (token', signer))
      → (token ≡ token')
        × (w : DkgResult) × (r ≡ ok w)
        × (new_server_signer a lib signers peer w.pubkey w.share w.bks message ≡ ok signer)
  unfolding with_wallet
  with_wallet-begins token token' peer message (ok w) signer h =
      let (same, made) = with_signer-begins token token' _ signer h in (same, w, refl, made)
  with_wallet-begins token token' peer message (err x) signer h = cc h
  with_wallet-begins token token' peer message panic signer h = cc h

  module _ (ctx : Context) (q : Query) (db : Db) where
    -- Why a session has begun: for whom, for which message, on which wallet.
    pub record IsBegun (token : Str) (signer : Signer e) : Type 0 where
      pub user_id : Str
      pub message : Bytes
      pub wallet : DkgResult
      pub authenticated : lookup (str "userId") ctx ≡ some user_id
      pub with_token : lookup (str "token") ctx ≡ some token
      pub is_message : is_empty q.msg ≡ false
      pub decoded : decode q.msg ≡ ok message
      pub retrieved : retrieve_wallet crypto (lookup (str "metadata") ctx) user_id db ≡ ok wallet
      pub made :
          new_server_signer a lib signers q.peer wallet.pubkey wallet.share wallet.bks message
          ≡ ok signer

    with_message-begins :
        (user_id token token' : Str) (r : Outcome Bytes) (signer : Signer e)
        → with_message e u client_origin ctx db user_id token q.peer r
          ≡ ok (begins (token', signer))
        → (token ≡ token')
          × (message : Bytes) × (r ≡ ok message)
          × (w : DkgResult) × (retrieve_wallet crypto (lookup (str "metadata") ctx) user_id db
              ≡ ok w)
          × (new_server_signer a lib signers q.peer w.pubkey w.share w.bks message ≡ ok signer)
    unfolding with_message
    with_message-begins user_id token token' (ok message) signer h =
        let (same, w, found, made) = with_wallet-begins token token' q.peer message _ signer h in
        (same, message, refl, w, found, made)
    with_message-begins user_id token token' (err x) signer h = cc h
    with_message-begins user_id token token' panic signer h = cc h

    some_message :
        {X : Type 0} (b : Bool) (x y : Outcome X) (z : X)
        → ((x ≡ ok z) → ⊥)
        → (if b then x else y) ≡ ok z
        → (b ≡ false) × (y ≡ ok z)
    some_message true x y z never h = absurd (never h)
    some_message false x y z never h = (refl, h)

    authorized-begins :
        (found_user found_token : Option Str) (token : Str) (signer : Signer e)
        → lookup (str "userId") ctx ≡ found_user
        → lookup (str "token") ctx ≡ found_token
        → authorized e u client_origin ctx q db found_user found_token ≡ ok (begins (token, signer))
        → IsBegun token signer
    unfolding authorized
    authorized-begins none found_token token signer hu ht h = cc h
    authorized-begins (some user_id) none token signer hu ht h = cc h
    authorized-begins (some user_id) (some own) token signer hu ht h =
        let (filled, h₁) = some_message (is_empty q.msg) _ _ _ (λ f. cc f) h in
        let (same, message, decoded, w, found, made) =
          with_message-begins user_id own token (decode q.msg) signer h₁ in
        record {
          user_id = user_id;
          message = message;
          wallet = w;
          authenticated = hu;
          with_token = cc (ht, same);
          is_message = filled;
          decoded = decoded;
          retrieved = found;
          made = made;
        }

    -- A signing session begins only for a user and a token that the middleware put into the context, with
    -- a message that is there and is hexadecimal, on the wallet that RetrieveWallet gives for this user
    -- with the request's metadata, and with the signer made of that wallet, peer and message.
    pub sign_start-IsBegun :
        (token : Str) (signer : Signer e)
        → sign_start e u client_origin ctx q db ≡ ok (begins (token, signer))
        → IsBegun token signer
    unfolding sign_start
    sign_start-IsBegun token signer h =
        authorized-begins (lookup (str "userId") ctx) (lookup (str "token") ctx) token signer refl
          refl h
