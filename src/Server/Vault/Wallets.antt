-- ===== src/Server/Vault/Wallets.antt =====
-- A stored wallet is read back with the client's key (server/vault/wallet.go).
use meemaw.Prelude.{◌≡◌, ap, ℕ, some, Str, ok, err, >>=-eq-ok, no_rows}
use meemaw.Encoding.Hex.{Bytes, encode, decode, decode-encode}
use meemaw.Tss.Wallet.{DkgResult}
use meemaw.Server.Database.{
  Db, DkgParams, AddPeerParams, GetUserSigningParametersRow, dkg, add_peer,
  get_user_signing_parameters,
}
use meemaw.Server.Database.Integrity.{HasIntegrity}
use meemaw.Server.Database.Parameters.{
  get_user_signing_parameters-dkg, get_user_signing_parameters-add_peer,
}
use meemaw.Server.Vault.{
  Crypto, CryptoLaws, generate_random_bytes, encrypt_aes, decrypt_aes, wallet_exists, store_wallet,
  client_key_of, vault_add_peer, found_parameters, retrieve_wallet,
}

module _ (c : Crypto) (laws : CryptoLaws c) where
  open c use {Random}

  decrypt_aes-encrypt_aes :
      (plaintext key : Bytes) (random random' : Random) (nonce encrypted : Bytes)
      → encrypt_aes c plaintext key random ≡ ok (nonce, encrypted, random')
      → decrypt_aes c nonce encrypted key ≡ ok plaintext
  unfolding encrypt_aes decrypt_aes generate_random_bytes
  decrypt_aes-encrypt_aes plaintext key random random' nonce encrypted h =
      let (block, eb, h1) = >>=-eq-ok (c.new_cipher key) _ h in
      let (gcm, eg, h2) = >>=-eq-ok (c.new_gcm block) _ h1 in
      let (drawn, en, h3) = >>=-eq-ok (c.read_full (c.nonce_size gcm) random) _ h2 in
      let made : Bytes × Bytes × Random = (drawn.0, c.gcm_seal gcm drawn.0 plaintext, drawn.1) in
      let given : Bytes × Bytes × Random = (nonce, encrypted, random') in
      let same : made ≡ given = cc h3 in
      let (size, bytes) = laws.read_full-length (c.nonce_size gcm) random drawn.0 drawn.1 en in
      rw (eb, eg, ← ap (λ t. t.0) same, ← ap (λ t. t.1) same)
        (laws.gcm_open-gcm_seal gcm drawn.0 plaintext size)

  -- What RetrieveWallet gives for a row that holds an encrypted result.
  retrieve_row :
      (metadata foreign_key : Str) (key json : Bytes) (result : DkgResult) (db : Db)
      (row : GetUserSigningParametersRow)
      → get_user_signing_parameters foreign_key db ≡ ok row
      → decode metadata ≡ ok key
      → decrypt_aes c row.nonce row.encrypted_dkg_results key ≡ ok json
      → c.unmarshal_json json ≡ ok result
      → retrieve_wallet c (some metadata) foreign_key db ≡ ok result
  unfolding retrieve_wallet found_parameters client_key_of
  retrieve_row metadata foreign_key key json result db row found keyed opened read =
      rw (found, keyed, opened) read

  -- A wallet stored for a user who has none is the wallet that RetrieveWallet gives with the
  -- client's key that StoreWallet returned.
  pub retrieve_wallet-store_wallet :
      (foreign_key peer_id user_agent : Str) (result : DkgResult) (db db' : Db)
      (random random' : Random) (client_key : Str)
      → HasIntegrity db
      → wallet_exists c foreign_key db ≡ err no_rows
      → store_wallet c foreign_key peer_id user_agent result db random
        ≡ ok (client_key, db', random')
      → retrieve_wallet c (some client_key) foreign_key db' ≡ ok result
  unfolding store_wallet wallet_exists
  retrieve_wallet-store_wallet foreign_key peer_id user_agent result db db' random random'
        client_key integrity fresh h =
      let (json, ej, h1) = >>=-eq-ok (c.marshal_json result) _ h in
      let (drawn, ek, h2) = >>=-eq-ok (c.read_full 32 random) _ h1 in
      let (sealed, es, h3) = >>=-eq-ok (encrypt_aes c json drawn.0 drawn.1) _ h2 in
      let arg : DkgParams = record {
        user_agent = user_agent;
        peer_id = peer_id;
        foreign_key = foreign_key;
        public_address = result.address;
        encrypted_dkg_results = sealed.1;
        nonce = sealed.0;
      } in
      let made : Str × Db × Random = (encode drawn.0, (dkg arg db).1, sealed.2) in
      let given : Str × Db × Random = (client_key, db', random') in
      let same : made ≡ given = cc h3 in
      let (size, bytes) = laws.read_full-length 32 random drawn.0 drawn.1 ek in
      rw (← ap (λ t. t.0) same, ← ap (λ t. t.1) same)
        (retrieve_row (encode drawn.0) foreign_key drawn.0 json result (dkg arg db).1 _
          (get_user_signing_parameters-dkg arg db integrity fresh) (decode-encode drawn.0 bytes)
          (decrypt_aes-encrypt_aes json drawn.0 drawn.1 sealed.2 sealed.0 sealed.1 es)
          (laws.unmarshal-marshal result json ej))

  -- After AddPeer, with a readable key, for a user whose wallet the database holds, RetrieveWallet
  -- gives the updated result with that same key.
  pub retrieve_wallet-vault_add_peer :
      (metadata foreign_key peer_id user_agent : Str) (updated : DkgResult) (db db' : Db)
      (random random' : Random) (row : GetUserSigningParametersRow) (i : ℕ)
      → get_user_signing_parameters foreign_key db ≡ ok row
      → row.id ≡ some i
      → vault_add_peer c (some metadata) foreign_key peer_id user_agent updated db random
        ≡ ok (db', random')
      → retrieve_wallet c (some metadata) foreign_key db' ≡ ok updated
  unfolding vault_add_peer client_key_of
  retrieve_wallet-vault_add_peer metadata foreign_key peer_id user_agent updated db db' random
        random' row i found present h =
      let (key, ek, h1) = >>=-eq-ok (decode metadata) _ h in
      let (json, ej, h2) = >>=-eq-ok (c.marshal_json updated) _ h1 in
      let (sealed, es, h3) = >>=-eq-ok (encrypt_aes c json key random) _ h2 in
      let arg : AddPeerParams = record {
        user_agent = user_agent;
        peer_id = peer_id;
        foreign_key = foreign_key;
        encrypted_dkg_results = sealed.1;
        nonce = sealed.0;
      } in
      let (device, ed, h4) = >>=-eq-ok (add_peer arg db).0 _ h3 in
      let made : Db × Random = ((add_peer arg db).1, sealed.2) in
      let given : Db × Random = (db', random') in
      let same : made ≡ given = cc h4 in
      rw (← ap (λ t. t.0) same) (
        retrieve_row metadata foreign_key key json updated (add_peer arg db).1 _
          (get_user_signing_parameters-add_peer arg db row i found present) ek
          (decrypt_aes-encrypt_aes json key random sealed.2 sealed.0 sealed.1 es)
          (laws.unmarshal-marshal updated json ej))
