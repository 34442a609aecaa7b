-- ===== src/Server/Vault.antt =====
-- server/vault/wallet.go: the wallets, encrypted with a key that only the client keeps. The
-- cipher, the source of random bytes and the JSON encoding are library code and parameters. Of the
-- request's context the vault reads the "metadata" value only.
pub mod Wallets
pub mod Devices
use meemaw.Prelude.{
  ◌≡◌, ℕ, [], ◌∷◌, Option, none, some, Str, str, length, Outcome, ok, err, panic, ◌>>=◌, GoError,
  not_found,
}
use meemaw.Encoding.Hex.{Bytes, IsBytes, encode, decode}
use meemaw.Tss.Wallet.{DkgResult}
use meemaw.Server.Database.{
  Db, User, GetUserSigningParametersRow, dkg, add_peer, get_user_by_foreign_key,
  get_user_signing_parameters,
}

pub record Crypto : Type 1 where
  pub Random : Type 0
  pub read_full : ℕ → Random → Outcome (Bytes × Random)  -- io.ReadFull(rand.Reader, ...)
  pub Block : Type 0
  pub new_cipher : Bytes → Outcome Block
  pub Gcm : Type 0
  pub new_gcm : Block → Outcome Gcm
  pub nonce_size : Gcm → ℕ
  pub gcm_seal : Gcm → Bytes → Bytes → Bytes
  pub gcm_open : Gcm → Bytes → Bytes → Outcome Bytes
  pub marshal_json : DkgResult → Outcome Bytes
  pub unmarshal_json : Bytes → Outcome DkgResult

-- What the libraries promise: as many random bytes as asked for, opening what was sealed with the
-- same key and nonce, and JSON that is read back.
pub record CryptoLaws (c : Crypto) : Type 0 where
  pub read_full-length :
      (n : ℕ) (r : c.Random) (bytes : Bytes) (r' : c.Random)
      → c.read_full n r ≡ ok (bytes, r')
      → (length bytes ≡ n) × IsBytes bytes
  pub gcm_open-gcm_seal :
      (gcm : c.Gcm) (nonce plaintext : Bytes)
      → length nonce ≡ c.nonce_size gcm
      → c.gcm_open gcm nonce (c.gcm_seal gcm nonce plaintext) ≡ ok plaintext
  pub unmarshal-marshal :
      (result : DkgResult) (json : Bytes)
      → c.marshal_json result ≡ ok json
      → c.unmarshal_json json ≡ ok result

module _ (c : Crypto) where
  open c use {Random}

  unfoldable pub generate_random_bytes : ℕ → Random → Outcome (Bytes × Random)
  generate_random_bytes size random = c.read_full size random

  -- Nonce, ciphertext, and the source of random bytes after it.
  unfoldable pub encrypt_aes : Bytes → Bytes → Random → Outcome (Bytes × Bytes × Random)
  unfolding generate_random_bytes
  encrypt_aes plaintext key random = do
    block ← c.new_cipher key
    gcm ← c.new_gcm block
    (nonce, random') ← generate_random_bytes (c.nonce_size gcm) random
    ok (nonce, c.gcm_seal gcm nonce plaintext, random')

  unfoldable pub decrypt_aes : Bytes → Bytes → Bytes → Outcome Bytes
  decrypt_aes nonce ciphertext key = do
    block ← c.new_cipher key
    gcm ← c.new_gcm block
    c.gcm_open gcm nonce ciphertext

  unfoldable pub wallet_exists : Str → Db → Outcome User
  unfolding get_user_by_foreign_key
  wallet_exists foreign_key db = get_user_by_foreign_key foreign_key db

  -- The client's key in hexadecimal, and the database after it.
  unfoldable pub store_wallet :
      Str → Str → Str → DkgResult → Db → Random → Outcome (Str × Db × Random)
  unfolding encrypt_aes
  store_wallet foreign_key peer_id user_agent dkg_result db random = do
    json ← c.marshal_json dkg_result
    (client_key, random1) ← c.read_full 32 random
    (nonce, encrypted, random2) ← encrypt_aes json client_key random1
    let (device, db') =
        dkg
          (record {
            user_agent = user_agent;
            peer_id = peer_id;
            foreign_key = foreign_key;
            public_address = dkg_result.address;
            encrypted_dkg_results = encrypted;
            nonce = nonce;
          })
          db
    ok (encode client_key, db', random2)

  abbrev pub no_metadata : GoError
  no_metadata = GoError.text (str "could not find customer identifier")

  unfoldable pub client_key_of : Option Str → Outcome Bytes
  client_key_of none = err no_metadata
  client_key_of (some s) = decode s

  -- The Vault's AddPeer. A query that returns no row has changed nothing.
  unfoldable pub vault_add_peer :
      Option Str → Str → Str → Str → DkgResult → Db → Random → Outcome (Db × Random)
  unfolding client_key_of encrypt_aes
  vault_add_peer metadata foreign_key peer_id user_agent updated db random = do
    client_key ← client_key_of metadata
    json ← c.marshal_json updated
    (nonce, encrypted, random') ← encrypt_aes json client_key random
    let (device, db') =
        add_peer
          (record {
            user_agent = user_agent;
            peer_id = peer_id;
            foreign_key = foreign_key;
            encrypted_dkg_results = encrypted;
            nonce = nonce;
          })
          db
    found ← device
    ok (db', random')

  found_parameters : Outcome GetUserSigningParametersRow → Outcome GetUserSigningParametersRow
  found_parameters (ok row) = ok row
  found_parameters (err e) = err not_found
  found_parameters panic = panic

  unfoldable pub retrieve_wallet : Option Str → Str → Db → Outcome DkgResult
  unfolding found_parameters client_key_of decrypt_aes
  retrieve_wallet metadata foreign_key db = do
    res ← found_parameters (get_user_signing_parameters foreign_key db)
    client_key ← client_key_of metadata
    json ← decrypt_aes res.nonce res.encrypted_dkg_results client_key
    c.unmarshal_json json
