-- ===== src/Server/Tests.antt =====
-- Runs of the database and the vault on small inputs, with stand-ins for the libraries; the child
-- module has those of the authorization and the export.
pub mod Access
pub mod Dkg
pub mod AddDevice
pub mod AddRun
pub mod Sign
use meemaw.Prelude.{
  ◌≡◌, ◌≢◌, ◌⊎◌, refl, sym, ap, ◌∙◌, ℕ, zero, suc, ◌≤◌, ◌<◌, ◌||◌, [], ◌∷◌, ◌++◌, some, arith, Str,
  str_eq, select, Dict, length, length-replicate, replicate, if◌then◌else◌, Outcome, ok, err, ◌>>=◌,
  ◌>>◌, conversion,
}
use meemaw.Encoding.Hex.{Bytes, IsBytes, encode, decode}
use meemaw.Tss.Wallet.{Bk, DkgResult}
use meemaw.Server.Database.{
  Db, DkgParams, AddPeerParams, GetUserSigningParametersRow, one, dkg, add_user, insert_wallet,
  insert_device, add_peer, users_with, owns, any, update_wallet, insert_devices,
  get_user_by_foreign_key, get_user_signing_parameters, left_join, rows_of, full_row,
}
use meemaw.Server.Database.Integrity.{
  HasIntegrity, store, add, execute_all, execute_all-HasIntegrity,
}
use meemaw.Server.Database.Parameters.{
  get_user_signing_parameters-dkg, get_user_signing_parameters-dkg_other,
  get_user_signing_parameters-add_peer,
}
use meemaw.Server.Vault.{
  Crypto, CryptoLaws, wallet_exists, generate_random_bytes, encrypt_aes, store_wallet,
  client_key_of, vault_add_peer, retrieve_wallet,
}
use meemaw.Server.Vault.Wallets.{retrieve_wallet-store_wallet, retrieve_wallet-vault_add_peer}

abbrev pub empty : Db
empty = record {
  users = [];
  wallets = [];
  devices = [];
  next_user = 1;
  next_wallet = 1;
  next_device = 1;
}

pub empty-HasIntegrity : HasIntegrity empty
empty-HasIntegrity = record { users_below = tt; wallets_below = tt; devices_below = tt }

abbrev pub user : Str
user = b'u' ∷ []

abbrev pub phone : Str
phone = b'p' ∷ []

abbrev stored : DkgParams
stored = record {
  user_agent = [];
  peer_id = phone;
  foreign_key = user;
  public_address = b'a' ∷ [];
  encrypted_dkg_results = 1 ∷ [];
  nonce = 2 ∷ [];
}

abbrev added : AddPeerParams
added = record {
  user_agent = [];
  peer_id = b'l' ∷ [];
  foreign_key = user;
  encrypted_dkg_results = 3 ∷ [];
  nonce = 4 ∷ [];
}

execute_all-HasIntegrity_example :
    HasIntegrity (execute_all (store stored ∷ add added ∷ store stored ∷ []) empty)
execute_all-HasIntegrity_example =
    execute_all-HasIntegrity (store stored ∷ add added ∷ store stored ∷ []) empty empty-HasIntegrity

abbrev stored_row : GetUserSigningParametersRow
stored_row = record {
  id = some 1;
  user_id = some 1;
  public_address = some (b'a' ∷ []);
  encrypted_dkg_results = 1 ∷ [];
  nonce = 2 ∷ [];
}

-- A result of which only the share is there, as its share; a cipher that hides nothing; random zeros.
abbrev share_only : Str → DkgResult
share_only share = record {
  pubkey = record { x = []; y = [] };
  bks = [];
  share = share;
  address = [];
  peer_id = [];
}

abbrev share_of : Str → Str → Dict Bk → Str → Str → Str → Outcome Bytes
share_of [] [] [] share [] [] = ok share
share_of (c ∷ x) y bks share address peer_id = err conversion
share_of [] (c ∷ y) bks share address peer_id = err conversion
share_of [] [] (b ∷ bks) share address peer_id = err conversion
share_of [] [] [] share (c ∷ address) peer_id = err conversion
share_of [] [] [] share [] (c ∷ peer_id) = err conversion

abbrev pub crypto : Crypto
crypto = record {
  Random = Unit {0};
  read_full = λ n r. ok (replicate n 0, tt);
  Block = Unit {0};
  new_cipher = λ key. ok tt;
  Gcm = Unit {0};
  new_gcm = λ block. ok tt;
  nonce_size = λ gcm. 2;
  gcm_seal = λ gcm nonce plaintext. plaintext;
  gcm_open = λ gcm nonce ciphertext. ok ciphertext;
  marshal_json = λ r. share_of r.pubkey.x r.pubkey.y r.bks r.share r.address r.peer_id;
  unmarshal_json = λ json. ok (share_only json);
}

zeros-IsBytes : (n : ℕ) → IsBytes (replicate n 0)
zeros-IsBytes zero = tt
zeros-IsBytes (suc n) = (omega arith, zeros-IsBytes n)

pub zeros :
    (n : ℕ) (bytes : Bytes) (r : Unit {0})
    → crypto.read_full n tt ≡ ok (bytes, r)
    → (length bytes ≡ n) × IsBytes bytes
zeros n bytes r h =
    let given : Bytes × Unit {0} = (bytes, r) in
    let made : Bytes × Unit {0} = (replicate n 0, tt) in
    let same : made ≡ given = cc h in
    rw (← ap (λ t. t.0) same) (length-replicate n 0, zeros-IsBytes n)

share_of-ok :
    (x y : Str) (bks : Dict Bk) (share address peer_id : Str) (json : Bytes)
    → share_of x y bks share address peer_id ≡ ok json
    → share_only json ≡ record {
      pubkey = record { x = x; y = y };
      bks = bks;
      share = share;
      address = address;
      peer_id = peer_id;
    }
share_of-ok [] [] [] share [] [] json h = let same : share ≡ json = cc h in ap share_only (sym same)
share_of-ok (c ∷ x) y bks share address peer_id json h = cc h
share_of-ok [] (c ∷ y) bks share address peer_id json h = cc h
share_of-ok [] [] (b ∷ bks) share address peer_id json h = cc h
share_of-ok [] [] [] share (c ∷ address) peer_id json h = cc h
share_of-ok [] [] [] share [] (c ∷ peer_id) json h = cc h

crypto_laws : CryptoLaws crypto
crypto_laws = record {
  read_full-length = λ n r bytes r' h. zeros n bytes r' h;
  gcm_open-gcm_seal = λ gcm nonce plaintext h. refl;
  unmarshal-marshal = λ r json h.
      ap ok (share_of-ok r.pubkey.x r.pubkey.y r.bks r.share r.address r.peer_id json h);
}

abbrev stored_wallet : DkgParams
stored_wallet = record {
  user_agent = [];
  peer_id = phone;
  foreign_key = user;
  public_address = [];
  encrypted_dkg_results = b'9' ∷ [];
  nonce = 0 ∷ 0 ∷ [];
}

retrieve_wallet-store_wallet_example :
    retrieve_wallet crypto (some (encode (replicate 32 0))) user (dkg stored_wallet empty).1
    ≡ ok (share_only (b'9' ∷ []))
unfolding store_wallet wallet_exists encrypt_aes generate_random_bytes get_user_by_foreign_key
    users_with one select
retrieve_wallet-store_wallet_example =
    retrieve_wallet-store_wallet crypto crypto_laws user phone [] (share_only (b'9' ∷ [])) empty
      (dkg stored_wallet empty).1 tt tt (encode (replicate 32 0)) empty-HasIntegrity refl refl

abbrev updated_wallet : AddPeerParams
updated_wallet = record {
  user_agent = [];
  peer_id = b'l' ∷ [];
  foreign_key = user;
  encrypted_dkg_results = b'8' ∷ [];
  nonce = 0 ∷ 0 ∷ [];
}

retrieve_wallet-vault_add_peer_example :
    retrieve_wallet crypto
      (some (encode (replicate 1 7)))
      user
      (add_peer updated_wallet (dkg stored empty).1).1
    ≡ ok (share_only (b'8' ∷ []))
unfolding vault_add_peer client_key_of encrypt_aes generate_random_bytes add_peer update_wallet owns
    any insert_devices get_user_signing_parameters users_with one left_join rows_of full_row dkg
    add_user insert_wallet insert_device str_eq encode decode select
retrieve_wallet-vault_add_peer_example =
    retrieve_wallet-vault_add_peer crypto crypto_laws (encode (replicate 1 7)) user (b'l' ∷ []) []
      (share_only (b'8' ∷ [])) (dkg stored empty).1 (add_peer updated_wallet (dkg stored empty).1).1
      tt tt stored_row 1 refl refl refl
