-- ===== src/Server/Database.antt =====
-- The tables (server/sqlc/schema.sql, server/database/models.go) and the queries of
-- server/database/query.sql.go. Tables are lists in the order of insertion, which is the order of the
-- rows of a query; BIGSERIAL columns count from the `next` fields. The schema has no unique index, so
-- `ON CONFLICT DO NOTHING` never applies. Connection errors are not modelled.
pub mod Integrity
pub mod Parameters
use meemaw.Prelude.{
  ℕ, suc, Bool, false, ◌||◌, List, [], ◌∷◌, ◌++◌, Option, none, some, Str, str, str_eq, map, select,
  ◌==◌, if◌then◌else◌, Outcome, ok, err, GoError, no_rows,
}
use meemaw.Encoding.Hex.{Bytes}

pub record User : Type 0 where
  pub id : ℕ
  pub foreign_key : Str

pub record Wallet : Type 0 where
  pub id : ℕ
  pub user_id : ℕ
  pub public_address : Str
  pub encrypted_dkg_results : Bytes
  pub nonce : Bytes

pub record Device : Type 0 where
  pub id : ℕ
  pub user_id : ℕ
  pub wallet_id : ℕ
  pub peer_id : Str
  pub user_agent : Str

pub record Db : Type 0 where
  pub users : List User
  pub wallets : List Wallet
  pub devices : List Device
  pub next_user : ℕ
  pub next_wallet : ℕ
  pub next_device : ℕ

abbrev pub broken_reference : GoError
broken_reference = GoError.text (str "violates foreign key constraint")

-- A query of one row takes the first one.
unfoldable pub one {ℓ} : {A : Type ℓ} → List A → Outcome A
one [] = err no_rows
one (x ∷ xs) = ok x

unfoldable pub any {ℓ} : {A : Type ℓ} → (A → Bool) → List A → Bool
any p [] = false
any p (x ∷ xs) = p x || any p xs

unfoldable pub add_user : Str → Db → User × Db
add_user foreign_key db =
    let user : User = record { id = db.next_user; foreign_key = foreign_key } in
    (user, record db { users = db.users ++ user ∷ []; next_user = suc db.next_user })

pub record AddWalletParams : Type 0 where
  pub user_id : ℕ
  pub public_address : Str
  pub encrypted_dkg_results : Bytes
  pub nonce : Bytes

unfoldable pub insert_wallet : AddWalletParams → Db → Wallet × Db
insert_wallet arg db =
    let wallet : Wallet = record {
      id = db.next_wallet;
      user_id = arg.user_id;
      public_address = arg.public_address;
      encrypted_dkg_results = arg.encrypted_dkg_results;
      nonce = arg.nonce;
    } in
    (wallet, record db { wallets = db.wallets ++ wallet ∷ []; next_wallet = suc db.next_wallet })

unfoldable pub add_wallet : AddWalletParams → Db → Outcome (Wallet × Db)
unfolding insert_wallet any
add_wallet arg db =
    if any (λ u. u.id == arg.user_id) db.users
    then ok (insert_wallet arg db)
    else err broken_reference

pub record AddDeviceParams : Type 0 where
  pub user_id : ℕ
  pub wallet_id : ℕ
  pub user_agent : Str
  pub peer_id : Str

unfoldable pub insert_device : AddDeviceParams → Db → Device × Db
insert_device arg db =
    let device : Device = record {
      id = db.next_device;
      user_id = arg.user_id;
      wallet_id = arg.wallet_id;
      peer_id = arg.peer_id;
      user_agent = arg.user_agent;
    } in
    (device, record db { devices = db.devices ++ device ∷ []; next_device = suc db.next_device })

unfoldable pub add_device : AddDeviceParams → Db → Outcome (Device × Db)
unfolding insert_device any
add_device arg db =
    if any (λ u. u.id == arg.user_id) db.users
    then (if any (λ w. w.id == arg.wallet_id) db.wallets
        then ok (insert_device arg db)
        else err broken_reference)
    else err broken_reference

pub record DkgParams : Type 0 where
  pub user_agent : Str
  pub peer_id : Str
  pub foreign_key : Str
  pub public_address : Str
  pub encrypted_dkg_results : Bytes
  pub nonce : Bytes

-- A new user with a new wallet and a new device.
unfoldable pub dkg : DkgParams → Db → Device × Db
unfolding add_user insert_wallet insert_device
dkg arg db =
    let (user, with_user) = add_user arg.foreign_key db in
    let (wallet, with_wallet) =
      insert_wallet
        (record {
          user_id = user.id;
          public_address = arg.public_address;
          encrypted_dkg_results = arg.encrypted_dkg_results;
          nonce = arg.nonce;
        })
        with_user in
    insert_device
      (record {
        user_id = wallet.user_id;
        wallet_id = wallet.id;
        user_agent = arg.user_agent;
        peer_id = arg.peer_id;
      })
      with_wallet

pub record AddPeerParams : Type 0 where
  pub user_agent : Str
  pub peer_id : Str
  pub foreign_key : Str
  pub encrypted_dkg_results : Bytes
  pub nonce : Bytes

unfoldable pub users_with : Str → Db → List User
users_with foreign_key db = select (λ u. str_eq u.foreign_key foreign_key) db.users

unfoldable pub owns : List User → Wallet → Bool
unfolding any
owns users wallet = any (λ u. u.id == wallet.user_id) users

-- `UPDATE wallets ... FROM existing_user`, on one row.
unfoldable pub update_wallet : AddPeerParams → List User → Wallet → Wallet
unfolding owns
update_wallet arg existing w =
    if owns existing w
    then record w { encrypted_dkg_results = arg.encrypted_dkg_results; nonce = arg.nonce }
    else w

-- One device for each updated wallet; the devices inserted, in their order, and the database.
unfoldable pub insert_devices : AddPeerParams → List Wallet → Db → List Device × Db
unfolding insert_device
insert_devices arg [] db = ([], db)
insert_devices arg (w ∷ ws) db =
    let (device, db') =
      insert_device
        (record {
          user_id = w.user_id;
          wallet_id = w.id;
          user_agent = arg.user_agent;
          peer_id = arg.peer_id;
        })
        db in
    let (devices, db'') = insert_devices arg ws db' in (device ∷ devices, db'')

-- The first device, and the database; what the statement changed stays when it returned no row,
-- and then it changed nothing.
unfoldable pub add_peer : AddPeerParams → Db → Outcome Device × Db
unfolding users_with owns update_wallet insert_devices one
add_peer arg db =
    let existing = users_with arg.foreign_key db in
    let updated = map (update_wallet arg existing) db.wallets in
    let (devices, db') =
      insert_devices arg (select (owns existing) updated) (record db { wallets = updated }) in
    (one devices, db')

unfoldable pub get_first_user : Db → Outcome User
unfolding one
get_first_user db = one db.users

unfoldable pub get_user_by_foreign_key : Str → Db → Outcome User
unfolding users_with one
get_user_by_foreign_key foreign_key db = one (users_with foreign_key db)

users_of_wallets : List Wallet → List User → List User
users_of_wallets [] users = []
users_of_wallets (w ∷ ws) users = select (λ u. w.user_id == u.id) users ++ users_of_wallets ws users

unfoldable pub get_user_by_address : Str → Db → Outcome User
unfolding users_of_wallets one
get_user_by_address public_address db =
    one
      (users_of_wallets (select (λ w. str_eq w.public_address public_address) db.wallets) db.users)

unfoldable pub get_user_devices : ℕ → Db → List Device
get_user_devices user_id db = select (λ d. d.user_id == user_id) db.devices

unfoldable pub get_user_wallets : ℕ → Db → List Wallet
get_user_wallets user_id db = select (λ w. w.user_id == user_id) db.wallets

unfoldable pub get_wallet_by_address : Str → Db → Outcome Wallet
unfolding one
get_wallet_by_address public_address db =
    one (select (λ w. str_eq w.public_address public_address) db.wallets)

pub record GetUserSigningParametersRow : Type 0 where
  pub id : Option ℕ
  pub user_id : Option ℕ
  pub public_address : Option Str
  pub encrypted_dkg_results : Bytes
  pub nonce : Bytes

unfoldable pub full_row : Wallet → GetUserSigningParametersRow
full_row w = record {
  id = some w.id;
  user_id = some w.user_id;
  public_address = some w.public_address;
  encrypted_dkg_results = w.encrypted_dkg_results;
  nonce = w.nonce;
}

abbrev pub null_row : GetUserSigningParametersRow
null_row = record {
  id = none;
  user_id = none;
  public_address = none;
  encrypted_dkg_results = [];
  nonce = [];
}

-- The rows of one user in the left join.
unfoldable pub rows_of : List Wallet → List GetUserSigningParametersRow
unfolding full_row
rows_of [] = null_row ∷ []
rows_of (w ∷ ws) = full_row w ∷ map full_row ws

unfoldable pub left_join : List User → List Wallet → List GetUserSigningParametersRow
unfolding rows_of
left_join [] wallets = []
left_join (u ∷ us) wallets =
    rows_of (select (λ w. u.id == w.user_id) wallets) ++ left_join us wallets

unfoldable pub get_user_signing_parameters : Str → Db → Outcome GetUserSigningParametersRow
unfolding users_with left_join one
get_user_signing_parameters foreign_key db = one (left_join (users_with foreign_key db) db.wallets)
