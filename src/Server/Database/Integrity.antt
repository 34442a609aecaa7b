-- ===== src/Server/Database/Integrity.antt =====
-- References and identifiers of the tables stay below the counters (server/database/query.sql.go).
use meemaw.Prelude.{
  ◌<◌, Bool, true, false, List, [], ◌∷◌, ◌++◌, arith, Str, map, select, All, if◌then◌else◌,
}
use meemaw.Server.Database.{
  User, Wallet, Device, Db, AddWalletParams, AddDeviceParams, DkgParams, AddPeerParams, add_user,
  insert_wallet, insert_device, dkg, users_with, owns, update_wallet, insert_devices, add_peer,
}

abbrev pub UserBelow : Db → User → Type 0
UserBelow db u = u.id < db.next_user

abbrev pub WalletBelow : Db → Wallet → Type 0
WalletBelow db w = (w.id < db.next_wallet) × (w.user_id < db.next_user)

abbrev pub DeviceBelow : Db → Device → Type 0
DeviceBelow db d =
    (d.id < db.next_device) × (d.user_id < db.next_user) × (d.wallet_id < db.next_wallet)

pub record HasIntegrity (db : Db) : Type 0 where
  pub users_below : All (UserBelow db) db.users
  pub wallets_below : All (WalletBelow db) db.wallets
  pub devices_below : All (DeviceBelow db) db.devices

module _ {A : Type 0} where
  All-imp : {P Q : A → Type 0} (xs : List A) → ((x : A) → P x → Q x) → All P xs → All Q xs
  All-imp [] f h = h
  All-imp (x ∷ xs) f (h, hs) = (f x h, All-imp xs f hs)

  All-snoc : (P : A → Type 0) (xs : List A) (y : A) → All P xs → P y → All P (xs ++ y ∷ [])
  All-snoc P [] y h p = (p, h)
  All-snoc P (x ∷ xs) y (h, hs) p = (h, All-snoc P xs y hs p)

  All-map :
      {P : A → Type 0} (f : A → A) (xs : List A)
      → ((x : A) → P x → P (f x))
      → All P xs
      → All P (map f xs)
  All-map f [] k h = h
  All-map f (x ∷ xs) k (h, hs) = (k x h, All-map f xs k hs)

  pub All-select : (P : A → Type 0) (p : A → Bool) (xs : List A) → All P xs → All P (select p xs)
  unfolding select
  All-select P p [] h = h
  All-select P p (x ∷ xs) (h, hs) =
      elim (p x) as (λ b. All P (if b then x ∷ select p xs else select p xs)) [
        | true ↦ (h, All-select P p xs hs)
        | false ↦ All-select P p xs hs
      ]

add_user-HasIntegrity :
    (foreign_key : Str) (db : Db) → HasIntegrity db → HasIntegrity (add_user foreign_key db).1
unfolding add_user
add_user-HasIntegrity foreign_key db h = record {
  users_below =
      All-snoc _ db.users _ (All-imp db.users (λ u b. omega (arith, b)) h.users_below)
        (omega arith);
  wallets_below = All-imp db.wallets (λ w b. (b.0, omega (arith, b.1))) h.wallets_below;
  devices_below = All-imp db.devices (λ d b. (b.0, omega (arith, b.1), b.2)) h.devices_below;
}

insert_wallet-HasIntegrity :
    (arg : AddWalletParams) (db : Db)
    → HasIntegrity db
    → arg.user_id < db.next_user
    → HasIntegrity (insert_wallet arg db).1
unfolding insert_wallet
insert_wallet-HasIntegrity arg db h below = record {
  users_below = h.users_below;
  wallets_below =
      All-snoc _ db.wallets _
        (All-imp db.wallets (λ w b. (omega (arith, b.0), b.1)) h.wallets_below)
        (omega arith, below);
  devices_below = All-imp db.devices (λ d b. (b.0, b.1, omega (arith, b.2))) h.devices_below;
}

insert_device-HasIntegrity :
    (arg : AddDeviceParams) (db : Db)
    → HasIntegrity db
    → arg.user_id < db.next_user
    → arg.wallet_id < db.next_wallet
    → HasIntegrity (insert_device arg db).1
unfolding insert_device
insert_device-HasIntegrity arg db h user wallet = record {
  users_below = h.users_below;
  wallets_below = h.wallets_below;
  devices_below =
      All-snoc _ db.devices _
        (All-imp db.devices (λ d b. (omega (arith, b.0), b.1, b.2)) h.devices_below)
        (omega arith, user, wallet);
}

dkg-HasIntegrity : (arg : DkgParams) (db : Db) → HasIntegrity db → HasIntegrity (dkg arg db).1
unfolding dkg add_user insert_wallet
dkg-HasIntegrity arg db h =
    insert_device-HasIntegrity _ _
      (insert_wallet-HasIntegrity _ _ (add_user-HasIntegrity arg.foreign_key db h) (omega arith))
      (omega arith) (omega arith)

insert_devices-HasIntegrity :
    (arg : AddPeerParams) (ws : List Wallet) (db : Db)
    → HasIntegrity db
    → All (WalletBelow db) ws
    → HasIntegrity (insert_devices arg ws db).1
unfolding insert_devices insert_device
insert_devices-HasIntegrity arg [] db h below = h
insert_devices-HasIntegrity arg (w ∷ ws) db h (b, bs) =
    insert_devices-HasIntegrity arg ws _ (insert_device-HasIntegrity _ db h b.1 b.0) bs

update_wallet-below :
    (db : Db) (arg : AddPeerParams) (existing : List User) (w : Wallet)
    → WalletBelow db w
    → WalletBelow db (update_wallet arg existing w)
unfolding update_wallet
update_wallet-below db arg existing w b =
    elim (owns existing w)
      as (λ c. WalletBelow db (
        if c
        then record w { encrypted_dkg_results = arg.encrypted_dkg_results; nonce = arg.nonce }
        else w)) [ true ↦ b | false ↦ b ]

add_peer-HasIntegrity :
    (arg : AddPeerParams) (db : Db) → HasIntegrity db → HasIntegrity (add_peer arg db).1
unfolding add_peer
add_peer-HasIntegrity arg db h =
    let existing = users_with arg.foreign_key db in
    let updated = map (update_wallet arg existing) db.wallets in
    let below : All (WalletBelow db) updated =
      All-map (update_wallet arg existing) db.wallets (update_wallet-below db arg existing)
        h.wallets_below in
    let mid : HasIntegrity (record db { wallets = updated }) = record {
      users_below = h.users_below;
      wallets_below = below;
      devices_below = h.devices_below;
    } in
    insert_devices-HasIntegrity arg (select (owns existing) updated)
      (record db { wallets = updated }) mid
      (All-select (WalletBelow db) (owns existing) updated below)

-- The statements that the program executes, and what they leave.
pub data Statement : Type 0 where
  store : DkgParams → Statement
  add : AddPeerParams → Statement

unfoldable pub execute : Statement → Db → Db
execute (store arg) db = (dkg arg db).1
execute (add arg) db = (add_peer arg db).1

unfoldable pub execute_all : List Statement → Db → Db
unfolding execute
execute_all [] db = db
execute_all (s ∷ ss) db = execute_all ss (execute s db)

-- Whatever the program stores and adds, in any order, every identifier of a table stays below the
-- table's counter, and every wallet and device refers to identifiers below the counters, so that
-- the next identifier is new and nothing refers to it.
pub execute_all-HasIntegrity :
    (ss : List Statement) (db : Db) → HasIntegrity db → HasIntegrity (execute_all ss db)
unfolding execute_all execute
execute_all-HasIntegrity [] db h = h
execute_all-HasIntegrity (store arg ∷ ss) db h =
    execute_all-HasIntegrity ss (dkg arg db).1 (dkg-HasIntegrity arg db h)
execute_all-HasIntegrity (add arg ∷ ss) db h =
    execute_all-HasIntegrity ss (add_peer arg db).1 (add_peer-HasIntegrity arg db h)
