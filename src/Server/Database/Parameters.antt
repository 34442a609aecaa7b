-- ===== src/Server/Database/Parameters.antt =====
-- What GetUserSigningParameters gives after Dkg and after AddPeer (server/database/query.sql.go).
use meemaw.Prelude.{
  ◌≢◌, Str, str_eq_ne, ◌≡◌, refl, ap, ◌∙◌, ℕ, ◌<◌, Bool, true, List, [], ◌∷◌, ◌++◌, some, arith,
  str_eq, str_eq_refl, map, select, select-append, select-snoc_other, All, ◌==◌, ==_iff, ok, err,
  no_rows,
}
use meemaw.Server.Database.{
  User, Wallet, Db, DkgParams, AddPeerParams, GetUserSigningParametersRow, one, any, add_user,
  insert_wallet, insert_device, dkg, users_with, owns, update_wallet, insert_devices, add_peer,
  full_row, null_row, rows_of, left_join, get_user_by_foreign_key, get_user_signing_parameters,
}
use meemaw.Server.Database.Integrity.{HasIntegrity, UserBelow, All-select}

one-no_rows : {A : Type 0} (xs : List A) → one xs ≡ err no_rows → xs ≡ []
unfolding one
one-no_rows [] h = refl
one-no_rows (x ∷ xs) h = cc h

-- No wallet below the counter belongs to the next user.
select-new_user :
    (n m : ℕ) (ws : List Wallet)
    → All (λ w. (w.id < m) × (w.user_id < n)) ws
    → select (λ w. n == w.user_id) ws ≡ []
unfolding select
select-new_user n m [] h = refl
select-new_user n m (w ∷ ws) ((i, u), hs) = ground (arith, u, select-new_user n m ws hs)

select-snoc :
    {A : Type 0} (p : A → Bool) (xs : List A) (y : A)
    → select p xs ≡ []
    → p y ≡ true
    → select p (xs ++ y ∷ []) ≡ y ∷ []
unfolding select
select-snoc p xs y h e = rw (select-append p xs (y ∷ []), h, e) refl

-- What Dkg stores for a user who is not there is what GetUserSigningParameters gives for that user.
pub get_user_signing_parameters-dkg :
    (arg : DkgParams) (db : Db)
    → HasIntegrity db
    → get_user_by_foreign_key arg.foreign_key db ≡ err no_rows
    → get_user_signing_parameters arg.foreign_key (dkg arg db).1
      ≡ ok (record {
        id = some db.next_wallet;
        user_id = some db.next_user;
        public_address = some arg.public_address;
        encrypted_dkg_results = arg.encrypted_dkg_results;
        nonce = arg.nonce;
      })
unfolding get_user_signing_parameters get_user_by_foreign_key dkg add_user insert_wallet
    insert_device users_with left_join one rows_of full_row
get_user_signing_parameters-dkg arg db h fresh =
    let p : User → Bool = λ u. str_eq u.foreign_key arg.foreign_key in
    let none_before : select p db.users ≡ [] = one-no_rows (select p db.users) fresh in
    let user : User = record { id = db.next_user; foreign_key = arg.foreign_key } in
    let wallet : Wallet = record {
      id = db.next_wallet;
      user_id = db.next_user;
      public_address = arg.public_address;
      encrypted_dkg_results = arg.encrypted_dkg_results;
      nonce = arg.nonce;
    } in
    let users : select p (db.users ++ user ∷ []) ≡ user ∷ [] =
      select-snoc p db.users user none_before (str_eq_refl arg.foreign_key) in
    let wallets : select (λ w. db.next_user == w.user_id) (db.wallets ++ wallet ∷ [])
        ≡ wallet ∷ [] =
      select-snoc (λ w. db.next_user == w.user_id) db.wallets wallet
        (select-new_user db.next_user db.next_wallet db.wallets h.wallets_below)
        ((==_iff db.next_user db.next_user).1 refl) in
    ap (λ us. one (left_join us (db.wallets ++ wallet ∷ []))) users
    ∙ ap (λ ws. one (rows_of ws ++ [])) wallets

abbrev renewed : AddPeerParams → Wallet → Wallet
renewed arg w = record w { encrypted_dkg_results = arg.encrypted_dkg_results; nonce = arg.nonce }

abbrev renewed_row : AddPeerParams → GetUserSigningParametersRow → GetUserSigningParametersRow
renewed_row arg row = record row {
  encrypted_dkg_results = arg.encrypted_dkg_results;
  nonce = arg.nonce;
}

-- The update reaches every wallet of a user that it is for.
updated_rows :
    (arg : AddPeerParams) (u : User) (us : List User) (ws : List Wallet)
    → select (λ w. u.id == w.user_id) (map (update_wallet arg (u ∷ us)) ws)
      ≡ map (renewed arg) (select (λ w. u.id == w.user_id) ws)
unfolding select update_wallet owns any
updated_rows arg u us [] = refl
updated_rows arg u us (w ∷ ws) = ground (arith, updated_rows arg u us ws)

first_renewed :
    (arg : AddPeerParams) (ws : List Wallet) (rest rest' : List GetUserSigningParametersRow)
    (row : GetUserSigningParametersRow) (i : ℕ)
    → one (rows_of ws ++ rest) ≡ ok row
    → row.id ≡ some i
    → one (rows_of (map (renewed arg) ws) ++ rest') ≡ ok (renewed_row arg row)
unfolding one rows_of full_row
first_renewed arg [] rest rest' row i h present =
    let e : null_row ≡ row = cc h in cc (ap (λ r. r.id) e, present)
first_renewed arg (w ∷ ws) rest rest' row i h present =
    let e : full_row w ≡ row = cc h in ap (λ r. ok (renewed_row arg r)) e

left_join-renewed :
    (arg : AddPeerParams) (us : List User) (ws : List Wallet) (row : GetUserSigningParametersRow)
    (i : ℕ)
    → one (left_join us ws) ≡ ok row
    → row.id ≡ some i
    → one (left_join us (map (update_wallet arg us) ws)) ≡ ok (renewed_row arg row)
unfolding left_join one
left_join-renewed arg [] ws row i h present = cc h
left_join-renewed arg (u ∷ us) ws row i h present =
    let ws' = map (update_wallet arg (u ∷ us)) ws in
    ap (λ rs. one (rows_of rs ++ left_join us ws')) (updated_rows arg u us ws)
    ∙ first_renewed arg (select (λ w. u.id == w.user_id) ws) (left_join us ws) (left_join us ws')
        row i h present

insert_devices-tables :
    (arg : AddPeerParams) (ws : List Wallet) (db : Db)
    → ((insert_devices arg ws db).1.users ≡ db.users)
      × ((insert_devices arg ws db).1.wallets ≡ db.wallets)
unfolding insert_devices insert_device
insert_devices-tables arg [] db = (refl, refl)
insert_devices-tables arg (w ∷ ws) db = insert_devices-tables arg ws _

-- Where GetUserSigningParameters gives a wallet, then after AddPeer for that user it gives the
-- same wallet with the new ciphertext and the new nonce.
pub get_user_signing_parameters-add_peer :
    (arg : AddPeerParams) (db : Db) (row : GetUserSigningParametersRow) (i : ℕ)
    → get_user_signing_parameters arg.foreign_key db ≡ ok row
    → row.id ≡ some i
    → get_user_signing_parameters arg.foreign_key (add_peer arg db).1
      ≡ ok (record row { encrypted_dkg_results = arg.encrypted_dkg_results; nonce = arg.nonce })
unfolding get_user_signing_parameters add_peer users_with
get_user_signing_parameters-add_peer arg db row i h present =
    let us = users_with arg.foreign_key db in
    let ws = map (update_wallet arg us) db.wallets in
    let p : User → Bool = λ u. str_eq u.foreign_key arg.foreign_key in
    let (eu, ew) = insert_devices-tables arg (select (owns us) ws) (record db { wallets = ws }) in
    ap (λ us'. one (left_join (select p us') (add_peer arg db).1.wallets)) eu
    ∙ ap (λ ws'. one (left_join us ws')) ew
    ∙ left_join-renewed arg us db.wallets row i h present

-- Users whose identifiers are below that of a wallet's user do not own it.
left_join-snoc :
    (us : List User) (ws : List Wallet) (w : Wallet)
    → All (λ u. u.id < w.user_id) us
    → left_join us (ws ++ w ∷ []) ≡ left_join us ws
unfolding left_join
left_join-snoc [] ws w h = refl
left_join-snoc (u ∷ us) ws w (b, bs) =
    let p : Wallet → Bool = λ v. u.id == v.user_id in
    let same : select p (ws ++ w ∷ []) ≡ select p ws = select-snoc_other p ws w (ground arith) in
    rw (same, left_join-snoc us ws w bs) refl

-- Dkg for one user changes nothing of what GetUserSigningParameters gives for another.
pub get_user_signing_parameters-dkg_other :
    (arg : DkgParams) (db : Db) (foreign_key : Str)
    → HasIntegrity db
    → arg.foreign_key ≢ foreign_key
    → get_user_signing_parameters foreign_key (dkg arg db).1
      ≡ get_user_signing_parameters foreign_key db
unfolding get_user_signing_parameters dkg add_user insert_wallet insert_device users_with
get_user_signing_parameters-dkg_other arg db foreign_key h ne =
    let p : User → Bool = λ u. str_eq u.foreign_key foreign_key in
    let user : User = record { id = db.next_user; foreign_key = arg.foreign_key } in
    let wallet : Wallet = record {
      id = db.next_wallet;
      user_id = db.next_user;
      public_address = arg.public_address;
      encrypted_dkg_results = arg.encrypted_dkg_results;
      nonce = arg.nonce;
    } in
    let users : select p (db.users ++ user ∷ []) ≡ select p db.users =
      select-snoc_other p db.users user (str_eq_ne arg.foreign_key foreign_key ne) in
    ap (λ us. one (left_join us (db.wallets ++ wallet ∷ []))) users
    ∙ ap one (
        left_join-snoc (select p db.users) db.wallets wallet
          (All-select (UserBelow db) p db.users h.users_below))
