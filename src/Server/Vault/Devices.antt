-- ===== src/Server/Vault/Devices.antt =====
-- The devices that AddPeer adds (server/vault/wallet.go with server/database/query.sql.go).
use meemaw.Prelude.{◌≡◌, refl, ap, ◌∙◌, transport, List, [], ◌∷◌, ◌++◌, some, Str, ok, >>=-eq-ok}
use meemaw.Encoding.Hex.{decode}
use meemaw.Tss.Wallet.{DkgResult}
use meemaw.Server.Database.{
  Db, Device, Wallet, AddPeerParams, one, add_peer, insert_devices, insert_device,
}
use meemaw.Server.Vault.{Crypto, client_key_of, encrypt_aes, vault_add_peer}

-- New devices behind the others, at least one, and the first with this peer id and user agent.
pub record Adds (peer_id user_agent : Str) (db db' : Db) : Type 0 where
  pub device : Device
  pub others : List Device
  pub added : db'.devices ≡ db.devices ++ device ∷ others
  pub same_peer : device.peer_id ≡ peer_id
  pub same_agent : device.user_agent ≡ user_agent

append_assoc : (xs ys zs : List Device) → (xs ++ ys) ++ zs ≡ xs ++ (ys ++ zs)
append_assoc [] ys zs = refl
append_assoc (x ∷ xs) ys zs = ap (λ l. x ∷ l) (append_assoc xs ys zs)

append_nil : (xs : List Device) → xs ≡ xs ++ []
append_nil [] = refl
append_nil (x ∷ xs) = ap (λ l. x ∷ l) (append_nil xs)

devices-insert_devices :
    (arg : AddPeerParams) (ws : List Wallet) (db : Db)
    → (insert_devices arg ws db).1.devices ≡ db.devices ++ (insert_devices arg ws db).0
unfolding insert_devices insert_device
devices-insert_devices arg [] db = append_nil db.devices
devices-insert_devices arg (w ∷ ws) db =
    devices-insert_devices arg ws _ ∙ append_assoc db.devices _ _

insert_devices-Adds :
    (arg : AddPeerParams) (ws : List Wallet) (db : Db) (found : Device)
    → one (insert_devices arg ws db).0 ≡ ok found
    → Adds arg.peer_id arg.user_agent db (insert_devices arg ws db).1
unfolding one insert_devices insert_device
insert_devices-Adds arg [] db found h = cc h
insert_devices-Adds arg (w ∷ ws) db found h = record {
  device = _;
  others = _;
  added = devices-insert_devices arg (w ∷ ws) db;
  same_peer = refl;
  same_agent = refl;
}

module _ (c : Crypto) where
  -- What AddPeer of the vault returned comes with a new device.
  pub vault_add_peer-Adds :
      (metadata foreign_key peer_id user_agent : Str) (updated : DkgResult) (db db' : Db)
      (random random' : c.Random)
      → vault_add_peer c (some metadata) foreign_key peer_id user_agent updated db random
        ≡ ok (db', random')
      → Adds peer_id user_agent db db'
  unfolding vault_add_peer client_key_of add_peer
  vault_add_peer-Adds metadata foreign_key peer_id user_agent updated db db' random random' h =
      let (key, ek, h1) = >>=-eq-ok (decode metadata) _ h in
      let (json, ej, h2) = >>=-eq-ok (c.marshal_json updated) _ h1 in
      let (sealed, es, h3) = >>=-eq-ok (encrypt_aes c json key random) _ h2 in
      let arg : AddPeerParams = record {
        user_agent = user_agent;
        peer_id = peer_id;
        foreign_key = foreign_key;
        encrypted_dkg_results = sealed.1;
        nonce = sealed.0;
      } in
      let (device, ed, h4) = >>=-eq-ok (add_peer arg db).0 _ h3 in
      let made : Db × c.Random = ((add_peer arg db).1, sealed.2) in
      let given : Db × c.Random = (db', random') in
      let same : made ≡ given = cc h4 in
      let adds : Adds peer_id user_agent db (add_peer arg db).1 =
        let adds' = insert_devices-Adds arg _ _ device ed in
        record {
          device = adds'.device;
          others = adds'.others;
          added = adds'.added;
          same_peer = adds'.same_peer;
          same_agent = adds'.same_agent;
        } in
      transport (λ i. Adds peer_id user_agent db (same i).0) adds
