-- ===== src/Server/AddDevice/Register/Making.antt =====
-- RegisterDeviceHandler makes an adder of the wallet that it retrieves, and at most one (server/tss_add.go).
use meemaw.Prelude.{
  ◌≡◌, refl, ap, sym, ◌∙◌, true, List, [], ◌∷◌, ◌++◌, Option, none, some, All, Str, Outcome, ok,
  err, panic, ◌>>=◌, >>=-eq-ok, Ends,
}
use meemaw.Tss.Wallet.{DkgResult, new_pubkey}
use meemaw.Tss.PeerManager.{PeerManager}
use meemaw.Tss.Actors.{server_id, make_service}
use meemaw.Tss.Actors.Adder.{AddExistingConfig, new_server_add, add_existing_with}
use meemaw.Server.Database.{Db}
use meemaw.Server.Vault.{retrieve_wallet}
use meemaw.Server.AddDevice.Shared.{Setting, Adder, Shared}
use meemaw.Server.AddDevice.Shared.Aside.{config, configs}
use meemaw.Server.AddDevice.Register.{Register, made, retrieved, with_metadata}
use meemaw.Server.AddDevice.Register.Safe.{may_make, is_making, OfWallet, Safe, Good, moves, stays}

module _ (e : Setting) (user_id : Str) (db₀ : Db) where
  open e use {a, lib, al, crypto}

  config_or : AddExistingConfig → Outcome (Adder e) → AddExistingConfig
  config_or c (ok p) = config e p
  config_or c (err x) = c
  config_or c panic = c

  -- The constructor puts what it was given into the adder.
  made_with :
      (c : AddExistingConfig) (pm : PeerManager lib.M lib.Actor) (r : Outcome lib.Actor)
      (p : Adder e)
      → (r >>= λ actor. ok (record { service = make_service lib c pm actor; peer_id = server_id }))
        ≡ ok p
      → c ≡ config e p
  unfolding make_service config_or
  made_with c pm (ok actor) p h = ap (config_or c) h
  made_with c pm (err x) p h = ap (config_or c) h
  made_with c pm panic p h = ap (config_or c) h

  new_server_add-config :
      (new_id existing_id : Str) (wallet : DkgResult) (p : Adder e)
      → new_server_add a lib al new_id existing_id wallet.pubkey wallet.share wallet.bks ≡ ok p
      → (new_pubkey wallet.pubkey ≡ ok (config e p).pubkey)
        × ((config e p).share ≡ wallet.share)
        × ((config e p).original_bks ≡ wallet.bks)
  unfolding new_server_add add_existing_with
  new_server_add-config new_id existing_id wallet p h =
      let (pubkey, hp, h₁) = >>=-eq-ok (new_pubkey wallet.pubkey) _ h in
      let same = made_with _ _ _ p h₁ in
      (
        hp ∙ ap (λ (c : AddExistingConfig). ok c.pubkey) same,
        sym (ap (λ (c : AddExistingConfig). c.share) same),
        sym (ap (λ (c : AddExistingConfig). c.original_bks) same),
      )

  one_config :
      (ps : List (Adder e)) (p : Adder e)
      → ps ≡ []
      → OfWallet e user_id db₀ (config e p)
      → All (OfWallet e user_id db₀) (configs e (ps ++ p ∷ []))
  unfolding configs
  one_config [] p none_yet known = (known, tt)
  one_config (q ∷ ps) p none_yet known = cc none_yet

  module _ (user_agent : Str) (L : Type 0) where
    -- The adder that is made is the first.
    made-Good :
        (h : Register) (sh : Shared e) (device metadata : Str) (wallet : DkgResult)
        (r : Outcome (Adder e))
        → new_server_add a lib al h.new_client_peer_id h.existing_client_peer_id wallet.pubkey
            wallet.share wallet.bks
          ≡ r
        → retrieve_wallet crypto (some metadata) user_id sh.db ≡ ok wallet
        → sh.adders ≡ []
        → Safe e user_id db₀ L h sh
        → Ends (Good e user_id db₀ L sh) (made e user_id user_agent h sh device wallet r)
    unfolding made Ends may_make is_making OfWallet
    made-Good h sh device metadata wallet (ok p) by gave none_yet safe =
        let (key, share, bks) =
          new_server_add-config h.new_client_peer_id h.existing_client_peer_id wallet p by in
        (
          record { same_db = refl; same_random = refl; grown = λ q. none_yet; passed = λ q. q },
          record {
            done_late = safe.done_late;
            passed_late = safe.passed_late;
            one_adder = λ q. cc q;
            no_adder = λ q. cc q;
            of_wallet =
                one_config sh.adders p none_yet
                  (metadata, wallet, rw (← safe.untouched none_yet) gave, key, share, bks);
            untouched = λ q. safe.untouched none_yet;
          },
        )
    made-Good h sh device metadata wallet (err x) by gave none_yet safe =
        moves e user_id db₀ user_agent L h _ sh sh safe refl refl refl refl refl refl (λ q. cc q)
          (λ q. none_yet)
    made-Good h sh device metadata wallet panic by gave none_yet safe = tt

    retrieved-Good :
        (h : Register) (sh : Shared e) (device metadata : Str) (r : Outcome DkgResult)
        → retrieve_wallet crypto (some metadata) user_id sh.db ≡ r
        → sh.adders ≡ []
        → Safe e user_id db₀ L h sh
        → Ends (Good e user_id db₀ L sh) (retrieved e user_id user_agent h sh device r)
    unfolding retrieved Ends may_make is_making
    retrieved-Good h sh device metadata (ok wallet) by none_yet safe =
        made-Good h sh device metadata wallet _ refl by none_yet safe
    retrieved-Good h sh device metadata (err x) by none_yet safe =
        moves e user_id db₀ user_agent L h _ sh sh safe refl refl refl refl refl refl (λ q. cc q)
          (λ q. none_yet)
    retrieved-Good h sh device metadata panic by none_yet safe = tt

    taken-Good :
        (sh : Shared e) (r : Outcome (Register × Shared e))
        → Ends (Good e user_id db₀ L (record sh { metadata_ch = none })) r
        → Ends (Good e user_id db₀ L sh) r
    unfolding Ends
    taken-Good sh (ok r) (f, safe) = (
      record {
        same_db = f.same_db;
        same_random = f.same_random;
        grown = f.grown;
        passed = f.passed;
      },
      safe,
    )
    taken-Good sh (err x) good = tt
    taken-Good sh panic good = tt

    pub with_metadata-Good :
        (c : Option Str) (h : Register) (sh : Shared e) (device : Str)
        → is_making h.reader ≡ true
        → Safe e user_id db₀ L h sh
        → Ends (Good e user_id db₀ L sh) (with_metadata e user_id user_agent h sh device c)
    unfolding with_metadata Ends
    with_metadata-Good none h sh device making safe = stays e user_id db₀ user_agent L h sh safe
    with_metadata-Good (some metadata) h sh device making safe = taken-Good sh _ (
        retrieved-Good (record h { metadata = metadata }) (record sh { metadata_ch = none }) device
          metadata _ refl (safe.no_adder making)
          (record {
            done_late = safe.done_late;
            passed_late = safe.passed_late;
            one_adder = safe.one_adder;
            no_adder = safe.no_adder;
            of_wallet = safe.of_wallet;
            untouched = safe.untouched;
          }))
