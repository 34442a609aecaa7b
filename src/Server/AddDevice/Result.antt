-- ===== src/Server/AddDevice/Result.antt =====
-- What adding a device leaves for the next requests (server/tss_add.go, server/vault/wallet.go).
use meemaw.Prelude.{
  ◌≡◌, refl, ap, sym, ◌∙◌, List, Option, none, some, Str, ℕ, HasKey, lookup, or_else, ok,
}
use meemaw.Tss.Wallet.{DkgResult, merge_dkg_results}
use meemaw.Tss.Wallet.Merge.{merge_same_wallet, merged_same}
use meemaw.Tss.Actors.Adder.{get_original_wallet}
use meemaw.Server.Database.{Db, GetUserSigningParametersRow, get_user_signing_parameters}
use meemaw.Server.Vault.{CryptoLaws, retrieve_wallet}
use meemaw.Server.Vault.Devices.{Adds, vault_add_peer-Adds}
use meemaw.Server.AddDevice.Accept.{awaits_useragent}
use meemaw.Server.Vault.Wallets.{retrieve_wallet-vault_add_peer}
use meemaw.Server.AddDevice.Shared.{Setting}
use meemaw.Server.AddDevice.Register.{finished}
use meemaw.Server.AddDevice.Register.Safe.{OfWallet}
use meemaw.Server.AddDevice.Accept.Stored.{Stored, Merged, Original}
use meemaw.Server.AddDevice.Run.{State, Event, run, initial}
use meemaw.Server.AddDevice.Completed.{HonestRun, Reached, Passes, Gone, run-registered}

has_either :
    {V : Type 0} (o p : Option V) → (v : V) × (p ≡ some v) → (v : V) × (or_else o p ≡ some v)
has_either (some u) p h = (u, refl)
has_either none p h = h

-- What merging keeps of its first wallet.
merged_keeps :
    (first second result : DkgResult)
    → merge_dkg_results first second ≡ some result
    → (result.share ≡ first.share) × ((k : Str) → HasKey k first.bks → HasKey k result.bks)
merged_keeps first second result h =
    let (merged, e, same, found) =
      merge_same_wallet first second (merged_same first second result h) in
    let it_is : merged ≡ result = cc (e, h) in
    (
      ap (λ (r : DkgResult). r.share) (sym it_is) ∙ sym same.share,
      λ k has.
          let (v, is_v) = has_either (lookup k second.bks) (lookup k first.bks) has in
          (v, ap (λ (r : DkgResult). lookup k r.bks) (sym it_is) ∙ found k ∙ is_v),
    )

module _ (e : Setting) (laws : CryptoLaws e.crypto) (user_id user_agent : Str) (db₀ : Db)
    (random₀ : e.crypto.Random) where
  -- A wallet as RetrieveWallet gave it, and the wallet after, with the same share and at least the same
  -- parameters, which RetrieveWallet gives with the metadata that AcceptDeviceHandler had, where the run
  -- was before AddPeer; and the device that it added, with the peer id that AcceptDeviceHandler had and the user agent from
  -- the channel.
  pub record Extended (events : List (Event e)) (db : Db) : Type 0 where
    pub old_metadata : Str
    pub old_wallet : DkgResult
    pub new_wallet : DkgResult
    pub state : State e
    pub reached : Reached e user_id user_agent (initial e db₀ random₀) events state
    pub adding : state.accept.main ≡ awaits_useragent new_wallet
    pub before : retrieve_wallet e.crypto (some old_metadata) user_id db₀ ≡ ok old_wallet
    pub after : retrieve_wallet e.crypto (some state.accept.metadata) user_id db ≡ ok new_wallet
    pub same_share : new_wallet.share ≡ old_wallet.share
    pub kept_keys : (k : Str) → HasKey k old_wallet.bks → HasKey k new_wallet.bks
    pub agent : Str
    pub taken : state.shared.useragent_ch ≡ some agent
    pub adds : Adds state.accept.new_client_peer_id agent db₀ db

  Stored-Extended :
      (H : Type 0) (events : List (Event e)) (db : Db) (random : e.crypto.Random)
      (row : GetUserSigningParametersRow) (i : ℕ)
      → get_user_signing_parameters user_id db₀ ≡ ok row
      → row.id ≡ some i
      → Stored e user_id db₀ random₀
          (OfWallet e user_id db₀)
          H
          (Gone e user_id user_agent db₀ random₀ events)
          db
          random
      → Extended events db
  unfolding Stored Merged Original OfWallet get_original_wallet Passes
  Stored-Extended H events db random row i found present
        (
          result,
          (
            original,
            (h₁, sh₁, r₁, w₁, p, f₁, (m, wallet, gave, key, share, bks), is_original),
            h₂,
            sh₂,
            r₂,
            w₂,
            q,
            f₂,
            updated,
            by,
            merges,
          ),
          h,
          sh,
          (register, gone),
          here,
          agent,
          taken,
          added,
        ) =
      let (same, keeps) = merged_keeps original updated result merges in
      record {
        old_metadata = m;
        old_wallet = wallet;
        new_wallet = result;
        state = record { register = register; accept = h; shared = sh };
        reached = gone;
        adding = here;
        before = gave;
        after =
            retrieve_wallet-vault_add_peer e.crypto laws h.metadata user_id h.new_client_peer_id
              agent result db₀ db random₀ random row i found present added;
        same_share = same ∙ sym (ap (λ (r : DkgResult). r.share) is_original) ∙ share;
        kept_keys = λ k has. keeps k (rw (← is_original) (rw (bks) has));
        agent = agent;
        taken = taken;
        adds =
            vault_add_peer-Adds e.crypto h.metadata user_id h.new_client_peer_id agent result db₀ db
              random₀ random added;
      }

  -- A successful return of RegisterDeviceHandler, spelled out: for a user whose wallet the database holds,
  -- and with an existing device that sends its last message only after AcceptDeviceHandler's was
  -- written, the database has a new device, with the peer id that AcceptDeviceHandler had before
  -- AddPeer and the user agent that was in the channel; and with the metadata that
  -- AcceptDeviceHandler had then, RetrieveWallet gives a wallet that has the share, and all the
  -- parameters, of a wallet that it gave before.
  pub run-Extended :
      (events : List (Event e)) (s : State e) (row : GetUserSigningParametersRow) (i : ℕ)
      → get_user_signing_parameters user_id db₀ ≡ ok row
      → row.id ≡ some i
      → HonestRun e user_id user_agent Unit (initial e db₀ random₀) events
      → run e user_id user_agent (initial e db₀ random₀) events ≡ ok s
      → s.register.main ≡ finished
      → Extended events s.shared.db
  run-Extended events s row i found present honest h is_finished =
      Stored-Extended Unit events s.shared.db s.shared.random row i found present
        (run-registered e user_id user_agent db₀ random₀ events s honest h is_finished)
