-- ===== src/Server/Dkg/Result.antt =====
-- From the DKG of a new user to the wallet of that user (server/tss_dkg.go with server/vault/wallet.go).
use meemaw.Prelude.{◌≡◌, true, List, [], ◌∷◌, some, Str, ok, err, no_rows}
use meemaw.Tss.Wallet.{DkgResult}
use meemaw.Server.Database.{Db}
use meemaw.Server.Database.Integrity.{HasIntegrity}
use meemaw.Server.Vault.{CryptoLaws, wallet_exists, retrieve_wallet}
use meemaw.Server.Vault.Wallets.{retrieve_wallet-store_wallet}
use meemaw.Server.Dkg.{Setting, State, finished, Event, initial, run}
use meemaw.Server.Dkg.Steps.{metadata_of}
use meemaw.Server.Dkg.Safety.{Comes, Stored, Reached, run-finished}

module _ (e : Setting) (laws : CryptoLaws e.crypto) where
  -- When the handler has returned successfully, for a user who had no wallet, then the device has
  -- acknowledged, was sent one metadata message, and RetrieveWallet gives with that metadata the
  -- result that the process of the handler's DKG had given, where the run was in Process, on the
  -- database that the handler leaves.
  pub run-retrieve_wallet :
      (user_id user_agent : Str) (db : Db) (random : e.crypto.Random) (events : List (Event e))
      (s : State e)
      → HasIntegrity db
      → wallet_exists e.crypto user_id db ≡ err no_rows
      → run e user_id user_agent (initial e db random) events ≡ ok s
      → s.main ≡ finished
      → (s.server_done ≡ true)
        × (metadata : Str) × (metadata_of s.written ≡ metadata ∷ [])
        × (result : DkgResult) × Comes e user_id user_agent db random
            (Reached e user_id user_agent db random events)
            result
        × (retrieve_wallet e.crypto (some metadata) user_id s.db ≡ ok result)
  unfolding Stored
  run-retrieve_wallet user_id user_agent db random events s integrity fresh h is_finished =
      let (is_done, m, (peer_id, result, comes, kept), one) =
        run-finished e user_id user_agent db random events s h is_finished in
      (
        is_done,
        m,
        one,
        result,
        comes,
        retrieve_wallet-store_wallet e.crypto laws user_id peer_id user_agent result db s.db random
            s.random m integrity fresh kept,
      )
