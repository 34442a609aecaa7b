-- ===== src/Server/AddDevice/Accept/Stored.antt =====
-- Where AcceptDeviceHandler stands, and what it has done to the database (server/tss_add.go).
use meemaw.Prelude.{
  ◌≡◌, ap, sym, ◌∙◌, ◌⊎◌, inl, inr, transport, Bool, true, false, List, [], ◌∷◌, Option, none, some,
  All, Str, ℕ, zero, suc, Outcome, ok, err, panic, Ends,
}
use meemaw.Tss.Wallet.{DkgResult, merge_dkg_results}
use meemaw.Tss.Actors.Adder.{AddExistingConfig, get_original_wallet, server_add_process}
use meemaw.Server.Database.{Db}
use meemaw.Server.Vault.{vault_add_peer}
use meemaw.Server.AddDevice.Shared.{Setting, Adder, Shared, at_place, points_to}
use meemaw.Server.AddDevice.Shared.Aside.{config, configs}
use meemaw.Server.AddDevice.Accept.{
  Main, waits_start, processes, awaits_useragent, waits_tss, awaits_new_done, sends_done,
  waits_done, finished, failed, blocked, Accept,
}
use meemaw.Server.AddDevice.Accept.Steps.{told, offers, Keeps}

-- The device has been sent its last message.
unfoldable pub late : Main → Bool
late waits_done = true
late finished = true
late _ = false

-- `W` is what is known of the wallets that adders are made from; `H` says that the existing device is honest; `R`
-- holds of what the run goes through.
module _ (e : Setting) (user_id : Str) (db₀ : Db) (random₀ : e.crypto.Random)
    (W : AddExistingConfig → Type 0) (H : Type 0) (R : Accept → Shared e → Type 0) where
  open e use {a, lib, al, crypto}

  -- What GetOriginalWallet gave, where the handler began its process.
  unfoldable pub Original : DkgResult → Type 0
  Original original =
      (h : Accept) × (sh : Shared e) × R h sh
      × (h.main ≡ waits_start)
      × (p : Adder e) × (points_to h.adder sh.adders ≡ some p)
      × W (config e p)
      × (get_original_wallet a lib al p ≡ original)

  -- The original wallet, merged with what the process of the handler's adder had given, where the handler
  -- was in Process.
  unfoldable pub Merged : DkgResult → Type 0
  unfolding Original
  Merged result =
      (original : DkgResult) × Original original
      × (h : Accept) × (sh : Shared e) × R h sh
      × (h.main ≡ processes original)
      × (q : Adder e) × (points_to h.adder sh.adders ≡ some q)
      × (updated : DkgResult) × (server_add_process a lib al q ≡ some (ok updated))
      × (merge_dkg_results original updated ≡ some result)

  -- Where the handler had the merged wallet and the user agent of the new device, AddPeer ran on the first
  -- database, with the metadata that the existing device had sent and the peer id of the new device.
  unfoldable pub Stored : Db → crypto.Random → Type 0
  unfolding Merged
  Stored db random =
      (result : DkgResult) × Merged result
      × (h : Accept) × (sh : Shared e) × R h sh
      × (h.main ≡ awaits_useragent result)
      × (agent : Str) × (sh.useragent_ch ≡ some agent)
      × (vault_add_peer crypto (some h.metadata) user_id h.new_client_peer_id agent result db₀
            random₀
          ≡ ok (db, random))

  abbrev pub Untouched : Db → crypto.Random → Type 0
  Untouched db random = (db ≡ db₀) × (random ≡ random₀)

  unfoldable pub At : Main → Db → crypto.Random → Type 0
  unfolding Stored Original Merged
  At waits_start db random = Untouched db random
  At (processes original) db random = Untouched db random × Original original
  At (awaits_useragent result) db random = Untouched db random × Merged result
  At waits_tss db random = Stored db random
  At awaits_new_done db random = Stored db random
  At sends_done db random = Stored db random
  At waits_done db random = Stored db random
  At finished db random = Stored db random
  At failed db random = Untouched db random ⊎ Stored db random
  At blocked db random = Untouched db random ⊎ Stored db random

  pub record Safe (h : Accept) (sh : Shared e) : Type 0 where
    pub at : At h.main sh.db sh.random
    pub told_late : told h.written ≡ true → late h.main ≡ true
    pub offers_late : H → offers h.reader ≡ true → late h.main ≡ true
    pub passed_late : H → sh.existing_device_done_ch ≡ true → late h.main ≡ true

  -- If `H`, the device sends its last message only after it was sent the handler's.
  unfoldable pub Honest : Bool → Accept → Type 0
  Honest f h = H → f ≡ true → told h.written ≡ true

  Keeps-Safe :
      (f : Bool) (h : Accept) (sh : Shared e) (r : Accept × Shared e)
      → Keeps e f h sh r
      → Honest f h
      → Safe h sh
      → Safe r.0 r.1
  unfolding Honest
  Keeps-Safe f h sh (h', sh') k honest safe =
      let stays_late : late h.main ≡ true → late h'.main ≡ true = λ l. ap late k.same_main ∙ l in
      record {
        at =
            transport (λ i. At (sym k.same_main i) (sym k.same_db i) (sym k.same_random i)) safe.at;
        told_late = λ t. stays_late (safe.told_late (sym k.same_told ∙ t));
        offers_late = λ w o. elim (k.offered o) [
          | inl before ↦ stays_late (safe.offers_late w before)
          | inr fin ↦ stays_late (safe.told_late (honest w fin))
        ];
        passed_late = λ w c. elim (k.passed_on c) [
          | inl before ↦ stays_late (safe.passed_late w before)
          | inr o ↦ stays_late (safe.offers_late w o)
        ];
      }

  pub Ends-Safe :
      (f : Bool) (h : Accept) (sh : Shared e) (r : Outcome (Accept × Shared e))
      → Ends (Keeps e f h sh) r
      → Honest f h
      → Safe h sh
      → Ends (λ q. Safe q.0 q.1) r
  unfolding Ends
  Ends-Safe f h sh (ok r) k honest safe = Keeps-Safe f h sh r k honest safe
  Ends-Safe f h sh (err x) k honest safe = tt
  Ends-Safe f h sh panic k honest safe = tt

  -- The handler itself goes from one place to another, neither of them late, and writes nothing.
  pub advances :
      (h h' : Accept) (sh sh' : Shared e)
      → Safe h sh
      → late h.main ≡ false
      → h'.written ≡ h.written
      → (offers h'.reader ≡ true → offers h.reader ≡ true)
      → sh'.existing_device_done_ch ≡ sh.existing_device_done_ch
      → At h'.main sh'.db sh'.random
      → Safe h' sh'
  advances h h' sh sh' safe early w o c at = record {
    at = at;
    told_late = λ t. cc (safe.told_late (sym (ap told w) ∙ t), early);
    offers_late = λ w q. cc (safe.offers_late w (o q), early);
    passed_late = λ w q. cc (safe.passed_late w (sym c ∙ q), early);
  }

  -- What is known of all adders is known of one.
  known :
      (n : ℕ) (ps : List (Adder e)) (p : Adder e)
      → All W (configs e ps)
      → at_place n ps ≡ some p
      → W (config e p)
  unfolding at_place configs
  known n [] p all found = cc found
  known zero (q ∷ ps) p all found =
      let same : q ≡ p = cc found in transport (λ i. W (config e (same i))) all.0
  known (suc n) (q ∷ ps) p all found = known n ps p all.1 found

  pub known_pointer :
      (k : Option ℕ) (ps : List (Adder e)) (p : Adder e)
      → All W (configs e ps)
      → points_to k ps ≡ some p
      → W (config e p)
  unfolding points_to
  known_pointer none ps p all found = cc found
  known_pointer (some n) ps p all found = known n ps p all found
