-- ===== src/Server/AddDevice/Register/Safe.antt =====
-- What RegisterDeviceHandler keeps of what both handlers share (server/tss_add.go), and the steps of its reading
-- goroutine that only go elsewhere.
use meemaw.Prelude.{
  ◌≡◌, refl, ap, sym, ◌∙◌, ◌⊎◌, inl, inr, Bool, Bool-cases, true, false, ◌≤◌, [], some, All, Str,
  ltb, Outcome, ok, err, panic, Ends,
}
use meemaw.Tss.Wallet.{DkgResult, new_pubkey}
use meemaw.Tss.Actors.Adder.{AddExistingConfig}
use meemaw.Ws.{WsMessage}
use meemaw.Ws.Endpoint.{Reader, reading, inside, returned, reader_fails, writes, unless_past}
use meemaw.Server.Database.{Db}
use meemaw.Server.Vault.{retrieve_wallet}
use meemaw.Server.AddDevice.Shared.{Setting, Shared}
use meemaw.Server.AddDevice.Shared.Aside.{configs, same_empty, Aside}
use meemaw.Server.AddDevice.Register.{
  Inside, offers_peer_id, awaits_peer_id, offers_useragent, broadcasts, awaits_metadata,
  offers_adder, sends_pubkey, offers_start, sets_stage, offers_done, answers, Main, sends_done,
  finished, Register, alone,
}

-- The existing device has reported its end.
unfoldable pub done : Main → Bool
done sends_done = true
done finished = true
done _ = false

-- Where the reading goroutine has no adder of its own, or is past the stage of making one.
unfoldable pub may_make : Reader Inside → Bool
may_make (inside (offers_adder result)) = false
may_make (inside (sends_pubkey result)) = false
may_make (inside offers_start) = false
may_make (inside sets_stage) = false
may_make (inside offers_peer_id) = true
may_make (inside awaits_peer_id) = true
may_make (inside offers_useragent) = true
may_make (inside broadcasts) = true
may_make (inside (awaits_metadata device)) = true
may_make (inside offers_done) = true
may_make (inside answers) = true
may_make reading = true
may_make returned = false

unfoldable pub is_making : Reader Inside → Bool
is_making (inside (awaits_metadata device)) = true
is_making _ = false

module _ (e : Setting) (user_id : Str) (db₀ : Db) where
  open e use {a, lib, al, crypto}

  -- What an adder is made from: a wallet that RetrieveWallet gave on the first database.
  unfoldable pub OfWallet : AddExistingConfig → Type 0
  OfWallet c =
      (metadata : Str) × (wallet : DkgResult) × (retrieve_wallet crypto (some metadata) user_id db₀
        ≡ ok wallet)
      × (new_pubkey wallet.pubkey ≡ ok c.pubkey)
      × (c.share ≡ wallet.share)
      × (c.original_bks ≡ wallet.bks)

  -- `L` is what the end of the existing device shows.
  pub record Safe (L : Type 0) (h : Register) (sh : Shared e) : Type 0 where
    pub done_late : done h.main ≡ true → L
    pub passed_late : sh.existing_device_done_ch ≡ true → L
    pub one_adder : may_make h.reader ≡ true → (sh.adders ≡ []) ⊎ (30 ≤ h.stage)
    pub no_adder : is_making h.reader ≡ true → sh.adders ≡ []
    pub of_wallet : All OfWallet (configs e sh.adders)
    pub untouched : sh.adders ≡ [] → sh.db ≡ db₀

  pub record Frame (sh sh' : Shared e) : Type 0 where
    pub same_db : sh'.db ≡ sh.db
    pub same_random : sh'.random ≡ sh.random
    pub grown : sh'.adders ≡ [] → sh.adders ≡ []
    pub passed : sh'.existing_device_done_ch ≡ true → sh.existing_device_done_ch ≡ true

  abbrev pub Good : Type 0 → Shared e → Register × Shared e → Type 0
  Good L sh r = Frame sh r.1 × Safe L r.0 r.1

  module _ (user_agent : Str) (L : Type 0) where
    -- The reading goroutine goes elsewhere, and channels change.
    pub moves :
        (h h' : Register) (sh sh' : Shared e)
        → Safe L h sh
        → h'.main ≡ h.main
        → h'.stage ≡ h.stage
        → sh'.db ≡ sh.db
        → sh'.random ≡ sh.random
        → sh'.adders ≡ sh.adders
        → sh'.existing_device_done_ch ≡ sh.existing_device_done_ch
        → (may_make h'.reader ≡ true → may_make h.reader ≡ true)
        → (is_making h'.reader ≡ true → sh.adders ≡ [])
        → Good L sh (h', sh')
    moves h h' sh sh' safe m g d r ps c may making = (
      record { same_db = d; same_random = r; grown = λ q. sym ps ∙ q; passed = λ q. sym c ∙ q },
      record {
        done_late = λ q. safe.done_late (sym (ap done m) ∙ q);
        passed_late = λ q. safe.passed_late (sym c ∙ q);
        one_adder = λ q. elim (safe.one_adder (may q)) [
          | inl none_yet ↦ inl (ps ∙ none_yet)
          | inr late ↦ inr (rw g late)
        ];
        no_adder = λ q. ps ∙ making q;
        of_wallet = rw ps safe.of_wallet;
        untouched = λ q. d ∙ safe.untouched (sym ps ∙ q);
      },
    )

    pub stays : (h : Register) (sh : Shared e) → Safe L h sh → Good L sh (h, sh)
    stays h sh safe =
        moves h h sh sh safe refl refl refl refl refl refl (λ q. q) (λ q. safe.no_adder q)

    reader_as :
        (r r' : Reader Inside)
        → (r' ≡ r) ⊎ (r' ≡ returned)
        → (may_make r' ≡ true → may_make r ≡ true) × (is_making r' ≡ true → is_making r ≡ true)
    unfolding may_make is_making
    reader_as r r' (inl same) = (λ q. sym (ap may_make same) ∙ q, λ q. sym (ap is_making same) ∙ q)
    reader_as r r' (inr gone) =
        (λ q. cc (sym (ap may_make gone) ∙ q), λ q. cc (sym (ap is_making gone) ∙ q))

    Aside-Good :
        (h : Register) (sh : Shared e) (r : Register × Shared e)
        → Safe L h sh
        → Aside e h sh r
        → Good L sh r
    Aside-Good h sh (h', sh') safe aside =
        let rest = aside.served.the_rest in
        let same = aside.served.same_configs in
        let (may, making) = reader_as h.reader h'.reader aside.reader in
        (
          record {
            same_db = ap (λ (t : Shared e). t.db) rest;
            same_random = ap (λ (t : Shared e). t.random) rest;
            grown = same_empty e sh.adders sh'.adders same;
            passed = λ q. sym (ap (λ (t : Shared e). t.existing_device_done_ch) rest) ∙ q;
          },
          record {
            done_late = λ q. safe.done_late (sym (ap done aside.same_main) ∙ q);
            passed_late = λ q.
                safe.passed_late (sym (ap (λ (t : Shared e). t.existing_device_done_ch) rest) ∙ q);
            one_adder = λ q. elim (safe.one_adder (may q)) [
              | inl none_yet ↦ inl (same_empty e sh'.adders sh.adders (sym same) none_yet)
              | inr late ↦ inr (rw aside.same_stage late)
            ];
            no_adder = λ q. same_empty e sh'.adders sh.adders (sym same) (safe.no_adder (making q));
            of_wallet = rw same safe.of_wallet;
            untouched = λ q.
                ap (λ (t : Shared e). t.db) rest
                ∙ safe.untouched (same_empty e sh.adders sh'.adders same q);
          },
        )

    pub Ends-Good :
        (h : Register) (sh : Shared e) (r : Outcome (Register × Shared e))
        → Safe L h sh
        → Ends (Aside e h sh) r
        → Ends (Good L sh) r
    unfolding Ends
    Ends-Good h sh (ok r) safe aside = Aside-Good h sh r safe aside
    Ends-Good h sh (err x) safe aside = tt
    Ends-Good h sh panic safe aside = tt

    pub unless_past-Good :
        (h h' : Register) (sh : Shared e) (msg : WsMessage)
        → Safe L h sh
        → (ltb msg.msg_type.msg_stage h.stage ≡ false → Good L sh (h', sh))
        → Good L sh (unless_past msg h h', sh)
    unfolding unless_past
    unless_past-Good h h' sh msg safe good =
        elim (Bool-cases (ltb msg.msg_type.msg_stage h.stage)) [
          | inl past ↦ rw past (stays h sh safe)
          | inr now ↦ rw now (good now)
        ]

    pub writes-Good :
        (h : Register) (sh : Shared e) (msg : WsMessage) (next : Reader Inside)
        (write : Outcome (Unit {0}))
        → Safe L h sh
        → (may_make next ≡ true → may_make h.reader ≡ true)
        → is_making next ≡ false
        → Ends (Good L sh) (alone e user_id user_agent sh (writes h msg next write))
    unfolding Ends alone writes reader_fails may_make is_making
    writes-Good h sh msg next (ok u) safe may making =
        moves h _ sh sh safe refl refl refl refl refl refl may (λ q. cc (q, making))
    writes-Good h sh msg next (err x) safe may making =
        moves h _ sh sh safe refl refl refl refl refl refl (λ q. cc q) (λ q. cc q)
    writes-Good h sh msg next panic safe may making = tt
