-- ===== src/Server/AddDevice/Register/Reading.antt =====
-- The reading goroutine of RegisterDeviceHandler (server/tss_add.go).
use meemaw.Prelude.{
  ◌≡◌, refl, ap, ◌⊎◌, inl, inr, Bool, true, false, ◌≤◌, List, [], Option, none, some, arith, Str, ℕ,
  ltb, Outcome, ok, err, panic, Ends, if-Ends,
}
use meemaw.Encoding.Hex.{Bytes}
use meemaw.Tss.Wallet.{DkgResult}
use meemaw.Ws.{WsMessage, MessageType, same_type, switch, unexpected}
use meemaw.Ws.Endpoint.{Reader, reading, inside, returned, reader_fails}
use meemaw.Server.Database.{Db}
use meemaw.Server.AddDevice.Shared.{Setting, Adder, Shared}
use meemaw.Server.AddDevice.Shared.Aside.{reads_tss-Aside}
use meemaw.Server.AddDevice.Register.{
  Inside, offers_peer_id, awaits_peer_id, offers_useragent, broadcasts, awaits_metadata,
  offers_adder, sends_pubkey, offers_start, sets_stage, offers_done, answers, Register, Case,
  peer_id_case, device_case, tss_case, stored_case, default_case, case_of, on_message,
  with_wallet_json, offer_peer_id, take_peer_id, offer_useragent, offer_adder, offer_done, goes_on,
  go_on, read_message,
}
use meemaw.Server.AddDevice.Register.Safe.{
  may_make, is_making, Safe, Good, moves, stays, Ends-Good, unless_past-Good, writes-Good,
}
use meemaw.Server.AddDevice.Register.Making.{with_metadata-Good}

device_case_stage : (t : MessageType) → case_of t ≡ device_case → t.msg_stage ≡ 20
unfolding case_of switch same_type
device_case_stage t h = ground arith

module _ (e : Setting) (user_id : Str) (db₀ : Db) where
  open e use {a, lib, al, crypto}

  module _ (user_agent : Str) (L : Type 0) where
    none_made :
        (ps : List (Adder e)) (stage k : ℕ)
        → (ps ≡ []) ⊎ (30 ≤ stage)
        → k ≡ 20
        → ltb k stage ≡ false
        → ps ≡ []
    none_made ps stage k (inl none_yet) same now = none_yet
    none_made ps stage k (inr late) same now = absurd (ground arith)

    on_message-Good :
        (k : Case) (h : Register) (sh : Shared e) (msg : WsMessage)
        → Safe e user_id db₀ L h sh
        → may_make h.reader ≡ true
        → (k ≡ device_case → msg.msg_type.msg_stage ≡ 20)
        → Ends (Good e user_id db₀ L sh) (on_message e user_id user_agent k h sh msg)
    unfolding on_message Ends may_make is_making
    on_message-Good peer_id_case h sh msg safe may stage =
        unless_past-Good e user_id db₀ user_agent L h _ sh msg safe (λ now.
          moves e user_id db₀ user_agent L h _ sh sh safe refl refl refl refl refl refl (λ q. may)
            (λ q. cc q))
    on_message-Good device_case h sh msg safe may stage =
        unless_past-Good e user_id db₀ user_agent L h _ sh msg safe (λ now.
          moves e user_id db₀ user_agent L h _ sh sh safe refl refl refl refl refl refl (λ q. may)
            (λ q. none_made sh.adders h.stage _ (safe.one_adder may) (stage refl) now))
    on_message-Good tss_case h sh msg safe may stage =
        if-Ends (Good e user_id db₀ L sh) (ltb msg.msg_type.msg_stage h.stage) _ _
          (stays e user_id db₀ user_agent L h sh safe)
          (Ends-Good e user_id db₀ user_agent L h sh _ safe (reads_tss-Aside e h sh msg.msg))
    on_message-Good stored_case h sh msg safe may stage =
        moves e user_id db₀ user_agent L h _ sh sh safe refl refl refl refl refl refl (λ q. may)
          (λ q. cc q)
    on_message-Good default_case h sh msg safe may stage =
        moves e user_id db₀ user_agent L h _ sh sh safe refl refl refl refl refl refl (λ q. may)
          (λ q. cc q)

    with_wallet_json-Good :
        (h : Register) (sh : Shared e) (r : Outcome Bytes) (write : Outcome (Unit {0}))
        → Safe e user_id db₀ L h sh
        → Ends (Good e user_id db₀ L sh) (with_wallet_json e user_id user_agent h sh r write)
    unfolding with_wallet_json Ends reader_fails may_make is_making
    with_wallet_json-Good h sh (ok json) write safe =
        writes-Good e user_id db₀ user_agent L h sh _ (inside offers_start) write safe (λ q. cc q)
          refl
    with_wallet_json-Good h sh (err x) write safe =
        moves e user_id db₀ user_agent L h _ sh sh safe refl refl refl refl refl refl (λ q. cc q)
          (λ q. cc q)
    with_wallet_json-Good h sh panic write safe = tt

    offer_peer_id-Good :
        (c : Option Str) (h : Register) (sh : Shared e)
        → may_make h.reader ≡ true
        → Safe e user_id db₀ L h sh
        → Good e user_id db₀ L sh (offer_peer_id e user_id user_agent c h sh)
    unfolding offer_peer_id may_make is_making
    offer_peer_id-Good none h sh may safe =
        moves e user_id db₀ user_agent L h _ sh _ safe refl refl refl refl refl refl (λ q. may)
          (λ q. cc q)
    offer_peer_id-Good (some x) h sh may safe = stays e user_id db₀ user_agent L h sh safe

    take_peer_id-Good :
        (c : Option Str) (h : Register) (sh : Shared e)
        → may_make h.reader ≡ true
        → Safe e user_id db₀ L h sh
        → Good e user_id db₀ L sh (take_peer_id e user_id user_agent c h sh)
    unfolding take_peer_id may_make is_making
    take_peer_id-Good none h sh may safe = stays e user_id db₀ user_agent L h sh safe
    take_peer_id-Good (some x) h sh may safe =
        moves e user_id db₀ user_agent L h _ sh _ safe refl refl refl refl refl refl (λ q. may)
          (λ q. cc q)

    offer_useragent-Good :
        (c : Option Str) (h : Register) (sh : Shared e)
        → may_make h.reader ≡ true
        → Safe e user_id db₀ L h sh
        → Good e user_id db₀ L sh (offer_useragent e user_id user_agent c h sh)
    unfolding offer_useragent may_make is_making
    offer_useragent-Good none h sh may safe =
        moves e user_id db₀ user_agent L h _ sh _ safe refl refl refl refl refl refl (λ q. may)
          (λ q. cc q)
    offer_useragent-Good (some x) h sh may safe = stays e user_id db₀ user_agent L h sh safe

    offer_adder-Good :
        (c : Option ℕ) (wallet : DkgResult) (h : Register) (sh : Shared e)
        → Safe e user_id db₀ L h sh
        → Good e user_id db₀ L sh (offer_adder e user_id user_agent c wallet h sh)
    unfolding offer_adder may_make is_making
    offer_adder-Good none wallet h sh safe =
        moves e user_id db₀ user_agent L h _ sh _ safe refl refl refl refl refl refl (λ q. cc q)
          (λ q. cc q)
    offer_adder-Good (some x) wallet h sh safe = stays e user_id db₀ user_agent L h sh safe

    offer_done-Good :
        (c : Bool) (h : Register) (sh : Shared e)
        → may_make h.reader ≡ true
        → Safe e user_id db₀ L h sh
        → Good e user_id db₀ L sh (offer_done e user_id user_agent c h sh)
    unfolding offer_done may_make is_making
    offer_done-Good false h sh may safe =
        moves e user_id db₀ user_agent L h _ sh _ safe refl refl refl refl refl refl (λ q. may)
          (λ q. cc q)
    offer_done-Good true h sh may safe = stays e user_id db₀ user_agent L h sh safe

    -- `stage = 30`.
    sets_stage-Good :
        (h : Register) (sh : Shared e)
        → Safe e user_id db₀ L h sh
        → Good e user_id db₀ L sh (record h { stage = 30; reader = reading }, sh)
    unfolding may_make is_making
    sets_stage-Good h sh safe = (
      record { same_db = refl; same_random = refl; grown = λ q. q; passed = λ q. q },
      record {
        done_late = safe.done_late;
        passed_late = safe.passed_late;
        one_adder = λ q. inr (omega arith);
        no_adder = λ q. cc q;
        of_wallet = safe.of_wallet;
        untouched = safe.untouched;
      },
    )

    goes_on-Good :
        (p : Inside) (h : Register) (sh : Shared e) (write : Outcome (Unit {0}))
        → h.reader ≡ inside p
        → Safe e user_id db₀ L h sh
        → Ends (Good e user_id db₀ L sh) (goes_on e user_id user_agent p h sh write)
    unfolding goes_on Ends may_make is_making
    goes_on-Good offers_peer_id h sh write here safe =
        offer_peer_id-Good sh.new_client_peer_id_ch h sh (ap may_make here) safe
    goes_on-Good awaits_peer_id h sh write here safe =
        take_peer_id-Good sh.existing_client_peer_id_ch h sh (ap may_make here) safe
    goes_on-Good offers_useragent h sh write here safe =
        offer_useragent-Good sh.useragent_ch h sh (ap may_make here) safe
    goes_on-Good broadcasts h sh write here safe =
        writes-Good e user_id db₀ user_agent L h sh _ reading write safe (λ q. ap may_make here)
          refl
    goes_on-Good (awaits_metadata device) h sh write here safe =
        with_metadata-Good e user_id db₀ user_agent L sh.metadata_ch h sh device (ap is_making here)
          safe
    goes_on-Good (offers_adder wallet) h sh write here safe =
        offer_adder-Good sh.adder_ch wallet h sh safe
    goes_on-Good (sends_pubkey wallet) h sh write here safe =
        with_wallet_json-Good h sh (e.marshal_wallet wallet.pubkey wallet.bks) write safe
    goes_on-Good offers_start h sh write here safe = stays e user_id db₀ user_agent L h sh safe
    goes_on-Good sets_stage h sh write here safe = sets_stage-Good h sh safe
    goes_on-Good offers_done h sh write here safe =
        offer_done-Good sh.new_device_done_ch h sh (ap may_make here) safe
    goes_on-Good answers h sh write here safe =
        writes-Good e user_id db₀ user_agent L h sh unexpected reading write safe
          (λ q. ap may_make here) refl

    pub go_on-Good :
        (r : Reader Inside) (h : Register) (sh : Shared e) (write : Outcome (Unit {0}))
        → h.reader ≡ r
        → Safe e user_id db₀ L h sh
        → Ends (Good e user_id db₀ L sh) (go_on e user_id user_agent r h sh write)
    unfolding go_on Ends
    go_on-Good (inside p) h sh write here safe = goes_on-Good p h sh write here safe
    go_on-Good reading h sh write here safe = stays e user_id db₀ user_agent L h sh safe
    go_on-Good returned h sh write here safe = stays e user_id db₀ user_agent L h sh safe

    pub read_message-Good :
        (r : Reader Inside) (h : Register) (sh : Shared e) (msg : WsMessage)
        → h.reader ≡ r
        → Safe e user_id db₀ L h sh
        → Ends (Good e user_id db₀ L sh) (read_message e user_id user_agent r h sh msg)
    unfolding read_message Ends may_make
    read_message-Good reading h sh msg here safe =
        on_message-Good (case_of msg.msg_type) h sh msg safe (ap may_make here)
          (device_case_stage msg.msg_type)
    read_message-Good (inside p) h sh msg here safe = stays e user_id db₀ user_agent L h sh safe
    read_message-Good returned h sh msg here safe = stays e user_id db₀ user_agent L h sh safe
