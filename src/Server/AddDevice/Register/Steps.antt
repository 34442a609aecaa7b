-- ===== src/Server/AddDevice/Register/Steps.antt =====
-- Every step of RegisterDeviceHandler keeps what both handlers share as it should be (server/tss_add.go).
use meemaw.Prelude.{
  ◌≡◌, refl, ap, sym, ◌∙◌, inl, inr, Bool, Bool-cases, true, false, ◌≤◌, List, arith, Str, ltb,
  length, Outcome, ok, err, panic, Ends, if-Ends, GoError,
}
use meemaw.Ws.Endpoint.{
  Reader, reading, inside, returned, Sender, not_started, polling, stopped, Turn, reads, read_ends,
  ends, cancels, starts, read_fails, goes, polls, runs, reader_fails, while_reading, ends_sending,
  checked, gives_up, reports,
}
use meemaw.Server.Database.{Db}
use meemaw.Server.AddDevice.Shared.{Setting, Shared, points_to, is_done}
use meemaw.Server.AddDevice.Shared.Aside.{polls_adder-Aside}
use meemaw.Server.AddDevice.Register.{
  Inside, offers_peer_id, awaits_peer_id, offers_useragent, broadcasts, awaits_metadata,
  offers_adder, sends_pubkey, offers_start, sets_stage, offers_done, answers, Main, waits_start,
  waits_tss, awaits_tss_done, sends_metadata, awaits_done, sends_done, finished, failed, blocked,
  Register, alone, rendezvous, main_turn, take_tss_done, take_done, metadata_sent, done_sent,
  register_turn,
}
use meemaw.Server.AddDevice.Register.Safe.{
  may_make, is_making, done, Safe, Good, moves, stays, Ends-Good,
}
use meemaw.Server.AddDevice.Register.Reading.{go_on-Good, read_message-Good}

module _ (e : Setting) (user_id : Str) (db₀ : Db) where
  open e use {a, lib, al, crypto}

  module _ (user_agent : Str) (L : Type 0) where
    while_reading-Good :
        (r : Reader Inside) (h h' : Register) (sh : Shared e)
        → Safe e user_id db₀ L h sh
        → Good e user_id db₀ L sh (h', sh)
        → Ends (Good e user_id db₀ L sh) (alone e user_id user_agent sh (while_reading r h (ok h')))
    unfolding while_reading alone Ends
    while_reading-Good reading h h' sh safe good = good
    while_reading-Good (inside p) h h' sh safe good = stays e user_id db₀ user_agent L h sh safe
    while_reading-Good returned h h' sh safe good = stays e user_id db₀ user_agent L h sh safe

    ends_sending-Good :
        (g : Sender) (h : Register) (sh : Shared e)
        → Safe e user_id db₀ L h sh
        → Good e user_id db₀ L sh (ends_sending g h, sh)
    unfolding ends_sending
    ends_sending-Good polling h sh safe =
        moves e user_id db₀ user_agent L h _ sh sh safe refl refl refl refl refl refl (λ q. q)
          safe.no_adder
    ends_sending-Good not_started h sh safe = stays e user_id db₀ user_agent L h sh safe
    ends_sending-Good stopped h sh safe = stays e user_id db₀ user_agent L h sh safe

    -- The handler itself goes from one place to another.
    advances :
        (h h' : Register) (sh sh' : Shared e)
        → Safe e user_id db₀ L h sh
        → (done h'.main ≡ true → L)
        → ((30 ≤ h.stage) → 30 ≤ h'.stage)
        → h'.reader ≡ h.reader
        → sh'.db ≡ sh.db
        → sh'.random ≡ sh.random
        → sh'.adders ≡ sh.adders
        → (sh'.existing_device_done_ch ≡ true → sh.existing_device_done_ch ≡ true)
        → Good e user_id db₀ L sh (h', sh')
    advances h h' sh sh' safe m g same d r ps c = (
      record { same_db = d; same_random = r; grown = λ q. sym ps ∙ q; passed = c },
      record {
        done_late = m;
        passed_late = λ q. safe.passed_late (c q);
        one_adder = λ q. elim (safe.one_adder (sym (ap may_make same) ∙ q)) [
          | inl none_yet ↦ inl (ps ∙ none_yet)
          | inr late ↦ inr (g late)
        ];
        no_adder = λ q. ps ∙ safe.no_adder (sym (ap is_making same) ∙ q);
        of_wallet = rw ps safe.of_wallet;
        untouched = λ q. d ∙ safe.untouched (sym ps ∙ q);
      },
    )

    rendezvous-Good :
        (r : Reader Inside) (m : Main) (h : Register) (sh : Shared e)
        → Safe e user_id db₀ L h sh
        → Good e user_id db₀ L sh (rendezvous e user_id user_agent r m h, sh)
    unfolding rendezvous done may_make is_making
    rendezvous-Good (inside offers_start) waits_start h sh safe = (
      record { same_db = refl; same_random = refl; grown = λ q. q; passed = λ q. q },
      record {
        done_late = λ q. cc q;
        passed_late = safe.passed_late;
        one_adder = λ q. cc q;
        no_adder = λ q. cc q;
        of_wallet = safe.of_wallet;
        untouched = safe.untouched;
      },
    )
    rendezvous-Good (inside offers_start) waits_tss h sh safe =
        stays e user_id db₀ user_agent L h sh safe
    rendezvous-Good (inside offers_start) awaits_tss_done h sh safe =
        stays e user_id db₀ user_agent L h sh safe
    rendezvous-Good (inside offers_start) sends_metadata h sh safe =
        stays e user_id db₀ user_agent L h sh safe
    rendezvous-Good (inside offers_start) awaits_done h sh safe =
        stays e user_id db₀ user_agent L h sh safe
    rendezvous-Good (inside offers_start) sends_done h sh safe =
        stays e user_id db₀ user_agent L h sh safe
    rendezvous-Good (inside offers_start) finished h sh safe =
        stays e user_id db₀ user_agent L h sh safe
    rendezvous-Good (inside offers_start) failed h sh safe =
        stays e user_id db₀ user_agent L h sh safe
    rendezvous-Good (inside offers_start) blocked h sh safe =
        stays e user_id db₀ user_agent L h sh safe
    rendezvous-Good (inside offers_peer_id) m h sh safe = stays e user_id db₀ user_agent L h sh safe
    rendezvous-Good (inside awaits_peer_id) m h sh safe = stays e user_id db₀ user_agent L h sh safe
    rendezvous-Good (inside offers_useragent) m h sh safe =
        stays e user_id db₀ user_agent L h sh safe
    rendezvous-Good (inside broadcasts) m h sh safe = stays e user_id db₀ user_agent L h sh safe
    rendezvous-Good (inside (awaits_metadata device)) m h sh safe =
        stays e user_id db₀ user_agent L h sh safe
    rendezvous-Good (inside (offers_adder wallet)) m h sh safe =
        stays e user_id db₀ user_agent L h sh safe
    rendezvous-Good (inside (sends_pubkey wallet)) m h sh safe =
        stays e user_id db₀ user_agent L h sh safe
    rendezvous-Good (inside sets_stage) m h sh safe = stays e user_id db₀ user_agent L h sh safe
    rendezvous-Good (inside offers_done) m h sh safe = stays e user_id db₀ user_agent L h sh safe
    rendezvous-Good (inside answers) m h sh safe = stays e user_id db₀ user_agent L h sh safe
    rendezvous-Good reading m h sh safe = stays e user_id db₀ user_agent L h sh safe
    rendezvous-Good returned m h sh safe = stays e user_id db₀ user_agent L h sh safe

    checked-Good :
        (h : Register) (sh : Shared e) (r : Outcome (Unit {0}) × List GoError)
        → Safe e user_id db₀ L h sh
        → Ends
            (Good e user_id db₀ L sh)
            (alone e user_id user_agent sh (checked awaits_tss_done (λ x. failed) h r))
    unfolding checked alone Ends gives_up done
    checked-Good h sh (ok u, errs) safe =
        advances h _ sh sh safe (λ q. cc q) (λ late. omega arith) refl refl refl refl (λ q. q)
    checked-Good h sh (err x, errs) safe =
        advances h _ sh sh safe (λ q. cc q) (λ late. late) refl refl refl refl (λ q. q)
    checked-Good h sh (panic, errs) safe = tt

    take_tss_done-Good :
        (c : Bool) (h : Register) (sh : Shared e)
        → Safe e user_id db₀ L h sh
        → Good e user_id db₀ L sh (take_tss_done e user_id user_agent c h sh)
    unfolding take_tss_done done
    take_tss_done-Good true h sh safe =
        advances h _ sh _ safe (λ q. cc q) (λ late. late) refl refl refl refl (λ q. q)
    take_tss_done-Good false h sh safe = stays e user_id db₀ user_agent L h sh safe

    take_done-Good :
        (c : Bool) (h : Register) (sh : Shared e)
        → sh.existing_device_done_ch ≡ c
        → Safe e user_id db₀ L h sh
        → Good e user_id db₀ L sh (take_done e user_id user_agent c h sh)
    unfolding take_done done
    take_done-Good true h sh arrived safe =
        advances h _ sh _ safe (λ q. safe.passed_late arrived) (λ late. late) refl refl refl refl
          (λ q. arrived)
    take_done-Good false h sh arrived safe = stays e user_id db₀ user_agent L h sh safe

    reports-Good :
        (h : Register) (sh : Shared e) (x : GoError)
        → Safe e user_id db₀ L h sh
        → Good e user_id db₀ L sh (reports failed blocked h x, sh)
    unfolding reports gives_up done
    reports-Good h sh x safe = elim (Bool-cases (ltb (length h.errs) 2)) [
      | inl room ↦
          rw room (advances h _ sh sh safe (λ q. cc q) (λ late. late) refl refl refl refl (λ q. q))
      | inr full ↦
          rw full (advances h _ sh sh safe (λ q. cc q) (λ late. late) refl refl refl refl (λ q. q))
    ]

    metadata_sent-Good :
        (h : Register) (sh : Shared e) (write : Outcome (Unit {0}))
        → Safe e user_id db₀ L h sh
        → Ends
            (Good e user_id db₀ L sh)
            (alone e user_id user_agent sh (metadata_sent e user_id user_agent h write))
    unfolding metadata_sent alone Ends done
    metadata_sent-Good h sh (ok u) safe =
        advances h _ sh sh safe (λ q. cc q) (λ late. late) refl refl refl refl (λ q. q)
    metadata_sent-Good h sh (err x) safe = reports-Good h sh x safe
    metadata_sent-Good h sh panic safe = tt

    done_sent-Good :
        (h : Register) (sh : Shared e) (write : Outcome (Unit {0}))
        → L
        → Safe e user_id db₀ L h sh
        → Ends
            (Good e user_id db₀ L sh)
            (alone e user_id user_agent sh (done_sent e user_id user_agent h write))
    unfolding done_sent alone Ends done
    done_sent-Good h sh (ok u) l safe =
        advances h _ sh sh safe (λ q. l) (λ late. late) refl refl refl refl (λ q. q)
    done_sent-Good h sh (err x) l safe = reports-Good h sh x safe
    done_sent-Good h sh panic l safe = tt

    main_turn-Good :
        (m : Main) (h : Register) (sh : Shared e) (write : Outcome (Unit {0}))
        → h.main ≡ m
        → Safe e user_id db₀ L h sh
        → Ends (Good e user_id db₀ L sh) (main_turn e user_id user_agent m h sh write)
    unfolding main_turn Ends done
    main_turn-Good waits_start h sh write here safe = stays e user_id db₀ user_agent L h sh safe
    main_turn-Good waits_tss h sh write here safe =
        if-Ends (Good e user_id db₀ L sh) (is_done e (points_to h.adder sh.adders)) _ _
          (checked-Good h sh _ safe) (stays e user_id db₀ user_agent L h sh safe)
    main_turn-Good awaits_tss_done h sh write here safe =
        take_tss_done-Good sh.existing_device_tss_done_ch h sh safe
    main_turn-Good sends_metadata h sh write here safe = metadata_sent-Good h sh write safe
    main_turn-Good awaits_done h sh write here safe =
        take_done-Good sh.existing_device_done_ch h sh refl safe
    main_turn-Good sends_done h sh write here safe =
        done_sent-Good h sh write (safe.done_late (ap done here)) safe
    main_turn-Good finished h sh write here safe = stays e user_id db₀ user_agent L h sh safe
    main_turn-Good failed h sh write here safe = stays e user_id db₀ user_agent L h sh safe
    main_turn-Good blocked h sh write here safe = stays e user_id db₀ user_agent L h sh safe

    pub register_turn-Good :
        (h : Register) (sh : Shared e) (t : Turn)
        → Safe e user_id db₀ L h sh
        → Ends (Good e user_id db₀ L sh) (register_turn e user_id user_agent h sh t)
    unfolding register_turn Ends reader_fails may_make is_making alone
    register_turn-Good h sh (reads msg) safe =
        read_message-Good e user_id db₀ user_agent L h.reader h sh msg refl safe
    register_turn-Good h sh read_ends safe = while_reading-Good h.reader h _ sh safe (
        moves e user_id db₀ user_agent L h _ sh sh safe refl refl refl refl refl refl (λ q. cc q)
          (λ q. cc q))
    register_turn-Good h sh (read_fails x) safe = while_reading-Good h.reader h _ sh safe (
        moves e user_id db₀ user_agent L h _ sh sh safe refl refl refl refl refl refl (λ q. cc q)
          (λ q. cc q))
    register_turn-Good h sh (goes write) safe =
        go_on-Good e user_id db₀ user_agent L h.reader h sh write refl safe
    register_turn-Good h sh starts safe = rendezvous-Good h.reader h.main h sh safe
    register_turn-Good h sh (polls write) safe =
        Ends-Good e user_id db₀ user_agent L h sh _ safe
          (polls_adder-Aside e h sh h.new_client_peer_id h.adder _ write refl)
    register_turn-Good h sh ends safe = ends_sending-Good h.sender h sh safe
    register_turn-Good h sh cancels safe =
        moves e user_id db₀ user_agent L h _ sh sh safe refl refl refl refl refl refl (λ q. q)
          safe.no_adder
    register_turn-Good h sh (runs write) safe = main_turn-Good h.main h sh write refl safe
