-- ===== src/Server/AddDevice/Accept/Turns.antt =====
-- Every step of AcceptDeviceHandler keeps its account of the database (server/tss_add.go).
use meemaw.Prelude.{
  transport, ◌≡◌, refl, ap, inl, inr, Bool, Bool-cases, true, false, List, Option, none, some, All,
  Str, if◌then◌else◌, Outcome, ok, err, panic, Ends, if-Ends, GoError, ltb, length,
}
use meemaw.Tss.Wallet.{DkgResult, merge_dkg_results}
use meemaw.Tss.Actors.Adder.{AddExistingConfig, server_add_process}
use meemaw.Ws.Endpoint.{Turn, checked, gives_up, reports}
use meemaw.Server.Database.{Db}
use meemaw.Server.Vault.{vault_add_peer}
use meemaw.Server.AddDevice.Shared.{Setting, Adder, Shared, points_to, is_done}
use meemaw.Server.AddDevice.Shared.Aside.{configs}
use meemaw.Server.AddDevice.Accept.{
  Main, waits_start, processes, awaits_useragent, waits_tss, awaits_new_done, sends_done,
  waits_done, finished, failed, blocked, Accept, accept_turn, main_turn, started, merged, processed,
  process_of, stored, adds_peer, take_new_done, done_sent, alone,
}
use meemaw.Server.AddDevice.Accept.Meeting.{by_turn, rendezvous-Ends}
use meemaw.Server.AddDevice.Accept.Steps.{offers, finishing, accept_turn-Keeps}
use meemaw.Server.AddDevice.Accept.Stored.{
  late, Original, Merged, Stored, Untouched, At, Safe, Honest, Ends-Safe, advances, known_pointer,
}

-- `W` is what is known of the wallets that adders are made from; `H` says that the existing device is honest; `R`
-- holds of what the run goes through.
module _ (e : Setting) (user_id : Str) (db₀ : Db) (random₀ : e.crypto.Random)
    (W : AddExistingConfig → Type 0) (H : Type 0) (R : Accept → Shared e → Type 0) where
  open e use {a, lib, al, crypto}

  checked-Safe :
      (h : Accept) (sh : Shared e) (r : Outcome (Unit {0}) × List GoError)
      → Safe e user_id db₀ random₀ W H R h sh
      → late h.main ≡ false
      → Stored e user_id db₀ random₀ W H R sh.db sh.random
      → Ends
          (λ q. Safe e user_id db₀ random₀ W H R q.0 q.1)
          (alone e user_id sh (checked awaits_new_done (λ x. failed) h r))
  unfolding checked alone Ends gives_up At
  checked-Safe h sh (ok u, errs) safe early was =
      advances e user_id db₀ random₀ W H R h _ sh sh safe early refl (λ o. o) refl was
  checked-Safe h sh (err x, errs) safe early was =
      advances e user_id db₀ random₀ W H R h _ sh sh safe early refl (λ o. o) refl (inr was)
  checked-Safe h sh (panic, errs) safe early was = tt

  merged-Safe :
      (h : Accept) (sh : Shared e) (r : Option DkgResult)
      → Safe e user_id db₀ random₀ W H R h sh
      → late h.main ≡ false
      → Untouched e user_id db₀ random₀ W H R sh.db sh.random
      → ((result : DkgResult) → r ≡ some result → Merged e user_id db₀ random₀ W H R result)
      → Safe e user_id db₀ random₀ W H R (merged e user_id h r) sh
  unfolding merged gives_up At
  merged-Safe h sh none safe early u m =
      advances e user_id db₀ random₀ W H R h _ sh sh safe early refl (λ o. o) refl (inl u)
  merged-Safe h sh (some result) safe early u m =
      advances e user_id db₀ random₀ W H R h _ sh sh safe early refl (λ o. o) refl
        (u, m result refl)

  processed-Safe :
      (h : Accept) (sh : Shared e) (original : DkgResult) (r : Option (Outcome DkgResult))
      → Safe e user_id db₀ random₀ W H R h sh
      → late h.main ≡ false
      → Untouched e user_id db₀ random₀ W H R sh.db sh.random
        × Original e user_id db₀ random₀ W H R original
      → ((updated : DkgResult)
          → r ≡ some (ok updated)
          → (q : Adder e) × (points_to h.adder sh.adders ≡ some q)
            × (server_add_process a lib al q ≡ some (ok updated)))
      → h.main ≡ processes original
      → R h sh
      → Ends
          (λ q. Safe e user_id db₀ random₀ W H R q.0 q.1)
          (alone e user_id sh (processed e user_id h original r))
  unfolding processed alone Ends gives_up At Merged
  processed-Safe h sh original none safe early (u, o) by here reached = safe
  processed-Safe h sh original (some (ok updated)) safe early (u, o) by here reached =
      merged-Safe h sh (merge_dkg_results original updated) safe early u (λ result m.
        let (q, is, gave) = by updated refl in
        (original, o, h, sh, reached, here, q, is, updated, gave, m))
  processed-Safe h sh original (some (err x)) safe early (u, o) by here reached =
      advances e user_id db₀ random₀ W H R h _ sh sh safe early refl (λ o. o) refl (inl u)
  processed-Safe h sh original (some panic) safe early (u, o) by here reached = tt

  by_process :
      (q : Option (Adder e)) (updated : DkgResult)
      → process_of e user_id q ≡ some (ok updated)
      → (p : Adder e) × (q ≡ some p) × (server_add_process a lib al p ≡ some (ok updated))
  unfolding process_of
  by_process none updated h = cc h
  by_process (some p) updated h = (p, refl, h)

  stored-Safe :
      (h : Accept) (sh : Shared e) (result : DkgResult) (user_agent : Str)
      (r : Outcome (Db × crypto.Random))
      → vault_add_peer crypto
          (some h.metadata)
          user_id
          h.new_client_peer_id
          user_agent
          result
          sh.db
          sh.random
        ≡ r
      → sh.useragent_ch ≡ some user_agent
      → h.main ≡ awaits_useragent result
      → R h sh
      → Safe e user_id db₀ random₀ W H R h sh
      → late h.main ≡ false
      → Untouched e user_id db₀ random₀ W H R sh.db sh.random
        × Merged e user_id db₀ random₀ W H R result
      → Ends
          (λ q. Safe e user_id db₀ random₀ W H R q.0 q.1)
          (stored e user_id h (record sh { useragent_ch = none }) r)
  unfolding stored Ends gives_up At Stored
  stored-Safe h sh result user_agent (ok (db, random)) eq is here reached safe early ((d, r), m) =
      advances e user_id db₀ random₀ W H R h _ sh _ safe early refl (λ o. o) refl
        (result, m, h, sh, reached, here, user_agent, is, rw (← d, ← r) eq)
  stored-Safe h sh result user_agent (err x) eq is here reached safe early (u, m) =
      advances e user_id db₀ random₀ W H R h _ sh _ safe early refl (λ o. o) refl (inl u)
  stored-Safe h sh result user_agent panic eq is here reached safe early (u, m) = tt

  adds_peer-Safe :
      (h : Accept) (sh : Shared e) (result : DkgResult) (c : Option Str)
      → sh.useragent_ch ≡ c
      → h.main ≡ awaits_useragent result
      → R h sh
      → Safe e user_id db₀ random₀ W H R h sh
      → late h.main ≡ false
      → Untouched e user_id db₀ random₀ W H R sh.db sh.random
        × Merged e user_id db₀ random₀ W H R result
      → Ends (λ q. Safe e user_id db₀ random₀ W H R q.0 q.1) (adds_peer e user_id h sh result c)
  unfolding adds_peer Ends
  adds_peer-Safe h sh result none is here reached safe early at = safe
  adds_peer-Safe h sh result (some user_agent) is here reached safe early at =
      stored-Safe h sh result user_agent _ refl is here reached safe early at

  take_new_done-Safe :
      (c : Bool) (h : Accept) (sh : Shared e)
      → Safe e user_id db₀ random₀ W H R h sh
      → late h.main ≡ false
      → Stored e user_id db₀ random₀ W H R sh.db sh.random
      → (λ (q : Accept × Shared e). Safe e user_id db₀ random₀ W H R q.0 q.1)
          (take_new_done e user_id c h sh)
  unfolding take_new_done At
  take_new_done-Safe true h sh safe early was =
      advances e user_id db₀ random₀ W H R h _ sh _ safe early refl (λ o. o) refl was
  take_new_done-Safe false h sh safe early was = safe

  reports-Safe :
      (h : Accept) (sh : Shared e) (x : GoError)
      → Safe e user_id db₀ random₀ W H R h sh
      → late h.main ≡ false
      → Stored e user_id db₀ random₀ W H R sh.db sh.random
      → Safe e user_id db₀ random₀ W H R (reports failed blocked h x) sh
  unfolding reports gives_up At
  reports-Safe h sh x safe early was = elim (Bool-cases (ltb (length h.errs) 2)) [
    | inl room ↦
        rw room
          (advances e user_id db₀ random₀ W H R h _ sh sh safe early refl (λ o. o) refl (inr was))
    | inr full ↦
        rw full
          (advances e user_id db₀ random₀ W H R h _ sh sh safe early refl (λ o. o) refl (inr was))
  ]

  done_sent-Safe :
      (h : Accept) (sh : Shared e) (write : Outcome (Unit {0}))
      → Safe e user_id db₀ random₀ W H R h sh
      → late h.main ≡ false
      → Stored e user_id db₀ random₀ W H R sh.db sh.random
      → Ends
          (λ q. Safe e user_id db₀ random₀ W H R q.0 q.1)
          (alone e user_id sh (done_sent e user_id h write))
  unfolding done_sent alone Ends At late
  done_sent-Safe h sh (ok u) safe early was = record {
    at = was;
    told_late = λ t. refl;
    offers_late = λ w o. refl;
    passed_late = λ w c. refl;
  }
  done_sent-Safe h sh (err x) safe early was = reports-Safe h sh x safe early was
  done_sent-Safe h sh panic safe early was = tt

  waits_done-Safe :
      (b : Bool) (h : Accept) (sh : Shared e)
      → Safe e user_id db₀ random₀ W H R h sh
      → Stored e user_id db₀ random₀ W H R sh.db sh.random
      → Safe e user_id db₀ random₀ W H R
          (if b then record h { main = finished; cancelled = true } else h)
          sh
  unfolding At late
  waits_done-Safe true h sh safe was = record {
    at = was;
    told_late = λ t. refl;
    offers_late = λ w o. refl;
    passed_late = λ w c. refl;
  }
  waits_done-Safe false h sh safe was = safe

  main_turn-Safe :
      (m : Main) (h : Accept) (sh : Shared e) (write : Outcome (Unit {0}))
      → h.main ≡ m
      → R h sh
      → At e user_id db₀ random₀ W H R m sh.db sh.random
      → Safe e user_id db₀ random₀ W H R h sh
      → Ends (λ q. Safe e user_id db₀ random₀ W H R q.0 q.1) (main_turn e user_id m h sh write)
  unfolding main_turn Ends At late
  main_turn-Safe waits_start h sh write here reached at safe = safe
  main_turn-Safe (processes original) h sh write here reached at safe =
      processed-Safe h sh original _ safe (ap late here) at
        (by_process (points_to h.adder sh.adders)) here reached
  main_turn-Safe (awaits_useragent result) h sh write here reached at safe =
      adds_peer-Safe h sh result sh.useragent_ch refl here reached safe (ap late here) at
  main_turn-Safe waits_tss h sh write here reached at safe =
      if-Ends (λ q. Safe e user_id db₀ random₀ W H R q.0 q.1)
        (is_done e (points_to h.adder sh.adders)) _ _ (checked-Safe h sh _ safe (ap late here) at)
        safe
  main_turn-Safe awaits_new_done h sh write here reached at safe =
      take_new_done-Safe sh.new_device_done_ch h sh safe (ap late here) at
  main_turn-Safe sends_done h sh write here reached at safe =
      done_sent-Safe h sh write safe (ap late here) at
  main_turn-Safe waits_done h sh write here reached at safe =
      waits_done-Safe h.server_done h sh safe at
  main_turn-Safe finished h sh write here reached at safe = safe
  main_turn-Safe failed h sh write here reached at safe = safe
  main_turn-Safe blocked h sh write here reached at safe = safe

  started-Safe :
      (q : Option (Adder e)) (h : Accept) (sh : Shared e)
      → points_to h.adder sh.adders ≡ q
      → h.main ≡ waits_start
      → R h sh
      → All W (configs e sh.adders)
      → late h.main ≡ false
      → Untouched e user_id db₀ random₀ W H R sh.db sh.random
      → Safe e user_id db₀ random₀ W H R h sh
      → Ends
          (λ r. Safe e user_id db₀ random₀ W H R r.0 r.1)
          (alone e user_id sh (started e user_id q h))
  unfolding started alone Ends At Original offers
  started-Safe none h sh found here reached all early u safe = tt
  started-Safe (some p) h sh found here reached all early u safe =
      advances e user_id db₀ random₀ W H R h _ sh sh safe early refl (λ o. cc o) refl
        (
          u,
          (
            h,
            sh,
            reached,
            here,
            p,
            found,
            known_pointer e user_id db₀ random₀ W H R h.adder sh.adders p all found,
            refl,
          ),
        )

  -- Every turn, where `W` holds of all adders, and the device is honest.
  pub accept_turn-Safe :
      (h : Accept) (sh : Shared e) (t : Turn)
      → R h sh
      → All W (configs e sh.adders)
      → Honest e user_id db₀ random₀ W H R (finishing t) h
      → Safe e user_id db₀ random₀ W H R h sh
      → Ends (λ q. Safe e user_id db₀ random₀ W H R q.0 q.1) (accept_turn e user_id h sh t)
  unfolding accept_turn late At
  accept_turn-Safe h sh t reached all honest safe =
      by_turn
        (λ t.
          Honest e user_id db₀ random₀ W H R (finishing t) h
          → Ends (λ q. Safe e user_id db₀ random₀ W H R q.0 q.1) (accept_turn e user_id h sh t))
        (λ w.
          rendezvous-Ends e user_id (λ q. Safe e user_id db₀ random₀ W H R q.0 q.1) h.reader h.main
            h sh safe
            (λ here.
              started-Safe _ h sh refl here reached all (ap late here)
                (transport (λ i. At e user_id db₀ random₀ W H R (here i) sh.db sh.random) safe.at)
                safe))
        (λ write w. main_turn-Safe h.main h sh write refl reached safe.at safe)
        (λ t o w.
          Ends-Safe e user_id db₀ random₀ W H R _ h sh _ (accept_turn-Keeps e user_id h sh t o) w
            safe)
        t honest
