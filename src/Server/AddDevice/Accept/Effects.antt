-- ===== src/Server/AddDevice/Accept/Effects.antt =====
-- What a turn of AcceptDeviceHandler leaves to RegisterDeviceHandler (server/tss_add.go).
use meemaw.Prelude.{
  ◌≡◌, refl, ap, sym, ◌∙◌, Bool, true, false, List, [], ◌∷◌, Option, none, some, Str, ℕ,
  if◌then◌else◌, Outcome, ok, err, panic, Ends, if-Ends,
}
use meemaw.Tss.Wallet.{DkgResult}
use meemaw.Ws.Endpoint.{Turn}
use meemaw.Server.Database.{Db}
use meemaw.Server.AddDevice.Shared.{Setting, Adder, Shared, points_to, at_place, is_done}
use meemaw.Server.AddDevice.Shared.Aside.{configs, same_empty}
use meemaw.Server.AddDevice.Accept.{
  Main, waits_start, processes, awaits_useragent, waits_tss, awaits_new_done, sends_done,
  waits_done, finished, failed, blocked, Accept, accept_turn, main_turn, started, stored, adds_peer,
  take_new_done, alone,
}
use meemaw.Server.AddDevice.Accept.Meeting.{by_turn, rendezvous-Ends}
use meemaw.Server.AddDevice.Accept.Steps.{Keeps, accept_turn-Keeps}
use meemaw.Server.AddDevice.Accept.Stored.{late}

module _ (e : Setting) (user_id : Str) where
  -- Before there is an adder, the handler waits for the start.
  unfoldable pub Waits : Accept → Shared e → Type 0
  Waits h sh = sh.adders ≡ [] → h.main ≡ waits_start

  pub record Leaves (h : Accept) (sh : Shared e) (r : Accept × Shared e) : Type 0 where
    pub same_wallets : configs e r.1.adders ≡ configs e sh.adders
    pub still_late : late h.main ≡ true → late r.0.main ≡ true
    pub still_waits : Waits r.0 r.1

  Keeps-Leaves :
      (f : Bool) (h : Accept) (sh : Shared e) (r : Accept × Shared e)
      → Keeps e f h sh r
      → Waits h sh
      → Leaves h sh r
  unfolding Waits
  Keeps-Leaves f h sh (h', sh') k waits = record {
    same_wallets = k.same_configs;
    still_late = λ l. ap late k.same_main ∙ l;
    still_waits = λ q. k.same_main ∙ waits (same_empty e sh.adders sh'.adders k.same_configs q);
  }

  Ends-Leaves :
      (f : Bool) (h : Accept) (sh : Shared e) (r : Outcome (Accept × Shared e))
      → Ends (Keeps e f h sh) r
      → Waits h sh
      → Ends (Leaves h sh) r
  unfolding Ends
  Ends-Leaves f h sh (ok r) k waits = Keeps-Leaves f h sh r k waits
  Ends-Leaves f h sh (err x) k waits = tt
  Ends-Leaves f h sh panic k waits = tt

  unmoved : (h : Accept) (sh : Shared e) → Waits h sh → Leaves h sh (h, sh)
  unmoved h sh waits = record { same_wallets = refl; still_late = λ l. l; still_waits = waits }

  -- The handler itself moves, from a place after the start and before the end.
  moved :
      (h h' : Accept) (sh sh' : Shared e)
      → (h.main ≡ waits_start → ⊥)
      → (late h.main ≡ true → late h'.main ≡ true)
      → Waits h sh
      → sh'.adders ≡ sh.adders
      → Leaves h sh (h', sh')
  unfolding Waits
  moved h h' sh sh' began l waits same = record {
    same_wallets = ap (configs e) same;
    still_late = l;
    still_waits = λ q. absurd (began (waits (sym same ∙ q)));
  }

  alone-Leaves :
      (h : Accept) (sh : Shared e) (r : Outcome Accept)
      → (h.main ≡ waits_start → ⊥)
      → late h.main ≡ false
      → Waits h sh
      → Ends (Leaves h sh) (alone e user_id sh r)
  unfolding alone Ends
  alone-Leaves h sh (ok h') began early waits =
      moved h h' sh sh began (λ l. cc (l, early)) waits refl
  alone-Leaves h sh (err x) began early waits = tt
  alone-Leaves h sh panic began early waits = tt

  stored-Leaves :
      (h : Accept) (sh : Shared e) (r : Outcome (Db × e.crypto.Random))
      → (h.main ≡ waits_start → ⊥)
      → late h.main ≡ false
      → Waits h sh
      → Ends (Leaves h sh) (stored e user_id h (record sh { useragent_ch = none }) r)
  unfolding stored Ends
  stored-Leaves h sh (ok r) began early waits = moved h _ sh _ began (λ l. cc (l, early)) waits refl
  stored-Leaves h sh (err x) began early waits =
      moved h _ sh _ began (λ l. cc (l, early)) waits refl
  stored-Leaves h sh panic began early waits = tt

  adds_peer-Leaves :
      (h : Accept) (sh : Shared e) (result : DkgResult) (c : Option Str)
      → (h.main ≡ waits_start → ⊥)
      → late h.main ≡ false
      → Waits h sh
      → Ends (Leaves h sh) (adds_peer e user_id h sh result c)
  unfolding adds_peer Ends
  adds_peer-Leaves h sh result none began early waits = unmoved h sh waits
  adds_peer-Leaves h sh result (some user_agent) began early waits =
      stored-Leaves h sh _ began early waits

  take_new_done-Leaves :
      (c : Bool) (h : Accept) (sh : Shared e)
      → (h.main ≡ waits_start → ⊥)
      → late h.main ≡ false
      → Waits h sh
      → Leaves h sh (take_new_done e user_id c h sh)
  unfolding take_new_done
  take_new_done-Leaves true h sh began early waits =
      moved h _ sh _ began (λ l. cc (l, early)) waits refl
  take_new_done-Leaves false h sh began early waits = unmoved h sh waits

  waits_done-Leaves :
      (b : Bool) (h : Accept) (sh : Shared e)
      → (h.main ≡ waits_start → ⊥)
      → Waits h sh
      → Leaves h sh (if b then record h { main = finished; cancelled = true } else h, sh)
  unfolding late
  waits_done-Leaves true h sh began waits = moved h _ sh sh began (λ l. refl) waits refl
  waits_done-Leaves false h sh began waits = unmoved h sh waits

  main_turn-Leaves :
      (m : Main) (h : Accept) (sh : Shared e) (write : Outcome (Unit {0}))
      → h.main ≡ m
      → Waits h sh
      → Ends (Leaves h sh) (main_turn e user_id m h sh write)
  unfolding main_turn Ends late
  main_turn-Leaves waits_start h sh write here waits = unmoved h sh waits
  main_turn-Leaves (processes original) h sh write here waits =
      alone-Leaves h sh _ (λ q. cc (here, q)) (ap late here) waits
  main_turn-Leaves (awaits_useragent result) h sh write here waits =
      adds_peer-Leaves h sh result sh.useragent_ch (λ q. cc (here, q)) (ap late here) waits
  main_turn-Leaves waits_tss h sh write here waits =
      if-Ends (Leaves h sh) (is_done e (points_to h.adder sh.adders)) _ _
        (alone-Leaves h sh _ (λ q. cc (here, q)) (ap late here) waits) (unmoved h sh waits)
  main_turn-Leaves awaits_new_done h sh write here waits =
      take_new_done-Leaves sh.new_device_done_ch h sh (λ q. cc (here, q)) (ap late here) waits
  main_turn-Leaves sends_done h sh write here waits =
      alone-Leaves h sh _ (λ q. cc (here, q)) (ap late here) waits
  main_turn-Leaves waits_done h sh write here waits =
      waits_done-Leaves h.server_done h sh (λ q. cc (here, q)) waits
  main_turn-Leaves finished h sh write here waits = unmoved h sh waits
  main_turn-Leaves failed h sh write here waits = unmoved h sh waits
  main_turn-Leaves blocked h sh write here waits = unmoved h sh waits

  points_nowhere :
      (k : Option ℕ) (ps : List (Adder e)) (p : Adder e) → points_to k ps ≡ some p → ps ≡ [] → ⊥
  unfolding points_to at_place
  points_nowhere none ps p found none_yet = cc found
  points_nowhere (some n) [] p found none_yet = cc found
  points_nowhere (some n) (q ∷ ps) p found none_yet = cc none_yet

  started-Leaves :
      (q : Option (Adder e)) (h : Accept) (sh : Shared e)
      → points_to h.adder sh.adders ≡ q
      → late h.main ≡ false
      → Ends (Leaves h sh) (alone e user_id sh (started e user_id q h))
  unfolding started alone Ends Waits
  started-Leaves none h sh found early = tt
  started-Leaves (some p) h sh found early = record {
    same_wallets = refl;
    still_late = λ l. cc (l, early);
    still_waits = λ q. absurd (points_nowhere h.adder sh.adders p found q);
  }

  pub accept_turn-Leaves :
      (h : Accept) (sh : Shared e) (t : Turn)
      → Waits h sh
      → Ends (Leaves h sh) (accept_turn e user_id h sh t)
  unfolding accept_turn late
  accept_turn-Leaves h sh t waits =
      by_turn (λ t. Ends (Leaves h sh) (accept_turn e user_id h sh t))
        (rendezvous-Ends e user_id (Leaves h sh) h.reader h.main h sh (unmoved h sh waits)
          (λ here. started-Leaves _ h sh refl (ap late here)))
        (λ write. main_turn-Leaves h.main h sh write refl waits)
        (λ t o. Ends-Leaves _ h sh _ (accept_turn-Keeps e user_id h sh t o) waits) t
