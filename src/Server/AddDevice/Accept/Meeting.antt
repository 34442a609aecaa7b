-- ===== src/Server/AddDevice/Accept/Meeting.antt =====
-- The turns of AcceptDeviceHandler, and where two of its goroutines meet (server/tss_add.go).
use meemaw.Prelude.{◌≡◌, refl, Str, Outcome, Ends}
use meemaw.Ws.Endpoint.{
  Reader, reading, inside, returned, Turn, reads, read_ends, ends, cancels, starts, read_fails,
  goes, polls, runs,
}
use meemaw.Server.AddDevice.Shared.{points_to, Setting, Shared}
use meemaw.Server.AddDevice.Accept.{
  Inside, offers_peer_id, awaits_peer_id, broadcasts, offers_metadata, awaits_adder, acks,
  offers_start, sets_stage, offers_tss_done, offers_done, answers, Main, waits_start, processes,
  awaits_useragent, waits_tss, awaits_new_done, sends_done, waits_done, finished, failed, blocked,
  Accept, rendezvous, started, alone,
}

-- The turns of the goroutines other than the handler itself, which `starts` sets going.
unfoldable pub OfOthers : Turn → Type 0
OfOthers (runs write) = ⊥
OfOthers starts = ⊥
OfOthers _ = Unit

-- A statement for every turn: for those two, and for the others.
pub by_turn :
    (B : Turn → Type 0)
    → B starts
    → ((write : Outcome (Unit {0})) → B (runs write))
    → ((t : Turn) → OfOthers t → B t)
    → (t : Turn) → B t
unfolding OfOthers
by_turn B s r o (reads msg) = o (reads msg) tt
by_turn B s r o read_ends = o read_ends tt
by_turn B s r o ends = o ends tt
by_turn B s r o cancels = o cancels tt
by_turn B s r o starts = s
by_turn B s r o (read_fails x) = o (read_fails x) tt
by_turn B s r o (goes write) = o (goes write) tt
by_turn B s r o (polls write) = o (polls write) tt
by_turn B s r o (runs write) = r write

module _ (e : Setting) (user_id : Str) (Q : Accept × Shared e → Type 0) where
  -- The two goroutines meet, or nothing happens.
  pub rendezvous-Ends :
      (r : Reader Inside) (m : Main) (h : Accept) (sh : Shared e)
      → Q (h, sh)
      → (m ≡ waits_start
          → Ends Q (alone e user_id sh (started e user_id (points_to h.adder sh.adders) h)))
      → Ends Q (alone e user_id sh (rendezvous e user_id r m h sh))
  unfolding rendezvous alone Ends
  rendezvous-Ends (inside offers_start) waits_start h sh same meet = meet refl
  rendezvous-Ends (inside offers_start) (processes o) h sh same meet = same
  rendezvous-Ends (inside offers_start) (awaits_useragent r) h sh same meet = same
  rendezvous-Ends (inside offers_start) waits_tss h sh same meet = same
  rendezvous-Ends (inside offers_start) awaits_new_done h sh same meet = same
  rendezvous-Ends (inside offers_start) sends_done h sh same meet = same
  rendezvous-Ends (inside offers_start) waits_done h sh same meet = same
  rendezvous-Ends (inside offers_start) finished h sh same meet = same
  rendezvous-Ends (inside offers_start) failed h sh same meet = same
  rendezvous-Ends (inside offers_start) blocked h sh same meet = same
  rendezvous-Ends (inside offers_peer_id) m h sh same meet = same
  rendezvous-Ends (inside awaits_peer_id) m h sh same meet = same
  rendezvous-Ends (inside broadcasts) m h sh same meet = same
  rendezvous-Ends (inside offers_metadata) m h sh same meet = same
  rendezvous-Ends (inside awaits_adder) m h sh same meet = same
  rendezvous-Ends (inside acks) m h sh same meet = same
  rendezvous-Ends (inside sets_stage) m h sh same meet = same
  rendezvous-Ends (inside offers_tss_done) m h sh same meet = same
  rendezvous-Ends (inside offers_done) m h sh same meet = same
  rendezvous-Ends (inside answers) m h sh same meet = same
  rendezvous-Ends reading m h sh same meet = same
  rendezvous-Ends returned m h sh same meet = same
