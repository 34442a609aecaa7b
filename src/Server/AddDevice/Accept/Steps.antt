-- ===== src/Server/AddDevice/Accept/Steps.antt =====
-- What the other goroutines leave to AcceptDeviceHandler itself (server/tss_add.go).
use meemaw.Prelude.{
  ◌≡◌, refl, ap, sym, ◌∙◌, ◌⊎◌, Bool-cases, inl, inr, Bool, true, false, List, Option, none, some,
  Str, str, str_eq, ltb, Outcome, ok, err, panic, Ends, if-Ends, ℕ,
}
use meemaw.Ws.{WsMessage, new_device_done_message, unexpected, same_type}
use meemaw.Ws.Written.{has_written, has_written-snoc, has_written-tss}
use meemaw.Ws.Endpoint.{
  Reader, reading, inside, returned, Sender, not_started, polling, stopped, Turn, reads, read_ends,
  ends, cancels, starts, read_fails, goes, polls, runs, reader_fails, writes, unless_past,
  while_reading, ends_sending,
}
use meemaw.Server.AddDevice.Shared.{Setting, Shared}
use meemaw.Server.AddDevice.Shared.Aside.{configs, Aside, reads_tss-Aside, polls_adder-Aside}
use meemaw.Server.AddDevice.Accept.{
  Inside, offers_peer_id, awaits_peer_id, broadcasts, offers_metadata, awaits_adder, acks,
  offers_start, sets_stage, offers_tss_done, offers_done, answers, Accept, Case, peer_id_case,
  metadata_case, tss_case, tss_done_case, done_case, default_case, case_of, on_message, goes_on,
  accept_turn, alone, offer_peer_id, take_peer_id, offer_metadata, take_adder, offer_tss_done,
  offer_done, go_on, read_message,
}
use meemaw.Server.AddDevice.Accept.Meeting.{OfOthers}

-- Whether the last message to the device is among those that were written.
abbrev pub told : List WsMessage → Bool
told = has_written new_device_done_message

unfoldable pub offers : Reader Inside → Bool
offers (inside offers_done) = true
offers _ = false

unfoldable is_done_case : Case → Bool
is_done_case done_case = true
is_done_case _ = false

-- The device's last message is read.
unfoldable pub finishing : Turn → Bool
unfolding case_of is_done_case
finishing (reads msg) = is_done_case (case_of msg.msg_type)
finishing _ = false

module _ (e : Setting) where
  -- The handler itself and the database are left alone; `f` says that the device's last message was read.
  pub record Keeps (f : Bool) (h : Accept) (sh : Shared e) (r : Accept × Shared e) : Type 0 where
    pub same_main : r.0.main ≡ h.main
    pub same_db : r.1.db ≡ sh.db
    pub same_random : r.1.random ≡ sh.random
    pub same_configs : configs e r.1.adders ≡ configs e sh.adders
    pub same_told : told r.0.written ≡ told h.written
    pub offered : offers r.0.reader ≡ true → (offers h.reader ≡ true) ⊎ (f ≡ true)
    pub passed_on :
        r.1.existing_device_done_ch ≡ true
        → (sh.existing_device_done_ch ≡ true) ⊎ (offers h.reader ≡ true)

  -- The reading goroutine goes elsewhere, and channels change.
  moves :
      (f : Bool) (h h' : Accept) (sh sh' : Shared e)
      → h'.main ≡ h.main
      → sh'.db ≡ sh.db
      → sh'.random ≡ sh.random
      → sh'.adders ≡ sh.adders
      → h'.written ≡ h.written
      → sh'.existing_device_done_ch ≡ sh.existing_device_done_ch
      → (offers h'.reader ≡ true → (offers h.reader ≡ true) ⊎ (f ≡ true))
      → Keeps f h sh (h', sh')
  moves f h h' sh sh' m d r a w c o = record {
    same_main = m;
    same_db = d;
    same_random = r;
    same_configs = ap (configs e) a;
    same_told = ap told w;
    offered = o;
    passed_on = λ q. inl (sym c ∙ q);
  }

  stays : (f : Bool) (h : Accept) (sh : Shared e) → Keeps f h sh (h, sh)
  stays f h sh = moves f h h sh sh refl refl refl refl refl refl (λ q. inl q)

  offers-Aside :
      (r r' : Reader Inside) → (r' ≡ r) ⊎ (r' ≡ returned) → offers r' ≡ true → offers r ≡ true
  unfolding offers
  offers-Aside r r' (inl same) o = sym (ap offers same) ∙ o
  offers-Aside r r' (inr gone) o = cc (sym (ap offers gone) ∙ o)

  Aside-Keeps :
      (f : Bool) (h : Accept) (sh : Shared e) (r : Accept × Shared e)
      → Aside e h sh r
      → Keeps f h sh r
  unfolding same_type str_eq str
  Aside-Keeps f h sh (h', sh') aside = record {
    same_main = aside.same_main;
    same_db = ap (λ (t : Shared e). t.db) aside.served.the_rest;
    same_random = ap (λ (t : Shared e). t.random) aside.served.the_rest;
    same_configs = aside.served.same_configs;
    same_told = has_written-tss _ h.written h'.written refl aside.written;
    offered = λ q. inl (offers-Aside h.reader h'.reader aside.reader q);
    passed_on =
        λ q. inl (sym (ap (λ (t : Shared e). t.existing_device_done_ch) aside.served.the_rest) ∙ q);
  }

  Ends-Aside-Keeps :
      (f : Bool) (h : Accept) (sh : Shared e) (r : Outcome (Accept × Shared e))
      → Ends (Aside e h sh) r
      → Ends (Keeps f h sh) r
  unfolding Ends
  Ends-Aside-Keeps f h sh (ok r) aside = Aside-Keeps f h sh r aside
  Ends-Aside-Keeps f h sh (err x) aside = tt
  Ends-Aside-Keeps f h sh panic aside = tt

  unless_past-Keeps :
      (f : Bool) (h h' : Accept) (sh : Shared e) (msg : WsMessage)
      → Keeps f h sh (h', sh)
      → Keeps f h sh (unless_past msg h h', sh)
  unfolding unless_past
  unless_past-Keeps f h h' sh msg kept = elim (Bool-cases (ltb msg.msg_type.msg_stage h.stage)) [
    | inl past ↦ rw past (stays f h sh)
    | inr now ↦ rw now kept
  ]

  module _ (user_id : Str) where
    writes-Keeps :
        (f : Bool) (h : Accept) (sh : Shared e) (msg : WsMessage) (next : Reader Inside)
        (write : Outcome (Unit {0}))
        → same_type msg.msg_type new_device_done_message ≡ false
        → offers next ≡ false
        → Ends (Keeps f h sh) (alone e user_id sh (writes h msg next write))
    unfolding Ends alone writes reader_fails offers
    writes-Keeps f h sh msg next (ok u) other o = record {
      same_main = refl;
      same_db = refl;
      same_random = refl;
      same_configs = refl;
      same_told = has_written-snoc _ h.written msg other;
      offered = λ q. cc (q, o);
      passed_on = λ q. inl q;
    }
    writes-Keeps f h sh msg next (err x) other o =
        moves f h _ sh sh refl refl refl refl refl refl (λ q. cc q)
    writes-Keeps f h sh msg next panic other o = tt

    -- The case of the last message may begin only where it was read.
    Finishing : Case → Bool → Type 0
    Finishing done_case f = f ≡ true
    Finishing _ f = Unit

    on_message-Keeps :
        (k : Case) (f : Bool) (h : Accept) (sh : Shared e) (msg : WsMessage)
        → Finishing k f
        → Ends (Keeps f h sh) (on_message e user_id k h sh msg)
    unfolding Ends on_message offers Finishing
    on_message-Keeps peer_id_case f h sh msg fin =
        unless_past-Keeps f h _ sh msg (moves f h _ sh sh refl refl refl refl refl refl (λ q. cc q))
    on_message-Keeps metadata_case f h sh msg fin =
        unless_past-Keeps f h _ sh msg (moves f h _ sh sh refl refl refl refl refl refl (λ q. cc q))
    on_message-Keeps tss_case f h sh msg fin =
        if-Ends (Keeps f h sh) (ltb msg.msg_type.msg_stage h.stage) _ _ (stays f h sh)
          (Ends-Aside-Keeps f h sh _ (reads_tss-Aside e h sh msg.msg))
    on_message-Keeps tss_done_case f h sh msg fin =
        unless_past-Keeps f h _ sh msg (moves f h _ sh sh refl refl refl refl refl refl (λ q. cc q))
    on_message-Keeps done_case f h sh msg fin =
        unless_past-Keeps f h _ sh msg
          (moves f h _ sh sh refl refl refl refl refl refl (λ q. inr fin))
    on_message-Keeps default_case f h sh msg fin =
        moves f h _ sh sh refl refl refl refl refl refl (λ q. cc q)

    offer_peer_id-Keeps :
        (c : Option Str) (f : Bool) (h : Accept) (sh : Shared e)
        → Keeps f h sh (offer_peer_id e user_id c h sh)
    unfolding offer_peer_id offers
    offer_peer_id-Keeps none f h sh = moves f h _ sh _ refl refl refl refl refl refl (λ q. cc q)
    offer_peer_id-Keeps (some x) f h sh = stays f h sh

    take_peer_id-Keeps :
        (c : Option Str) (f : Bool) (h : Accept) (sh : Shared e)
        → Keeps f h sh (take_peer_id e user_id c h sh)
    unfolding take_peer_id offers
    take_peer_id-Keeps none f h sh = stays f h sh
    take_peer_id-Keeps (some x) f h sh = moves f h _ sh _ refl refl refl refl refl refl (λ q. cc q)

    offer_metadata-Keeps :
        (c : Option Str) (f : Bool) (h : Accept) (sh : Shared e)
        → Keeps f h sh (offer_metadata e user_id c h sh)
    unfolding offer_metadata offers
    offer_metadata-Keeps none f h sh = moves f h _ sh _ refl refl refl refl refl refl (λ q. cc q)
    offer_metadata-Keeps (some x) f h sh = stays f h sh

    take_adder-Keeps :
        (c : Option ℕ) (f : Bool) (h : Accept) (sh : Shared e)
        → Keeps f h sh (take_adder e user_id c h sh)
    unfolding take_adder offers
    take_adder-Keeps none f h sh = stays f h sh
    take_adder-Keeps (some n) f h sh = moves f h _ sh _ refl refl refl refl refl refl (λ q. cc q)

    offer_tss_done-Keeps :
        (c f : Bool) (h : Accept) (sh : Shared e) → Keeps f h sh (offer_tss_done e user_id c h sh)
    unfolding offer_tss_done offers
    offer_tss_done-Keeps false f h sh = moves f h _ sh _ refl refl refl refl refl refl (λ q. cc q)
    offer_tss_done-Keeps true f h sh = stays f h sh

    offer_done-Keeps :
        (c f : Bool) (h : Accept) (sh : Shared e)
        → offers h.reader ≡ true
        → Ends (Keeps f h sh) (offer_done e user_id c h sh)
    unfolding offer_done Ends offers
    offer_done-Keeps false f h sh o = if-Ends (Keeps f h sh) h.server_done _ _ tt (record {
      same_main = refl;
      same_db = refl;
      same_random = refl;
      same_configs = refl;
      same_told = refl;
      offered = λ q. cc q;
      passed_on = λ q. inr o;
    })
    offer_done-Keeps true f h sh o = stays f h sh

    goes_on-Keeps :
        (p : Inside) (f : Bool) (h : Accept) (sh : Shared e) (write : Outcome (Unit {0}))
        → offers (inside p) ≡ offers h.reader
        → Ends (Keeps f h sh) (goes_on e user_id p h sh write)
    unfolding goes_on Ends offers same_type str_eq str
    goes_on-Keeps offers_peer_id f h sh write o =
        offer_peer_id-Keeps sh.existing_client_peer_id_ch f h sh
    goes_on-Keeps awaits_peer_id f h sh write o = take_peer_id-Keeps sh.new_client_peer_id_ch f h sh
    goes_on-Keeps broadcasts f h sh write o = writes-Keeps f h sh _ reading write refl refl
    goes_on-Keeps offers_metadata f h sh write o = offer_metadata-Keeps sh.metadata_ch f h sh
    goes_on-Keeps awaits_adder f h sh write o = take_adder-Keeps sh.adder_ch f h sh
    goes_on-Keeps acks f h sh write o = writes-Keeps f h sh _ (inside offers_start) write refl refl
    goes_on-Keeps offers_start f h sh write o = stays f h sh
    goes_on-Keeps sets_stage f h sh write o =
        moves f h _ sh sh refl refl refl refl refl refl (λ q. cc q)
    goes_on-Keeps offers_tss_done f h sh write o =
        offer_tss_done-Keeps sh.existing_device_tss_done_ch f h sh
    goes_on-Keeps offers_done f h sh write o =
        offer_done-Keeps sh.existing_device_done_ch f h sh (sym o)
    goes_on-Keeps answers f h sh write o = writes-Keeps f h sh unexpected reading write refl refl

    go_on-Keeps :
        (r : Reader Inside) (f : Bool) (h : Accept) (sh : Shared e) (write : Outcome (Unit {0}))
        → h.reader ≡ r
        → Ends (Keeps f h sh) (go_on e user_id r h sh write)
    unfolding go_on Ends
    go_on-Keeps (inside p) f h sh write same = goes_on-Keeps p f h sh write (sym (ap offers same))
    go_on-Keeps reading f h sh write same = stays f h sh
    go_on-Keeps returned f h sh write same = stays f h sh

    read_message-Keeps :
        (r : Reader Inside) (f : Bool) (h : Accept) (sh : Shared e) (msg : WsMessage)
        → Finishing (case_of msg.msg_type) f
        → Ends (Keeps f h sh) (read_message e user_id r h sh msg)
    unfolding read_message Ends
    read_message-Keeps reading f h sh msg fin =
        on_message-Keeps (case_of msg.msg_type) f h sh msg fin
    read_message-Keeps (inside p) f h sh msg fin = stays f h sh
    read_message-Keeps returned f h sh msg fin = stays f h sh

    while_reading-Keeps :
        (r : Reader Inside) (f : Bool) (h h' : Accept) (sh : Shared e)
        → Keeps f h sh (h', sh)
        → Ends (Keeps f h sh) (alone e user_id sh (while_reading r h (ok h')))
    unfolding while_reading alone Ends
    while_reading-Keeps reading f h h' sh kept = kept
    while_reading-Keeps (inside p) f h h' sh kept = stays f h sh
    while_reading-Keeps returned f h h' sh kept = stays f h sh

    ends_sending-Keeps :
        (g : Sender) (f : Bool) (h : Accept) (sh : Shared e) → Keeps f h sh (ends_sending g h, sh)
    unfolding ends_sending
    ends_sending-Keeps polling f h sh = moves f h _ sh sh refl refl refl refl refl refl (λ q. inl q)
    ends_sending-Keeps not_started f h sh = stays f h sh
    ends_sending-Keeps stopped f h sh = stays f h sh

    done_case-Finishing : (k : Case) → Finishing k (is_done_case k)
    unfolding Finishing is_done_case
    done_case-Finishing peer_id_case = tt
    done_case-Finishing metadata_case = tt
    done_case-Finishing tss_case = tt
    done_case-Finishing tss_done_case = tt
    done_case-Finishing done_case = refl
    done_case-Finishing default_case = tt

    -- All turns but those of the handler itself.
    pub accept_turn-Keeps :
        (h : Accept) (sh : Shared e) (t : Turn)
        → OfOthers t
        → Ends (Keeps (finishing t) h sh) (accept_turn e user_id h sh t)
    unfolding accept_turn OfOthers finishing Ends alone reader_fails offers
    accept_turn-Keeps h sh (reads msg) o =
        read_message-Keeps h.reader _ h sh msg (done_case-Finishing (case_of msg.msg_type))
    accept_turn-Keeps h sh read_ends o =
        while_reading-Keeps h.reader false h _ sh
          (moves false h _ sh sh refl refl refl refl refl refl (λ q. cc q))
    accept_turn-Keeps h sh (read_fails x) o =
        while_reading-Keeps h.reader false h _ sh
          (moves false h _ sh sh refl refl refl refl refl refl (λ q. cc q))
    accept_turn-Keeps h sh (goes write) o = go_on-Keeps h.reader false h sh write refl
    accept_turn-Keeps h sh starts o = absurd o
    accept_turn-Keeps h sh (polls write) o =
        Ends-Aside-Keeps false h sh _
          (polls_adder-Aside e h sh h.existing_client_peer_id h.adder _ write refl)
    accept_turn-Keeps h sh ends o = ends_sending-Keeps h.sender false h sh
    accept_turn-Keeps h sh cancels o =
        moves false h _ sh sh refl refl refl refl refl refl (λ q. inl q)
    accept_turn-Keeps h sh (runs write) o = absurd o
