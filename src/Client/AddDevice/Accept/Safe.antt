-- ===== src/Client/AddDevice/Accept/Safe.antt =====
-- What the goroutines of AcceptDevice keep: what was read before the last message was sent (client/tss_add.go).
use meemaw.Prelude.{
  ◌≡◌, refl, ap, sym, transport, ◌∙◌, ◌⊎◌, inl, inr, Bool, Bool-cases, true, false, ◌||◌, List, [],
  ◌∷◌, some, Str, str, str_eq, ltb, Outcome, ok, err, panic, Ends, if-Ends, GoError,
}
use meemaw.Tss.Wallet.{DkgResult}
use meemaw.Tss.Actors.{Party}
use meemaw.Tss.Actors.Adder.{AddExistingConfig, existing_client_add_process}
use meemaw.Ws.{WsMessage, existing_device_done_message, same_type}
use meemaw.Ws.Written.{has_written, has_written-snoc, has_written-tss, has_written-here}
use meemaw.Ws.Endpoint.{
  Reader, reading, inside, returned, Sender, not_started, polling, stopped, reads, reader_fails,
  writes, unless_past, while_reading, ends_sending,
}
use meemaw.Client.AddDevice.{Setting}
use meemaw.Client.AddDevice.Aside.{Aside, reads_tss-Aside}
use meemaw.Client.AddDevice.Accept.{
  Inside, sends_metadata, offers_start, sends_done, answers, Main, waits_start, processes, checks,
  sends_tss_done, waits_done, finished, gave_up, blocked, failed, Case, peer_id_case,
  metadata_ack_case, tss_case, new_done_case, default_case, case_of, Accept, made, on_message,
  read_message, done_sent, go_on, Event, turns,
}

pub is_new_done_case : Case → Bool
is_new_done_case new_done_case = true
is_new_done_case _ = false

-- Whether the event is the read of a NewDeviceDoneMessage.
unfoldable pub is_new_done : {e : Setting} → Event e → Bool
unfolding is_new_done_case case_of
is_new_done (turns (reads msg)) = is_new_done_case (case_of msg.msg_type)
is_new_done _ = false

unfoldable pub reads_new_done : {e : Setting} → List (Event e) → Bool
unfolding is_new_done
reads_new_done [] = false
reads_new_done (x ∷ xs) = let rest = reads_new_done xs in is_new_done x || rest

abbrev pub told : List WsMessage → Bool
told = has_written existing_device_done_message

unfoldable pub at_done : Reader Inside → Bool
at_done (inside sends_done) = true
at_done _ = false

-- `R` holds of the states that the run has gone through.
module _ (e : Setting) (R : Accept e → Type 0) where
  -- Where the call waited for the process of its adder, this had failed.
  unfoldable pub Fails : Type 0
  Fails =
      (h : Accept e) × R h
      × (h.main ≡ processes)
      × (p : Party AddExistingConfig e.lib) × (h.adder ≡ some p)
      × (x : GoError) × (existing_client_add_process e.a e.lib e.al p ≡ some (err x))

pub later : (a b : Bool) → b ≡ true → (a || b) ≡ true
later true b h = refl
later false b h = h

module _ (e : Setting) (wallet : DkgResult) (metadata : Str) (P : Type 0)
    (R : Accept e → Type 0) where
  open e use {a, lib, al}

  unfoldable pub At : Main → Bool → Type 0
  At finished done = done ≡ true
  At gave_up done = Fails e R
  At _ done = Unit

  -- `P` follows from the message of the new device's end.
  pub record Safe (h : Accept e) : Type 0 where
    pub read_before : at_done h.reader ≡ true → P
    pub told_before : told h.written ≡ true → P
    pub closed_before : h.server_done ≡ true → told h.written ≡ true
    pub at : At h.main h.server_done

  pub moves :
      (h h' : Accept e)
      → Safe h
      → h'.main ≡ h.main
      → h'.server_done ≡ h.server_done
      → told h'.written ≡ told h.written
      → (at_done h'.reader ≡ true → P)
      → Safe h'
  moves h h' safe m d w r = record {
    read_before = r;
    told_before = λ q. safe.told_before (sym w ∙ q);
    closed_before = λ q. w ∙ safe.closed_before (sym d ∙ q);
    at = transport (λ i. At (sym m i) (sym d i)) safe.at;
  }

  at_done-Aside :
      (r r' : Reader Inside) → (r' ≡ r) ⊎ (r' ≡ returned) → at_done r' ≡ true → at_done r ≡ true
  unfolding at_done
  at_done-Aside r r' (inl same) q = sym (ap at_done same) ∙ q
  at_done-Aside r r' (inr gone) q = cc (sym (ap at_done gone) ∙ q)

  pub Aside-Safe : (h h' : Accept e) → Aside e h h' → Safe h → Safe h'
  unfolding same_type str_eq str
  Aside-Safe h h' aside safe =
      moves h h' safe aside.same_main aside.same_done
        (has_written-tss _ h.written h'.written refl aside.written)
        (λ q. safe.read_before (at_done-Aside h.reader h'.reader aside.reader q))

  pub Ends-Safe :
      (h : Accept e) (r : Outcome (Accept e)) → Ends (Aside e h) r → Safe h → Ends Safe r
  unfolding Ends
  Ends-Safe h (ok h') aside safe = Aside-Safe h h' aside safe
  Ends-Safe h (err x) aside safe = tt
  Ends-Safe h panic aside safe = tt

  writes-Safe :
      (h : Accept e) (msg : WsMessage) (next : Reader Inside) (write : Outcome (Unit {0}))
      → same_type msg.msg_type existing_device_done_message ≡ false
      → at_done next ≡ false
      → Safe h
      → Ends Safe (writes h msg next write)
  unfolding writes reader_fails Ends at_done
  writes-Safe h msg next (ok u) other early safe =
      moves h _ safe refl refl (has_written-snoc _ h.written msg other) (λ q. cc (q, early))
  writes-Safe h msg next (err x) other early safe = moves h _ safe refl refl refl (λ q. cc q)
  writes-Safe h msg next panic other early safe = tt

  made-Safe :
      (h : Accept e) (r : Outcome (Party AddExistingConfig lib))
      → Safe h
      → Ends Safe (made e wallet metadata h r)
  unfolding made reader_fails Ends at_done
  made-Safe h (ok p) safe = moves h _ safe refl refl refl (λ q. cc q)
  made-Safe h (err x) safe = moves h _ safe refl refl refl (λ q. cc q)
  made-Safe h panic safe = tt

  unless_past-Safe :
      (h h' : Accept e) (msg : WsMessage) → Safe h → Safe h' → Safe (unless_past msg h h')
  unfolding unless_past
  unless_past-Safe h h' msg safe safe' = elim (Bool-cases (ltb msg.msg_type.msg_stage h.stage)) [
    | inl past ↦ rw past safe
    | inr now ↦ rw now safe'
  ]

  on_message-Safe :
      (k : Case) (h : Accept e) (msg : WsMessage)
      → (is_new_done_case k ≡ true → P)
      → Safe h
      → Ends Safe (on_message e wallet metadata k h msg)
  unfolding on_message Ends at_done is_new_done_case
  on_message-Safe peer_id_case h msg p safe =
      unless_past-Safe h _ msg safe (moves h _ safe refl refl refl (λ q. cc q))
  on_message-Safe metadata_ack_case h msg p safe = made-Safe h _ safe
  on_message-Safe tss_case h msg p safe = Ends-Safe h _ (reads_tss-Aside e h msg) safe
  on_message-Safe new_done_case h msg p safe =
      unless_past-Safe h _ msg safe (moves h _ safe refl refl refl (λ q. p refl))
  on_message-Safe default_case h msg p safe = moves h _ safe refl refl refl (λ q. cc q)

  pub read_message-Safe :
      (r : Reader Inside) (h : Accept e) (msg : WsMessage)
      → (is_new_done_case (case_of msg.msg_type) ≡ true → P)
      → Safe h
      → Ends Safe (read_message e wallet metadata r h msg)
  unfolding read_message Ends
  read_message-Safe reading h msg p safe = on_message-Safe (case_of msg.msg_type) h msg p safe
  read_message-Safe (inside q) h msg p safe = safe
  read_message-Safe returned h msg p safe = safe

  closed_at : (m : Main) (done : Bool) → At m done → At m true
  unfolding At
  closed_at waits_start done at = tt
  closed_at processes done at = tt
  closed_at checks done at = tt
  closed_at sends_tss_done done at = tt
  closed_at waits_done done at = tt
  closed_at finished done at = refl
  closed_at gave_up done at = at
  closed_at blocked done at = tt
  closed_at (failed x) done at = tt

  done_sent-Safe :
      (h : Accept e) (write : Outcome (Unit {0}))
      → P
      → Safe h
      → Ends Safe (done_sent e wallet metadata h write)
  unfolding done_sent reader_fails Ends at_done same_type str_eq str
  done_sent-Safe h (ok u) p safe = if-Ends Safe h.server_done panic _ tt (record {
    read_before = λ q. cc q;
    told_before = λ q. p;
    closed_before = λ q. has_written-here _ h.written _ refl;
    at = closed_at h.main h.server_done safe.at;
  })
  done_sent-Safe h (err x) p safe = moves h _ safe refl refl refl (λ q. cc q)
  done_sent-Safe h panic p safe = tt

  pub go_on-Safe :
      (r : Reader Inside) (h : Accept e) (write : Outcome (Unit {0}))
      → h.reader ≡ r
      → Safe h
      → Ends Safe (go_on e wallet metadata r h write)
  unfolding go_on Ends at_done same_type str_eq str
  go_on-Safe (inside sends_metadata) h write here safe =
      writes-Safe h _ reading write refl refl safe
  go_on-Safe (inside offers_start) h write here safe = safe
  go_on-Safe (inside sends_done) h write here safe =
      done_sent-Safe h write (safe.read_before (ap at_done here)) safe
  go_on-Safe (inside answers) h write here safe = writes-Safe h _ reading write refl refl safe
  go_on-Safe reading h write here safe = safe
  go_on-Safe returned h write here safe = safe

  pub while_reading-Safe :
      (r : Reader Inside) (h h' : Accept e)
      → Safe h
      → Safe h'
      → Ends Safe (while_reading r h (ok h'))
  unfolding while_reading Ends
  while_reading-Safe reading h h' safe safe' = safe'
  while_reading-Safe (inside p) h h' safe safe' = safe
  while_reading-Safe returned h h' safe safe' = safe

  pub ends_sending-Safe : (g : Sender) (h : Accept e) → Safe h → Safe (ends_sending g h)
  unfolding ends_sending
  ends_sending-Safe polling h safe = moves h _ safe refl refl refl safe.read_before
  ends_sending-Safe not_started h safe = safe
  ends_sending-Safe stopped h safe = safe
