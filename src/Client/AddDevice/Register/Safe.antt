-- ===== src/Client/AddDevice/Register/Safe.antt =====
-- What the goroutines of RegisterDevice keep: what has been read, and what the process gave (client/tss_add.go).
use meemaw.Prelude.{
  ◌≡◌, refl, sym, transport, ◌∙◌, ◌⊎◌, inl, inr, Bool, Bool-cases, true, false, ◌||◌, List, [], ◌∷◌,
  Option, none, some, Str, ltb, if◌then◌else◌, Outcome, ok, err, panic, Ends, if-Ends, GoError,
  Dict,
}
use meemaw.Tss.Wallet.{DkgResult, PubkeyStr, Bk}
use meemaw.Tss.Actors.{Party}
use meemaw.Tss.Actors.Adder.{AddNewConfig, client_add_process}
use meemaw.Ws.{WsMessage, unexpected}
use meemaw.Ws.Endpoint.{
  Reader, reading, inside, returned, Sender, not_started, polling, stopped, reads, reader_fails,
  writes, unless_past, while_reading, ends_sending,
}
use meemaw.Client.AddDevice.{Setting}
use meemaw.Client.AddDevice.Aside.{Aside, reads_tss-Aside}
use meemaw.Client.AddDevice.Register.{
  processes, Inside, names_device, offers_start, stores, answers, Main, checks, waits_done,
  finished, finished_empty, Case, peer_id_case, pubkey_case, tss_case, metadata_case, done_case,
  default_case, case_of, Register, made, with_wallet, on_message, read_message, go_on, Event, turns,
}

pub is_done_case : Case → Bool
is_done_case done_case = true
is_done_case _ = false

-- Whether the event is the read of an ExistingDeviceDoneMessage.
unfoldable pub is_done : {e : Setting} → Event e → Bool
unfolding is_done_case case_of
is_done (turns (reads msg)) = is_done_case (case_of msg.msg_type)
is_done _ = false

unfoldable pub reads_done : {e : Setting} → List (Event e) → Bool
unfolding is_done
reads_done [] = false
reads_done (x ∷ xs) = let rest = reads_done xs in is_done x || rest

pub given_by : Case → Str → Option Str
given_by metadata_case metadata = some metadata
given_by _ metadata = none

-- The metadata that the event reads.
unfoldable pub given : {e : Setting} → Event e → Option Str
unfolding given_by case_of
given (turns (reads msg)) = given_by (case_of msg.msg_type) msg.msg
given _ = none

-- The metadata is in one of the messages that are read.
unfoldable pub IsGiven : {e : Setting} → List (Event e) → Str → Type 0
unfolding given
IsGiven [] metadata = ⊥
IsGiven (x ∷ xs) metadata = (given x ≡ some metadata) ⊎ IsGiven xs metadata

-- `R` holds of the states that the run has gone through.
module _ (e : Setting) (R : Register e → Type 0) where
  -- Where the call waited for the process of its adder, this had given the result.
  unfoldable pub Comes : DkgResult → Type 0
  Comes result =
      (h : Register e) × R h
      × (h.main ≡ processes)
      × (p : Party AddNewConfig e.lib) × (h.adder ≡ some p)
      × (client_add_process e.a e.lib e.al p ≡ some (ok result))

  -- Where the call waited for the process of its adder, this had failed.
  unfoldable pub Fails : Type 0
  Fails =
      (h : Register e) × R h
      × (h.main ≡ processes)
      × (p : Party AddNewConfig e.lib) × (h.adder ≡ some p)
      × (x : GoError) × (client_add_process e.a e.lib e.al p ≡ some (err x))

pub later : (a b : Bool) → b ≡ true → (a || b) ≡ true
later true b h = refl
later false b h = h

-- `P` follows from the message of the existing device's end, and `K` holds of what metadata messages bring.
module _ (e : Setting) (peer_id device : Str) (P : Type 0) (K : Str → Type 0)
    (R : Register e → Type 0) where
  open e use {a, lib, al}

  unfoldable pub At : Main → Type 0
  At (checks result) = Comes e R result
  At (waits_done result) = Comes e R result
  At (finished result metadata) = Comes e R result × P × K metadata
  At finished_empty = Fails e R
  At _ = Unit

  pub record Safe (h : Register e) : Type 0 where
    pub at : At h.main
    pub closed : h.server_done ≡ true → P
    pub brought : K h.metadata

  pub keeps :
      (h h' : Register e)
      → h'.main ≡ h.main
      → h'.server_done ≡ h.server_done
      → h'.metadata ≡ h.metadata
      → Safe h
      → Safe h'
  keeps h h' m d k safe = record {
    at = transport (λ i. At (sym m i)) safe.at;
    closed = λ q. safe.closed (sym d ∙ q);
    brought = transport (λ i. K (sym k i)) safe.brought;
  }

  pub Ends-Safe :
      (h : Register e) (r : Outcome (Register e)) → Ends (Aside e h) r → Safe h → Ends Safe r
  unfolding Ends
  Ends-Safe h (ok h') s safe = keeps h h' s.same_main s.same_done s.same_metadata safe
  Ends-Safe h (err x) s safe = tt
  Ends-Safe h panic s safe = tt

  writes-Safe :
      (h : Register e) (msg : WsMessage) (next : Reader Inside) (write : Outcome (Unit {0}))
      → Safe h
      → Ends Safe (writes h msg next write)
  unfolding writes reader_fails Ends
  writes-Safe h msg next (ok u) safe = keeps h _ refl refl refl safe
  writes-Safe h msg next (err x) safe = keeps h _ refl refl refl safe
  writes-Safe h msg next panic safe = tt

  made-Safe :
      (h : Register e) (r : Outcome (Party AddNewConfig lib))
      → Safe h
      → Ends Safe (made e peer_id device h r)
  unfolding made reader_fails Ends
  made-Safe h (ok p) safe = keeps h _ refl refl refl safe
  made-Safe h (err x) safe = keeps h _ refl refl refl safe
  made-Safe h panic safe = tt

  with_wallet-Safe :
      (h : Register e) (r : Outcome (PubkeyStr × Dict Bk))
      → Safe h
      → Ends Safe (with_wallet e peer_id device h r)
  unfolding with_wallet reader_fails Ends
  with_wallet-Safe h (ok (pubkey, bks)) safe = made-Safe h _ safe
  with_wallet-Safe h (err x) safe = keeps h _ refl refl refl safe
  with_wallet-Safe h panic safe = tt

  -- `close(serverDone)`.
  closes-Safe :
      (b : Bool) (h : Register e)
      → P
      → Safe h
      → Ends Safe (if b then panic else ok (record h { server_done = true }))
  unfolding Ends
  closes-Safe true h p safe = tt
  closes-Safe false h p safe = record { at = safe.at; closed = λ q. p; brought = safe.brought }

  unless_past-Safe :
      (h h' : Register e) (msg : WsMessage) → Safe h → Safe h' → Safe (unless_past msg h h')
  unfolding unless_past
  unless_past-Safe h h' msg safe safe' = elim (Bool-cases (ltb msg.msg_type.msg_stage h.stage)) [
    | inl past ↦ rw past safe
    | inr now ↦ rw now safe'
  ]

  on_message-Safe :
      (k : Case) (h : Register e) (msg : WsMessage)
      → (is_done_case k ≡ true → P)
      → ((metadata : Str) → given_by k msg.msg ≡ some metadata → K metadata)
      → Safe h
      → Ends Safe (on_message e peer_id device k h msg)
  unfolding on_message Ends is_done_case given_by unless_past
  on_message-Safe peer_id_case h msg p k safe =
      unless_past-Safe h _ msg safe (keeps h _ refl refl refl safe)
  on_message-Safe pubkey_case h msg p k safe = with_wallet-Safe h _ safe
  on_message-Safe tss_case h msg p k safe = Ends-Safe h _ (reads_tss-Aside e h msg) safe
  on_message-Safe metadata_case h msg p k safe = record {
    at = safe.at;
    closed = safe.closed;
    brought = k msg.msg refl;
  }
  on_message-Safe done_case h msg p k safe =
      if-Ends Safe (ltb msg.msg_type.msg_stage h.stage) _ _ safe
        (closes-Safe h.server_done h (p refl) safe)
  on_message-Safe default_case h msg p k safe = keeps h _ refl refl refl safe

  pub read_message-Safe :
      (r : Reader Inside) (h : Register e) (msg : WsMessage)
      → (is_done_case (case_of msg.msg_type) ≡ true → P)
      → ((metadata : Str) → given_by (case_of msg.msg_type) msg.msg ≡ some metadata → K metadata)
      → Safe h
      → Ends Safe (read_message e peer_id device r h msg)
  unfolding read_message Ends
  read_message-Safe reading h msg p k safe = on_message-Safe (case_of msg.msg_type) h msg p k safe
  read_message-Safe (inside x) h msg p k safe = safe
  read_message-Safe returned h msg p k safe = safe

  pub go_on-Safe :
      (r : Reader Inside) (h : Register e) (write : Outcome (Unit {0}))
      → Safe h
      → Ends Safe (go_on e peer_id device r h write)
  unfolding go_on Ends
  go_on-Safe (inside names_device) h write safe = writes-Safe h _ reading write safe
  go_on-Safe (inside offers_start) h write safe = safe
  go_on-Safe (inside stores) h write safe = writes-Safe h _ reading write safe
  go_on-Safe (inside answers) h write safe = writes-Safe h unexpected reading write safe
  go_on-Safe reading h write safe = safe
  go_on-Safe returned h write safe = safe

  pub while_reading-Safe :
      (r : Reader Inside) (h h' : Register e)
      → Safe h
      → Safe h'
      → Ends Safe (while_reading r h (ok h'))
  unfolding while_reading Ends
  while_reading-Safe reading h h' safe safe' = safe'
  while_reading-Safe (inside x) h h' safe safe' = safe
  while_reading-Safe returned h h' safe safe' = safe

  pub ends_sending-Safe : (g : Sender) (h : Register e) → Safe h → Safe (ends_sending g h)
  unfolding ends_sending
  ends_sending-Safe polling h safe = keeps h _ refl refl refl safe
  ends_sending-Safe not_started h safe = safe
  ends_sending-Safe stopped h safe = safe
