-- ===== src/Client/AddDevice/Aside.antt =====
-- What the goroutines of RegisterDevice and AcceptDevice do beside their protocol (client/tss_add.go).
use meemaw.Prelude.{
  ◌≡◌, refl, ◌⊎◌, inl, inr, ◌||◌, [], ◌∷◌, ◌++◌, Option, none, some, Str, ltb, Outcome, ok, err,
  panic, ◌>>=◌, Ends, if-Ends, Ends->>=, GoError,
}
use meemaw.Tss.PeerManager.{Message, PeerManager, Payload}
use meemaw.Tss.Service.{Service, MainState}
use meemaw.Tss.Actors.{Party}
use meemaw.Ws.{WsMessage, tss_message, Round, stops, idles, sends, fails, crashes}
use meemaw.Ws.Rounds.{SendsTss, tss_send_round-SendsTss}
use meemaw.Ws.Endpoint.{
  returned, Sender, not_started, polling, stopped, reader_fails, sent, sending,
}
use meemaw.Client.AddDevice.{
  Setting, Device, with_service, handled, with_message, reads_tss, queue_kept, polls_adder,
  adder_sends, adder_changes,
}

module _ (e : Setting) {P Main C : Type 0} where
  open e use {a, lib, al}

  -- The place of the call and what it waits for are as they were; a message of the process may have been
  -- written, and the reading goroutine may have returned.
  pub record Aside (h h' : Device e P Main C) : Type 0 where
    pub same_main : h'.main ≡ h.main
    pub same_done : h'.server_done ≡ h.server_done
    pub same_metadata : h'.metadata ≡ h.metadata
    pub reader : (h'.reader ≡ h.reader) ⊎ (h'.reader ≡ returned)
    pub written :
        (h'.written ≡ h.written)
        ⊎ ((msg : WsMessage) × (msg.msg_type ≡ tss_message) × (h'.written ≡ h.written ++ msg ∷ []))

  quiet :
      (h h' : Device e P Main C)
      → h'.main ≡ h.main
      → h'.server_done ≡ h.server_done
      → h'.metadata ≡ h.metadata
      → h'.reader ≡ h.reader
      → h'.written ≡ h.written
      → Aside h h'
  quiet h h' m d k r w = record {
    same_main = m;
    same_done = d;
    same_metadata = k;
    reader = inl r;
    written = inl w;
  }

  fails-Aside : (h : Device e P Main C) (x : GoError) → Aside h (reader_fails h x)
  unfolding reader_fails
  fails-Aside h x = record {
    same_main = refl;
    same_done = refl;
    same_metadata = refl;
    reader = inr refl;
    written = inl refl;
  }

  handled-Aside :
      (h : Device e P Main C) (p : Party C lib) (r : Outcome (Service C lib))
      → Ends (Aside h) (handled e h p r)
  unfolding handled with_service Ends
  handled-Aside h p (ok service) = quiet h _ refl refl refl refl refl
  handled-Aside h p (err x) = fails-Aside h x
  handled-Aside h p panic = tt

  with_message-Aside :
      (h : Device e P Main C) (q : Option (Party C lib)) (r : Outcome (Message lib.M))
      → Ends (Aside h) (with_message e h q r)
  unfolding with_message Ends
  with_message-Aside h (some p) (ok m) = handled-Aside h p _
  with_message-Aside h none (ok m) = tt
  with_message-Aside h (some p) (err x) = fails-Aside h x
  with_message-Aside h none (err x) = fails-Aside h x
  with_message-Aside h (some p) panic = tt
  with_message-Aside h none panic = tt

  pub reads_tss-Aside :
      (h : Device e P Main C) (msg : WsMessage) → Ends (Aside h) (reads_tss e h msg)
  unfolding reads_tss Ends
  reads_tss-Aside h msg =
      if-Ends (Aside h) (ltb msg.msg_type.msg_stage h.stage) _ _
        (quiet h h refl refl refl refl refl) (with_message-Aside h h.adder _)

  sent-Aside :
      (h : Device e P Main C) (p : Party C lib) (r : Round (PeerManager lib.M lib.Actor))
      (write : Outcome (Unit {0}))
      → SendsTss r
      → Ends (λ q. Aside h (queue_kept e p q)) (sent h r write)
  unfolding sent queue_kept with_service SendsTss Ends
  sent-Aside h p stops write tss = quiet h _ refl refl refl refl refl
  sent-Aside h p (idles pm) write tss = quiet h _ refl refl refl refl refl
  sent-Aside h p (sends msg pm) (ok u) tss = record {
    same_main = refl;
    same_done = refl;
    same_metadata = refl;
    reader = inl refl;
    written = inr (msg, tss, refl);
  }
  sent-Aside h p (sends msg pm) (err x) tss = quiet h _ refl refl refl refl refl
  sent-Aside h p (sends msg pm) panic tss = tt
  sent-Aside h p (fails x pm) write tss = quiet h _ refl refl refl refl refl
  sent-Aside h p crashes write tss = tt

  sending-Aside :
      (g : Sender) (h : Device e P Main C) (p : Party C lib)
      (get_next : PeerManager lib.M lib.Actor
        → Outcome (Message lib.M × PeerManager lib.M lib.Actor))
      (write : Outcome (Unit {0}))
      → Ends
          (λ q. Aside h (queue_kept e p q))
          (sending e.marshal_json g h get_next p.service.pm write)
  unfolding sending Ends queue_kept
  sending-Aside polling h p get_next write =
      sent-Aside h p _ write (
        tss_send_round-SendsTss e.marshal_json (h.cancelled || h.server_done) get_next p.service.pm)
  sending-Aside not_started h p get_next write = quiet h h refl refl refl refl refl
  sending-Aside stopped h p get_next write = quiet h h refl refl refl refl refl

  pub polls_adder-Aside :
      (h : Device e P Main C) (q : Option (Party C lib)) (write : Outcome (Unit {0}))
      → Ends (Aside h) (polls_adder e h q write)
  unfolding polls_adder Ends
  polls_adder-Aside h none write = quiet h h refl refl refl refl refl
  polls_adder-Aside h (some p) write =
      Ends->>= (λ q. Aside h (queue_kept e p q)) (Aside h) _ _ (sending-Aside h.sender h p _ write)
        (λ r aside. aside)

  pub adder_sends-Aside :
      (h : Device e P Main C) (q : Option (Party C lib)) (to : Str) (message : Payload lib.M)
      → Aside h (adder_sends e h q to message)
  unfolding adder_sends with_service
  adder_sends-Aside h none to message = quiet h h refl refl refl refl refl
  adder_sends-Aside h (some p) to message = quiet h _ refl refl refl refl refl

  changed-Aside :
      (h : Device e P Main C) (p : Party C lib) (r : Outcome (Service C lib))
      → Ends (Aside h) (r >>= λ service. ok (with_service e h p service))
  unfolding with_service Ends
  changed-Aside h p (ok service) = quiet h _ refl refl refl refl refl
  changed-Aside h p (err x) = tt
  changed-Aside h p panic = tt

  pub adder_changes-Aside :
      (h : Device e P Main C) (q : Option (Party C lib)) (old_state new_state : MainState)
      → Ends (Aside h) (adder_changes e h q old_state new_state)
  unfolding adder_changes Ends
  adder_changes-Aside h none old_state new_state = quiet h h refl refl refl refl refl
  adder_changes-Aside h (some p) old_state new_state = changed-Aside h p _
