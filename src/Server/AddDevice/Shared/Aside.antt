-- ===== src/Server/AddDevice/Shared/Aside.antt =====
-- What both handlers of server/tss_add.go do beside their own protocol: messages of the process are handed to the
-- adder, and taken from it and written. Neither changes more than the adder's service.
use meemaw.Prelude.{
  ◌≡◌, refl, ap, ◌⊎◌, inl, inr, ℕ, zero, suc, ◌||◌, List, [], ◌∷◌, ◌++◌, Option, none, some, Str,
  Outcome, ok, err, panic, ◌>>=◌, Ends, if-Ends, >>=-Ends, Ends->>=, GoError, str_eq,
}
use meemaw.Tss.PeerManager.{Message, PeerManager, Payload}
use meemaw.Tss.Service.{Service, MainState}
use meemaw.Tss.Service.Config.{receive-Same, on_state_changed-Same}
use meemaw.Tss.Actors.{server_id, decode_message, adder_generic_handle}
use meemaw.Tss.Actors.Adder.{AddExistingConfig, server_add_handle_message}
use meemaw.Ws.{WsMessage, tss_message, Round, stops, idles, sends, fails, crashes, read_tss}
use meemaw.Ws.Rounds.{SendsTss, tss_send_round-SendsTss}
use meemaw.Ws.Endpoint.{
  returned, Sender, not_started, polling, stopped, Endpoint, reader_fails, sent, sending,
}
use meemaw.Server.AddDevice.Shared.{
  Setting, Adder, Shared, at_place, put_at, points_to, with_service, adder_changes, adder_sends,
  keeps_service, handles, with_message, reads_tss, queue_kept, polls_adder,
}

module _ (e : Setting) where
  open e use {a, lib, al}

  abbrev pub config : Adder e → AddExistingConfig
  config p = p.service.config

  unfoldable pub configs : List (Adder e) → List AddExistingConfig
  configs [] = []
  configs (p ∷ ps) = config p ∷ configs ps

  -- As many objects, so none or some.
  pub same_empty : (ps qs : List (Adder e)) → configs qs ≡ configs ps → qs ≡ [] → ps ≡ []
  unfolding configs
  same_empty [] qs same none_yet = refl
  same_empty (p ∷ ps) [] same none_yet = cc same
  same_empty (p ∷ ps) (q ∷ qs) same none_yet = cc none_yet

  -- The objects differ in their services' state at most.
  pub record Served (sh sh' : Shared e) : Type 0 where
    pub same_configs : configs sh'.adders ≡ configs sh.adders
    pub the_rest : sh' ≡ record sh { adders = sh'.adders }

  Served-refl : (sh : Shared e) → Served sh sh
  Served-refl sh = record { same_configs = refl; the_rest = refl }

  abbrev SameConfig : Service AddExistingConfig lib → Service AddExistingConfig lib → Type 0
  SameConfig p p' = p'.config ≡ p.config

  configs-put_at :
      (n : ℕ) (p q : Adder e) (xs : List (Adder e))
      → at_place n xs ≡ some p
      → config q ≡ config p
      → configs (put_at n q xs) ≡ configs xs
  unfolding at_place put_at configs
  configs-put_at n p q [] found same = refl
  configs-put_at zero p q (x ∷ xs) found same = cc
  configs-put_at (suc n) p q (x ∷ xs) found same =
      ap (λ cs. config x ∷ cs) (configs-put_at n p q xs found same)

  with_service-Served :
      (n : ℕ) (p : Adder e) (service : Service AddExistingConfig lib) (sh : Shared e)
      → at_place n sh.adders ≡ some p
      → SameConfig p.service service
      → Served sh (with_service e n p service sh)
  unfolding with_service
  with_service-Served n p service sh found same = record {
    same_configs = configs-put_at n p (record p { service = service }) sh.adders found same;
    the_rest = refl;
  }

  changed-Served :
      (n : ℕ) (p : Adder e) (sh : Shared e) (r : Outcome (Service AddExistingConfig lib))
      → at_place n sh.adders ≡ some p
      → Ends (SameConfig p.service) r
      → Ends (Served sh) (r >>= λ service. ok (with_service e n p service sh))
  unfolding Ends
  changed-Served n p sh (ok service) found same = with_service-Served n p service sh found same
  changed-Served n p sh (err x) found same = tt
  changed-Served n p sh panic found same = tt

  pub adder_changes-Served :
      (n : ℕ) (q : Option (Adder e)) (old_state new_state : MainState) (sh : Shared e)
      → at_place n sh.adders ≡ q
      → Ends (Served sh) (adder_changes e n q old_state new_state sh)
  unfolding adder_changes Ends
  adder_changes-Served n none old_state new_state sh found = Served-refl sh
  adder_changes-Served n (some p) old_state new_state sh found =
      changed-Served n p sh _ found (on_state_changed-Same lib _ p.service old_state new_state)

  pub adder_sends-Served :
      (n : ℕ) (q : Option (Adder e)) (to : Str) (message : Payload lib.M) (sh : Shared e)
      → at_place n sh.adders ≡ q
      → Served sh (adder_sends e n q to message sh)
  unfolding adder_sends
  adder_sends-Served n none to message sh found = Served-refl sh
  adder_sends-Served n (some p) to message sh found = with_service-Served n p _ sh found refl

  handle-SameConfig :
      (p : Adder e) (m : Message lib.M)
      → Ends (SameConfig p.service) (server_add_handle_message a lib al p m)
  unfolding server_add_handle_message adder_generic_handle Ends
  handle-SameConfig p m = >>=-Ends (SameConfig p.service) (decode_message lib m) _ (λ n.
      if-Ends (SameConfig p.service) (str_eq m.peer_id server_id) _ _ (receive-Same lib p.service n)
        refl)

  module _ {P Main : Type 0} where
    -- The variables of the handler, its place and its stage are as they were; a message of the process
    -- may have been written, and the reading goroutine may have returned.
    pub record Aside (h : Endpoint P Main ℕ) (sh : Shared e) (r : Endpoint P Main ℕ × Shared e)
        : Type 0 where
      pub same_main : r.0.main ≡ h.main
      pub same_stage : r.0.stage ≡ h.stage
      pub same_adder : r.0.adder ≡ h.adder
      pub reader : (r.0.reader ≡ h.reader) ⊎ (r.0.reader ≡ returned)
      pub written :
          (r.0.written ≡ h.written)
          ⊎ ((msg : WsMessage) × (msg.msg_type ≡ tss_message)
              × (r.0.written ≡ h.written ++ msg ∷ []))
      pub served : Served sh r.1

    quiet : (h : Endpoint P Main ℕ) (sh sh' : Shared e) → Served sh sh' → Aside h sh (h, sh')
    quiet h sh sh' served = record {
      same_main = refl;
      same_stage = refl;
      same_adder = refl;
      reader = inl refl;
      written = inl refl;
      served = served;
    }

    fails-Aside :
        (h : Endpoint P Main ℕ) (sh : Shared e) (x : GoError) → Aside h sh (reader_fails h x, sh)
    unfolding reader_fails
    fails-Aside h sh x = record {
      same_main = refl;
      same_stage = refl;
      same_adder = refl;
      reader = inr refl;
      written = inl refl;
      served = Served-refl sh;
    }

    keeps_service-Aside :
        (h : Endpoint P Main ℕ) (sh : Shared e) (n : ℕ) (p : Adder e)
        (r : Outcome (Service AddExistingConfig lib))
        → at_place n sh.adders ≡ some p
        → Ends (SameConfig p.service) r
        → Ends (Aside h sh) (keeps_service e h sh n p r)
    unfolding Ends keeps_service
    keeps_service-Aside h sh n p (ok service) found same =
        quiet h sh _ (with_service-Served n p service sh found same)
    keeps_service-Aside h sh n p (err x) found same = fails-Aside h sh x
    keeps_service-Aside h sh n p panic found same = tt

    handles-Aside :
        (h : Endpoint P Main ℕ) (sh : Shared e) (k : Option ℕ) (q : Option (Adder e))
        (m : Message lib.M)
        → points_to k sh.adders ≡ q
        → Ends (Aside h sh) (handles e h sh k q m)
    unfolding Ends handles points_to
    handles-Aside h sh (some n) (some p) m found =
        keeps_service-Aside h sh n p _ found (handle-SameConfig p m)
    handles-Aside h sh (some n) none m found = tt
    handles-Aside h sh none (some p) m found = tt
    handles-Aside h sh none none m found = tt

    with_message-Aside :
        (h : Endpoint P Main ℕ) (sh : Shared e) (r : Outcome (Message lib.M))
        → Ends (Aside h sh) (with_message e h sh r)
    unfolding Ends with_message
    with_message-Aside h sh (ok m) = handles-Aside h sh h.adder _ m refl
    with_message-Aside h sh (err x) = fails-Aside h sh x
    with_message-Aside h sh panic = tt

    pub reads_tss-Aside :
        (h : Endpoint P Main ℕ) (sh : Shared e) (text : Str)
        → Ends (Aside h sh) (reads_tss e h sh text)
    unfolding reads_tss
    reads_tss-Aside h sh text = with_message-Aside h sh (read_tss e.unmarshal_json text)

    -- After one round of TssSend.
    sender_Aside :
        (h h' : Endpoint P Main ℕ) (sh sh' : Shared e)
        → h'.main ≡ h.main
        → h'.stage ≡ h.stage
        → h'.adder ≡ h.adder
        → h'.reader ≡ h.reader
        → (h'.written ≡ h.written)
          ⊎ ((msg : WsMessage) × (msg.msg_type ≡ tss_message)
              × (h'.written ≡ h.written ++ msg ∷ []))
        → Served sh sh'
        → Aside h sh (h', sh')
    sender_Aside h h' sh sh' m s d r w served = record {
      same_main = m;
      same_stage = s;
      same_adder = d;
      reader = inl r;
      written = w;
      served = served;
    }

    sent-Aside :
        (h : Endpoint P Main ℕ) (sh : Shared e) (n : ℕ) (p : Adder e)
        (r : Round (PeerManager lib.M lib.Actor)) (write : Outcome (Unit {0}))
        → at_place n sh.adders ≡ some p
        → SendsTss r
        → Ends (λ q. Aside h sh (queue_kept e sh n p q)) (sent h r write)
    unfolding Ends sent SendsTss queue_kept
    sent-Aside h sh n p stops write found tss =
        sender_Aside h _ sh sh refl refl refl refl (inl refl) (Served-refl sh)
    sent-Aside h sh n p (idles pm) write found tss =
        quiet h sh _ (with_service-Served n p _ sh found refl)
    sent-Aside h sh n p (sends msg pm) (ok u) found tss =
        sender_Aside h _ sh _ refl refl refl refl (inr (msg, tss, refl))
          (with_service-Served n p _ sh found refl)
    sent-Aside h sh n p (sends msg pm) (err x) found tss =
        sender_Aside h _ sh _ refl refl refl refl (inl refl)
          (with_service-Served n p _ sh found refl)
    sent-Aside h sh n p (sends msg pm) panic found tss = tt
    sent-Aside h sh n p (fails x pm) write found tss =
        sender_Aside h _ sh _ refl refl refl refl (inl refl)
          (with_service-Served n p _ sh found refl)
    sent-Aside h sh n p crashes write found tss = tt

    sending-Aside :
        (g : Sender) (h : Endpoint P Main ℕ) (sh : Shared e) (n : ℕ) (p : Adder e)
        (get_next : PeerManager lib.M lib.Actor
          → Outcome (Message lib.M × PeerManager lib.M lib.Actor))
        (write : Outcome (Unit {0}))
        → at_place n sh.adders ≡ some p
        → Ends
            (λ q. Aside h sh (queue_kept e sh n p q))
            (sending e.marshal_json g h get_next p.service.pm write)
    unfolding sending Ends queue_kept
    sending-Aside polling h sh n p get_next write found = sent-Aside h sh n p _ write found (
        tss_send_round-SendsTss e.marshal_json (h.cancelled || h.server_done) get_next p.service.pm)
    sending-Aside not_started h sh n p get_next write found = quiet h sh sh (Served-refl sh)
    sending-Aside stopped h sh n p get_next write found = quiet h sh sh (Served-refl sh)

    pub polls_adder-Aside :
        (h : Endpoint P Main ℕ) (sh : Shared e) (peer_id : Str) (k : Option ℕ)
        (q : Option (Adder e)) (write : Outcome (Unit {0}))
        → points_to k sh.adders ≡ q
        → Ends (Aside h sh) (polls_adder e h sh peer_id k q write)
    unfolding polls_adder Ends points_to
    polls_adder-Aside h sh peer_id (some n) (some p) write found =
        Ends->>= (λ q. Aside h sh (queue_kept e sh n p q)) (Aside h sh) _ _
          (sending-Aside h.sender h sh n p _ write found) (λ r aside. aside)
    polls_adder-Aside h sh peer_id (some n) none write found = quiet h sh sh (Served-refl sh)
    polls_adder-Aside h sh peer_id none (some p) write found = quiet h sh sh (Served-refl sh)
    polls_adder-Aside h sh peer_id none none write found = quiet h sh sh (Served-refl sh)
