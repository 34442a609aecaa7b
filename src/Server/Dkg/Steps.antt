-- ===== src/Server/Dkg/Steps.antt =====
-- What the goroutines of DkgHandler leave to each other (server/tss_dkg.go).
use meemaw.Prelude.{
  ◌≡◌, refl, ap, ◌∙◌, Bool, true, false, ◌||◌, List, [], ◌∷◌, ◌++◌, Option, none, some, arith, Str,
  str, str_eq, append-nil, if◌then◌else◌, ltb, Outcome, ok, err, panic, Ends, if-Ends, >>=-Ends,
}
use meemaw.Tss.PeerManager.{Message, PeerManager}
use meemaw.Tss.Service.{Service}
use meemaw.Tss.Actors.{Party, DkgConfig, decode_message, dkg_handle_message, server_dkg_next}
use meemaw.Ws.{
  WsMessage, metadata_message, unexpected, read_tss, same_type, Round, stops, idles, sends, fails,
  crashes,
}
use meemaw.Ws.Rounds.{SendsTss, tss_send_round-SendsTss}
use meemaw.Server.Database.{Db}
use meemaw.Server.Dkg.{
  Setting, Reader, reading, offers_start, sets_stage, returned, Sender, not_started, polling,
  stopped, Main, State, Case, peer_id_case, tss_case, metadata_ack_case, default_case, case_of,
  reader_fails, writes, polls, step, Event, reads, read_ends, read_fails, starts, stage_set,
  sender_runs, main_runs, tss_sends, tss_changes, request_cancelled, sender_ends, ends,
  with_service, when_reading, sets, prepares, handles, or_fails, on_message, sender_round,
  sender_turn, with_manager,
}

-- The metadata messages among those that were written.
is_metadata : WsMessage → Bool
is_metadata m = same_type m.msg_type metadata_message

unfoldable pub metadata_of : List WsMessage → List Str
unfolding is_metadata
metadata_of [] = []
metadata_of (m ∷ ms) = let rest = metadata_of ms in if is_metadata m then m.msg ∷ rest else rest

metadata_of-append :
    (ms ns : List WsMessage) → metadata_of (ms ++ ns) ≡ metadata_of ms ++ metadata_of ns
unfolding metadata_of
metadata_of-append [] ns = refl
metadata_of-append (m ∷ ms) ns = ground (arith, metadata_of-append ms ns)

pub metadata_of-snoc_metadata :
    (ms : List WsMessage) (text : Str)
    → metadata_of (ms ++ record { msg_type = metadata_message; msg = text } ∷ [])
      ≡ metadata_of ms ++ text ∷ []
unfolding metadata_of is_metadata same_type str_eq str
metadata_of-snoc_metadata ms text = metadata_of-append ms _

pub metadata_of-metadata :
    (ms : List WsMessage) (text : Str)
    → metadata_of ms ≡ []
    → metadata_of (ms ++ record { msg_type = metadata_message; msg = text } ∷ []) ≡ text ∷ []
metadata_of-metadata ms text h = metadata_of-snoc_metadata ms text ∙ ap (λ xs. xs ++ text ∷ []) h

module _ (e : Setting) where
  abbrev pub Kept : Type 0
  Kept = Main × Db × e.crypto.Random × List Str

  -- What the handler itself does; the other goroutines leave it alone.
  unfoldable pub kept : State e → Kept
  kept s = (s.main, s.db, s.random, metadata_of s.written)

  abbrev pub Keeps : State e → State e → Type 0
  Keeps s s' = (kept s' ≡ kept s) × (s.server_done ≡ true → s'.server_done ≡ true)

  metadata_of-snoc :
      (ms : List WsMessage) (m : WsMessage)
      → same_type m.msg_type metadata_message ≡ false
      → metadata_of (ms ++ m ∷ []) ≡ metadata_of ms
  unfolding metadata_of is_metadata
  metadata_of-snoc ms m h =
      metadata_of-append ms (m ∷ [])
      ∙ ap (λ b. metadata_of ms ++ (if b then m.msg ∷ [] else [])) h
      ∙ append-nil (metadata_of ms)

  writes-Ends :
      (s : State e) (msg : WsMessage) (write : Outcome (Unit {0}))
      → same_type msg.msg_type metadata_message ≡ false
      → Ends (Keeps s) (writes e s msg write)
  unfolding Ends kept writes reader_fails
  writes-Ends s msg (ok u) h =
      (ap (λ ms. (s.main, s.db, s.random, ms)) (metadata_of-snoc s.written msg h), λ h. h)
  writes-Ends s msg (err x) h = (refl, λ h. h)
  writes-Ends s msg panic h = tt

  prepares-Ends :
      (s : State e) (peer_id : Str) (made : Outcome (Party DkgConfig e.lib))
      → Ends (Keeps s) (prepares e s peer_id made)
  unfolding Ends kept prepares reader_fails
  prepares-Ends s peer_id (ok d) = (refl, λ h. h)
  prepares-Ends s peer_id (err x) = (refl, λ h. h)
  prepares-Ends s peer_id panic = tt

  handles-Ends :
      (s : State e) (dkg : Option (Party DkgConfig e.lib)) (m : Message e.lib.M)
      → Ends (Keeps s) (handles e s dkg m)
  unfolding Ends kept handles
  handles-Ends s none m = >>=-Ends (Keeps s) (decode_message e.lib m) (λ x. panic) (λ x. tt)
  handles-Ends s (some d) m =
      >>=-Ends (Keeps s) (dkg_handle_message e.lib d.service m)
        (λ service. ok (record s { dkg = some (record d { service = service }) }))
        (λ service. (refl, λ h. h))

  or_fails-Ends :
      (s : State e) (r : Outcome (State e)) → Ends (Keeps s) r → Ends (Keeps s) (or_fails e s r)
  unfolding Ends kept or_fails reader_fails
  or_fails-Ends s (ok s') h = h
  or_fails-Ends s (err x) h = (refl, λ h. h)
  or_fails-Ends s panic h = tt

  on_message-Ends :
      (k : Case) (s : State e) (msg : WsMessage) (write : Outcome (Unit {0}))
      → Ends (Keeps s) (on_message e k s msg write)
  unfolding on_message Ends kept same_type str_eq str
  on_message-Ends peer_id_case s msg write =
      if-Ends (Keeps s) (ltb msg.msg_type.msg_stage s.stage) _ _ (refl, λ h. h)
        (prepares-Ends s _ _)
  on_message-Ends tss_case s msg write =
      if-Ends (Keeps s) (ltb msg.msg_type.msg_stage s.stage) _ _ (refl, λ h. h)
        (or_fails-Ends s _ (
          >>=-Ends (Keeps s) (read_tss e.unmarshal_json msg.msg) (handles e s s.dkg)
            (handles-Ends s s.dkg)))
  on_message-Ends metadata_ack_case s msg write =
      if-Ends (Keeps s) s.server_done _ _ tt ((refl, λ h. refl))
  on_message-Ends default_case s msg write = writes-Ends s unexpected write refl

  sender_turn-Ends :
      (s : State e) (d : Party DkgConfig e.lib) (r : Round (PeerManager e.lib.M e.lib.Actor))
      (write : Outcome (Unit {0}))
      → SendsTss r
      → Ends (Keeps s) (sender_turn e s d r write)
  unfolding Ends kept sender_turn with_manager SendsTss same_type str_eq str
  sender_turn-Ends s d stops write h = (refl, λ h. h)
  sender_turn-Ends s d (idles pm) write h = (refl, λ h. h)
  sender_turn-Ends s d (sends msg pm) (ok u) h = (
    ap (λ ms. (s.main, s.db, s.random, ms))
        (metadata_of-snoc s.written msg (ap (λ t. same_type t metadata_message) h)),
    λ h. h,
  )
  sender_turn-Ends s d (sends msg pm) (err x) h = (refl, λ h. h)
  sender_turn-Ends s d (sends msg pm) panic h = tt
  sender_turn-Ends s d (fails x pm) write h = (refl, λ h. h)
  sender_turn-Ends s d crashes write h = tt

  module _ (user_id user_agent : Str) where
    sender-Ends :
        (g : Sender) (dkg : Option (Party DkgConfig e.lib)) (s : State e)
        (write : Outcome (Unit {0}))
        → Ends (Keeps s) (polls e user_id user_agent g dkg s write)
    unfolding polls Ends kept sender_round
    sender-Ends polling (some d) s write = sender_turn-Ends s d _ write (
        tss_send_round-SendsTss e.marshal_json (s.cancelled || s.server_done)
          (λ pm. server_dkg_next e.a e.lib (record d { service = record d.service { pm = pm } }))
          d.service.pm)
    sender-Ends polling none s write = (refl, λ h. h)
    sender-Ends not_started dkg s write = (refl, λ h. h)
    sender-Ends stopped dkg s write = (refl, λ h. h)

    with_service-Ends :
        (dkg : Option (Party DkgConfig e.lib)) (s : State e)
        (f : Service DkgConfig e.lib → Outcome (Service DkgConfig e.lib))
        → Ends (Keeps s) (with_service e user_id user_agent dkg s f)
    unfolding with_service Ends kept
    with_service-Ends none s f = (refl, λ h. h)
    with_service-Ends (some d) s f = >>=-Ends (Keeps s) (f d.service) _ (λ service. (refl, λ h. h))

    when_reading-Ends :
        (r : Reader) (s : State e) (next : Outcome (State e))
        → Ends (Keeps s) next
        → Ends (Keeps s) (when_reading e user_id user_agent r s next)
    unfolding when_reading Ends kept
    when_reading-Ends reading s next h = h
    when_reading-Ends offers_start s next h = (refl, λ h. h)
    when_reading-Ends sets_stage s next h = (refl, λ h. h)
    when_reading-Ends returned s next h = (refl, λ h. h)

    sets-Keeps : (r : Reader) (s : State e) → Keeps s (sets e user_id user_agent r s)
    unfolding sets kept
    sets-Keeps reading s = (refl, λ h. h)
    sets-Keeps offers_start s = (refl, λ h. h)
    sets-Keeps sets_stage s = (refl, λ h. h)
    sets-Keeps returned s = (refl, λ h. h)

    ends-Keeps : (g : Sender) (s : State e) → Keeps s (ends e user_id user_agent g s)
    unfolding ends kept
    ends-Keeps polling s = (refl, λ h. h)
    ends-Keeps not_started s = (refl, λ h. h)
    ends-Keeps stopped s = (refl, λ h. h)

-- What the other goroutines do: every event but a turn of the handler and the start of the process.
unfoldable pub OfOthers : {e : Setting} → Event e → Type 0
OfOthers (reads msg write) = Unit
OfOthers read_ends = Unit
OfOthers (read_fails x) = Unit
OfOthers starts = ⊥
OfOthers stage_set = Unit
OfOthers (sender_runs write) = Unit
OfOthers (main_runs write) = ⊥
OfOthers (tss_sends to message) = Unit
OfOthers (tss_changes old_state new_state) = Unit
OfOthers request_cancelled = Unit
OfOthers sender_ends = Unit

module _ (e : Setting) (user_id user_agent : Str) where
  pub step-Keeps :
      (s : State e) (x : Event e) → OfOthers x → Ends (Keeps e s) (step e user_id user_agent s x)
  unfolding step OfOthers Ends kept reader_fails
  step-Keeps s (reads msg write) o =
      when_reading-Ends e user_id user_agent s.reader s _
        (on_message-Ends e (case_of msg.msg_type) s msg write)
  step-Keeps s read_ends o = when_reading-Ends e user_id user_agent s.reader s _ (refl, λ h. h)
  step-Keeps s (read_fails x) o = when_reading-Ends e user_id user_agent s.reader s _ (refl, λ h. h)
  step-Keeps s starts o = absurd o
  step-Keeps s stage_set o = sets-Keeps e user_id user_agent s.reader s
  step-Keeps s (sender_runs write) o = sender-Ends e user_id user_agent s.sender s.dkg s write
  step-Keeps s (main_runs write) o = absurd o
  step-Keeps s (tss_sends to message) o = with_service-Ends e user_id user_agent s.dkg s _
  step-Keeps s (tss_changes old_state new_state) o =
      with_service-Ends e user_id user_agent s.dkg s _
  step-Keeps s request_cancelled o = (refl, λ h. h)
  step-Keeps s sender_ends o = ends-Keeps e user_id user_agent s.sender s
