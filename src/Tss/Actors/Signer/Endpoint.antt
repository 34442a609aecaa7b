-- ===== src/Tss/Actors/Signer/Endpoint.antt =====
-- A signer at its connection: ServerSigner and ClientSigner as the GenericTSS of Send and Receive, and what
-- their process does meanwhile (utils/tss/tssManager.go).
use meemaw.Prelude.{◌≡◌, refl, Str, str, Outcome, ok, ◌>>=◌, Ends, >>=-Ends, Ends->>=}
use meemaw.Encoding.Hex.{Bytes}
use meemaw.Tss.Alice.{Alice}
use meemaw.Tss.PeerManager.{PeerManager, Payload, must_send}
use meemaw.Tss.Service.{Library, Service, MainState, on_state_changed, receive}
use meemaw.Tss.Service.Config.{receive-Same, on_state_changed-Same}
use meemaw.Tss.Actors.{Party}
use meemaw.Tss.Actors.Signer.{SignerConfig, SignerOutput, SignerLibrary, signer_handle_message}
use meemaw.Tss.Connection.{GenericTss, Messages, Connection, Turn, turn}
use meemaw.Tss.Connection.Kept.{turn-Same}

module _ (a : Alice) (lib : Library SignerOutput) (sl : SignerLibrary a lib)
    (fetch : Party SignerConfig lib → Outcome (Bytes × PeerManager lib.M lib.Actor)) where
  next : Party SignerConfig lib → Outcome (Bytes × Party SignerConfig lib)
  next p = fetch p >>= λ r. ok (r.0, record p { service = record p.service { pm = r.1 } })

  handle_message : Party SignerConfig lib → lib.M → Outcome (Party SignerConfig lib)
  unfolding signer_handle_message
  handle_message p m =
      signer_handle_message a lib sl p m >>= λ service. ok (record p { service = service })

  -- `fetch` is GetNextMessageToSend of the one or the other; DkgOrSign is 2 for both.
  unfoldable pub endpoint : GenericTss (Party SignerConfig lib) lib.M
  unfolding next handle_message
  endpoint = record { next = next; handle_message = handle_message; dkg_or_sign = 2 }

  next-Same :
      (p : Party SignerConfig lib) → Ends (λ x. x.1.service.config ≡ p.service.config) (next p)
  unfolding next Ends
  next-Same p =
      >>=-Ends (λ (x : Bytes × Party SignerConfig lib). x.1.service.config ≡ p.service.config)
        (fetch p) _ (λ r. refl)

  handle_message-Same :
      (p : Party SignerConfig lib) (m : lib.M)
      → Ends (λ q. q.service.config ≡ p.service.config) (handle_message p m)
  unfolding handle_message signer_handle_message Ends
  handle_message-Same p m =
      Ends->>= (λ (q : Service SignerConfig lib). q.config ≡ p.service.config)
        (λ (q : Party SignerConfig lib). q.service.config ≡ p.service.config)
        (receive lib p.service m) (λ service. ok (record p { service = service }))
        (receive-Same lib p.service m) (λ service h. h)

  -- A turn of Send or Receive leaves alone what the signer was made from.
  pub turn-config :
      (messages : Messages lib.M) (c : Connection (Party SignerConfig lib)) (x : Turn)
      → Ends
          (λ (c' : Connection (Party SignerConfig lib)).
            c'.tss.service.config ≡ c.tss.service.config)
          (turn messages endpoint c x)
  unfolding endpoint
  turn-config messages c x =
      turn-Same messages endpoint (λ (p : Party SignerConfig lib). p.service.config) next-Same
        handle_message-Same c x

-- What the process of the library does while the connection is open.
module _ (lib : Library SignerOutput) where
  abbrev with_service :
      Connection (Party SignerConfig lib)
      → Service SignerConfig lib
      → Connection (Party SignerConfig lib)
  with_service c service = record c { tss = record c.tss { service = service } }

  unfoldable pub process_sends :
      Connection (Party SignerConfig lib)
      → Str
      → Payload lib.M
      → Connection (Party SignerConfig lib)
  process_sends c to message =
      with_service c (record c.tss.service { pm = must_send c.tss.service.pm to message })

  unfoldable pub process_changes :
      Connection (Party SignerConfig lib)
      → MainState
      → MainState
      → Outcome (Connection (Party SignerConfig lib))
  unfolding on_state_changed
  process_changes c old_state new_state =
      on_state_changed lib (str "signing failed") c.tss.service old_state new_state >>= λ service.
      ok (with_service c service)

  pub process_changes-config :
      (c : Connection (Party SignerConfig lib)) (old_state new_state : MainState)
      → Ends
          (λ (c' : Connection (Party SignerConfig lib)).
            c'.tss.service.config ≡ c.tss.service.config)
          (process_changes c old_state new_state)
  unfolding process_changes Ends
  process_changes-config c old_state new_state =
      Ends->>= (λ (q : Service SignerConfig lib). q.config ≡ c.tss.service.config)
        (λ (c' : Connection (Party SignerConfig lib)). c'.tss.service.config ≡ c.tss.service.config)
        (on_state_changed lib (str "signing failed") c.tss.service old_state new_state)
        (λ service. ok (with_service c service))
        (on_state_changed-Same lib (str "signing failed") c.tss.service old_state new_state)
        (λ service h. h)
