-- ===== src/Client/AddDevice.antt =====
-- RegisterDevice and AcceptDevice (client/tss_add.go): the requests before their goroutines, and what these have in
-- common. `step` of either is one atomic step of one goroutine; one that has to wait changes nothing.
pub mod Register
pub mod Accept
pub mod Aside
use meemaw.Prelude.{
  ℕ, Bool, true, false, ◌++◌, List, [], ◌∷◌, Option, none, some, Str, str, Dict, ltb, if◌then◌else◌,
  Outcome, ok, err, panic, ◌>>=◌, GoError,
}
use meemaw.Encoding.Hex.{Bytes}
use meemaw.Tss.Alice.{Alice}
use meemaw.Tss.Wallet.{PubkeyStr, Bk, DkgResult, Output}
use meemaw.Tss.PeerManager.{Message, PeerManager, Payload, must_send}
use meemaw.Tss.Service.{Library, Service, MainState, on_state_changed}
use meemaw.Tss.Actors.{Party}
use meemaw.Tss.Actors.Adder.{AddLibrary, client_add_handle_message, client_add_next_all}
use meemaw.Ws.{WsMessage, MessageType, read_tss}
use meemaw.Ws.Endpoint.{Endpoint, reader_fails, sending}
use meemaw.Client.{Web, get_access_token, url_to_ws, dialled}

pub record Setting : Type 1 where
  pub a : Alice
  pub lib : Library (Output a)
  pub al : AddLibrary a lib
  pub marshal_json : Message lib.M → Outcome Bytes
  pub unmarshal_json : Bytes → Outcome (Message lib.M)
  pub unmarshal_wallet : Bytes → Outcome (PubkeyStr × Dict Bk)  -- json.Unmarshal of a PublicWallet
  pub is_normal_closure : GoError → Bool

module _ (w : Web) where
  -- RegisterDevice, up to its goroutines; `write` is what writing the new peer id gives.
  unfoldable pub register_start : Str → Str → (w.Conn → Outcome (Unit {0})) → Outcome w.Conn
  unfolding get_access_token url_to_ws dialled
  register_start host auth_data write = do
    token ← get_access_token w host [] auth_data
    ws_host ← url_to_ws w host
    c ← dialled w (w.dial (ws_host ++ (str "/register?token=" ++ token)))
    sent ← write c
    ok c

  -- AcceptDevice, up to its goroutines; it writes the peer id of its wallet.
  unfoldable pub accept_start :
      Str → Str → Str → Str → (w.Conn → Str → Outcome (Unit {0})) → Outcome (w.Conn × DkgResult)
  unfolding get_access_token url_to_ws dialled
  accept_start host dkg_result_str metadata auth_data write = do
    token ← get_access_token w host metadata auth_data
    result ← w.unmarshal_json dkg_result_str
    ws_host ← url_to_ws w host
    c ← dialled w (w.dial (ws_host ++ (str "/accept?token=" ++ token)))
    sent ← write c result.peer_id
    ok (c, result)

abbrev pub of_type : MessageType → Str → WsMessage
of_type t text = record { msg_type = t; msg = text }

-- `C` is what the adder's service is made from.
abbrev pub Device : Setting → Type 0 → Type 0 → Type 0 → Type 0
Device e P Main C = Endpoint P Main (Party C e.lib)

module _ (e : Setting) {P Main C : Type 0} where
  open e use {a, lib, al}

  unfoldable pub with_service : Device e P Main C → Party C lib → Service C lib → Device e P Main C
  with_service h p service = record h { adder = some (record p { service = service }) }

  unfoldable handled :
      Device e P Main C → Party C lib → Outcome (Service C lib) → Outcome (Device e P Main C)
  unfolding with_service reader_fails
  handled h p (ok service) = ok (with_service h p service)
  handled h p (err x) = ok (reader_fails h x)
  handled h p panic = panic

  -- adder.HandleMessage in the reading goroutine; a nil adder panics.
  unfoldable pub with_message :
      Device e P Main C
      → Option (Party C lib)
      → Outcome (Message lib.M)
      → Outcome (Device e P Main C)
  unfolding handled reader_fails client_add_handle_message
  with_message h (some p) (ok m) = handled h p (client_add_handle_message a lib al p m)
  with_message h none (ok m) = panic
  with_message h q (err x) = ok (reader_fails h x)
  with_message h q panic = panic

  -- The case of a TssMessage.
  unfoldable pub reads_tss : Device e P Main C → WsMessage → Outcome (Device e P Main C)
  unfolding with_message read_tss
  reads_tss h msg =
      if ltb msg.msg_type.msg_stage h.stage
      then ok h
      else with_message h h.adder (read_tss e.unmarshal_json msg.msg)

  unfoldable queue_kept :
      Party C lib → Device e P Main C × Option (PeerManager lib.M lib.Actor) → Device e P Main C
  unfolding with_service
  queue_kept p (h, none) = h
  queue_kept p (h, some pm) = with_service h p (record p.service { pm = pm })

  -- A round of TssSend over adder.GetNextMessageToSendAll.
  unfoldable pub polls_adder :
      Device e P Main C → Option (Party C lib) → Outcome (Unit {0}) → Outcome (Device e P Main C)
  unfolding queue_kept sending client_add_next_all
  polls_adder h none write = ok h
  polls_adder h (some p) write =
      sending e.marshal_json h.sender h
        (λ pm. client_add_next_all a lib al (record p { service = record p.service { pm = pm } }))
        p.service.pm write
      >>= λ r. ok (queue_kept p r)

  -- What the library does through the service.
  unfoldable pub adder_sends :
      Device e P Main C → Option (Party C lib) → Str → Payload lib.M → Device e P Main C
  unfolding with_service
  adder_sends h none to message = h
  adder_sends h (some p) to message =
      with_service h p (record p.service { pm = must_send p.service.pm to message })

  unfoldable pub adder_changes :
      Device e P Main C → Option (Party C lib) → MainState → MainState → Outcome (Device e P Main C)
  unfolding with_service on_state_changed
  adder_changes h none old_state new_state = ok h
  adder_changes h (some p) old_state new_state =
      on_state_changed lib (str "adding failed") p.service old_state new_state >>= λ service.
      ok (with_service h p service)
