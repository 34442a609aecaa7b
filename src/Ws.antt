-- ===== src/Ws.antt =====
-- utils/ws/ws.go: the messages between the server and the devices, one round of the loop of TssSend, and
-- ProcessErrors. The websocket and the JSON encoding are parameters.
pub mod Rounds
pub mod Endpoint
pub mod Written
use meemaw.Prelude.{
  ℕ, Bool, true, false, ◌&&◌, ◌||◌, List, [], ◌∷◌, Str, str, str_eq, is_empty, contains, ◌==◌,
  if◌then◌else◌, Outcome, ok, err, panic, ◌>>=◌, GoError,
}
use meemaw.Prelude.Errors.{error_text}
use meemaw.Encoding.Hex.{Bytes, encode, decode}
use meemaw.Tss.PeerManager.{Message, Payload, proto, hex_text, nothing, other}

pub record MessageType : Type 0 where
  pub msg_type : Str
  pub msg_stage : ℕ  -- uint32

-- ws.Message.
pub record WsMessage : Type 0 where
  pub msg_type : MessageType
  pub msg : Str

abbrev of_type : Str → ℕ → MessageType
of_type name stage = record { msg_type = name; msg_stage = stage }

abbrev pub peer_id_broadcast_message : MessageType
peer_id_broadcast_message = of_type (str "peer") 10

abbrev pub device_message : MessageType
device_message = of_type (str "device") 20

abbrev pub pubkey_message : MessageType
pubkey_message = of_type (str "pubkey") 20

abbrev pub pubkey_ack_message : MessageType
pubkey_ack_message = of_type (str "pubkey-ack") 30

abbrev pub metadata_message : MessageType
metadata_message = of_type (str "metadata") 20

abbrev pub metadata_ack_message : MessageType
metadata_ack_message = of_type (str "metadata-ack") 30

abbrev pub tss_message : MessageType
tss_message = of_type (str "tss") 40

abbrev pub tss_done_message : MessageType
tss_done_message = of_type (str "tss-done") 50

abbrev pub everything_stored_client_message : MessageType
everything_stored_client_message = of_type (str "stored-client") 70

abbrev pub existing_device_done_message : MessageType
existing_device_done_message = of_type (str "existing-device-done") 80

abbrev pub new_device_done_message : MessageType
new_device_done_message = of_type (str "new-device-done") 80

abbrev pub error_message : MessageType
error_message = of_type (str "error") 0

-- `==` of two message types, which is how a `switch` on the type compares.
unfoldable pub same_type : MessageType → MessageType → Bool
same_type t u = str_eq t.msg_type u.msg_type && t.msg_stage == u.msg_stage

abbrev pub unexpected : WsMessage
unexpected = record { msg_type = error_message; msg = str "error: Unexpected message type" }

-- The first case of a `switch` that has the type of the message.
unfoldable pub switch : {A : Type 0} → MessageType → List (MessageType × A) → A → A
unfolding same_type
switch t [] default = default
switch t ((u, a) ∷ cases) default =
    let rest = switch t cases default in if same_type t u then a else rest

unfoldable pub is_nil : {M : Type 0} → Payload M → Bool
is_nil nothing = true
is_nil _ = false

-- What one round of TssSend does: it stops, goes on, or sends a message. `S` is what it fetches from.
pub data Round (S : Type 0) : Type 0 where
  stops : Round S
  idles : S → Round S
  sends : WsMessage → S → Round S
  fails : GoError → S → Round S
  crashes : Round S

module _ {M S : Type 0} (marshal_json : Message M → Outcome Bytes) where
  unfoldable encoded : Message M → S → Outcome Bytes → Round S
  encoded m s (ok json) =
      if is_nil m.message
      then idles s
      else sends (record { msg_type = tss_message; msg = encode json }) s
  encoded m s (err e) = fails e s
  encoded m s panic = crashes

  unfoldable fetched : S → Outcome (Message M × S) → Round S
  unfolding encoded
  fetched s (ok (m, s')) = if is_empty m.peer_id then idles s' else encoded m s' (marshal_json m)
  fetched s (err e) =
      if contains (str "no message to be sent") (error_text e) then idles s else fails e s
  fetched s panic = crashes

  -- `done` says that the context or the channel `serverDone` is done.
  unfoldable pub tss_send_round : Bool → (S → Outcome (Message M × S)) → S → Round S
  unfolding fetched
  tss_send_round finished get_next s = if finished then stops else fetched s (get_next s)

-- ProcessErrors takes one error that waits, if any; what it returns, and the errors that are left.
unfoldable pub process_errors :
    (GoError → Bool) → Bool → List GoError → Outcome (Unit {0}) × List GoError
process_errors is_normal_closure cancelled [] = (ok tt, [])
process_errors is_normal_closure cancelled (e ∷ errs) =
    (if is_normal_closure e || cancelled then ok tt else err e, errs)

-- The payload of a TssMessage: hex.DecodeString and json.Unmarshal.
unfoldable pub read_tss : {M : Type 0} → (Bytes → Outcome (Message M)) → Str → Outcome (Message M)
read_tss unmarshal_json text = do bytes ← decode text; unmarshal_json bytes
