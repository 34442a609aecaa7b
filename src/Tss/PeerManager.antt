-- ===== src/Tss/PeerManager.antt =====
-- utils/tss/peerManager.go: the peers of a TSS actor and its queue of outgoing messages. Each method
-- runs under the mutex, so a call is one step here. `M` is the type of the protobuf messages of the
-- TSS library, `marshal` is proto.Marshal, and `A` is the state that the registered handler works on.
pub mod Queue
pub mod Fifo
use meemaw.Prelude.{
  ℕ, ◌%◌, ◌^◌, Bool, true, false, ◌&&◌, List, [], ◌∷◌, ◌++◌, map, Option, none, some, Str, str,
  str_eq, is_empty, Dict, insert, length, if◌then◌else◌, Outcome, ok, err, panic, GoError,
}
use meemaw.Encoding.Hex.{Bytes, encode}

-- What an `interface{}` payload holds: a protobuf message, a string, nothing, or something else.
pub data Payload (M : Type 0) : Type 0 where
  proto : M → Payload M
  hex_text : Str → Payload M
  nothing other : Payload M

pub record Message (M : Type 0) : Type 0 where
  pub peer_id : Str
  pub message : Payload M

pub record PeerManager (M A : Type 0) : Type 0 where
  pub id : Str
  pub peers : Dict Bool
  pub handle_message_function : Option (A → M → Outcome A)
  pub outward_messages : List (Message M)

abbrev pub invalid_proto : GoError
invalid_proto = GoError.text (str "invalid proto message")

abbrev pub no_message : GoError
no_message = GoError.text (str "no message to be sent")

-- `Message{}`.
abbrev pub no_msg : {M : Type 0} → Message M
no_msg = record { peer_id = []; message = nothing }

module _ {M A : Type 0} where
  unfoldable pub new_peer_manager : Str → PeerManager M A
  new_peer_manager id = record {
    id = id;
    peers = [];
    handle_message_function = none;
    outward_messages = [];
  }

  unfoldable pub num_peers : PeerManager M A → ℕ
  num_peers p = length p.peers % 2 ^ 32

  unfoldable pub self_id : PeerManager M A → Str
  self_id p = p.id

  unfoldable pub peer_ids : PeerManager M A → List Str
  peer_ids p = map (λ e. e.0) p.peers

  unfoldable pub must_send : PeerManager M A → Str → Payload M → PeerManager M A
  must_send p peer_id message = record p {
    outward_messages = p.outward_messages ++ record { peer_id = peer_id; message = message } ∷ [];
  }

  unfoldable pub add_peer : PeerManager M A → Str → PeerManager M A
  add_peer p peer_id = record p { peers = insert peer_id true p.peers }

  unfoldable pub register_handle_message : PeerManager M A → (A → M → Outcome A) → PeerManager M A
  register_handle_message p handle_func = record p { handle_message_function = some handle_func }

  -- A call of a nil function panics.
  unfoldable pub handle_message : PeerManager M A → A → M → Outcome A
  handle_message p state msg = elim p.handle_message_function [
    | none ↦ panic
    | some f ↦ f state msg
  ]

module _ {M : Type 0} (marshal : M → Outcome Bytes) where
  -- The type assertion to proto.Message, then proto.Marshal.
  unfoldable pub marshal_payload : Payload M → Outcome Bytes
  marshal_payload (proto m) = marshal m
  marshal_payload _ = err invalid_proto

  pub hex_message : Str → Outcome Bytes → Outcome (Message M)
  hex_message peer_id (ok bs) = ok (record { peer_id = peer_id; message = hex_text (encode bs) })
  hex_message peer_id (err e) = err e
  hex_message peer_id panic = panic

  -- The loop of GetNextMessageToSendPeer over `nextMsg` and `newOutwardMessages`.
  pub scan_peer :
      Str → List (Message M) → Message M → List (Message M) → Outcome (Message M × List (Message M))
  scan_peer peer_id [] next out = ok (next, out)
  scan_peer peer_id (el ∷ rest) next out =
      elim (str_eq el.peer_id peer_id && is_empty next.peer_id) [
        | true ↦ elim (hex_message el.peer_id (marshal_payload el.message)) [
          | ok m ↦ scan_peer peer_id rest m out
          | err e ↦ err e
          | panic ↦ panic
        ]
        | false ↦ scan_peer peer_id rest next (out ++ el ∷ [])
      ]

  -- The loop of GetNextMessageToSend: what is found are raw bytes, and empty bytes count as not found.
  pub scan_bytes :
      Str → List (Message M) → Bytes → List (Message M) → Outcome (Bytes × List (Message M))
  scan_bytes peer_id [] next out = ok (next, out)
  scan_bytes peer_id (el ∷ rest) next out = elim (str_eq el.peer_id peer_id && is_empty next) [
    | true ↦ elim (marshal_payload el.message) [
      | ok bs ↦ scan_bytes peer_id rest bs out
      | err e ↦ err e
      | panic ↦ panic
    ]
    | false ↦ scan_bytes peer_id rest next (out ++ el ∷ [])
  ]

module _ {M A : Type 0} where
  after_first :
      PeerManager M A
      → List (Message M)
      → Outcome (Message M)
      → Outcome (Message M × PeerManager M A)
  after_first p rest (ok m) = ok (m, record p { outward_messages = rest })
  after_first p rest (err e) = err e
  after_first p rest panic = panic

  pub with_queue :
      {B : Type 0}
      → PeerManager M A
      → Outcome (B × List (Message M))
      → Outcome (B × PeerManager M A)
  with_queue p (ok (b, out)) = ok (b, record p { outward_messages = out })
  with_queue p (err e) = err e
  with_queue p panic = panic

module _ {M A : Type 0} (marshal : M → Outcome Bytes) where
  -- GetNextMessageToSendAll. On an error the queue is as it was, so the caller keeps its manager.
  next_all : PeerManager M A → List (Message M) → Outcome (Message M × PeerManager M A)
  next_all p [] = err no_message
  next_all p (ret ∷ rest) =
      after_first p rest (hex_message marshal ret.peer_id (marshal_payload marshal ret.message))

  unfoldable pub get_next_message_to_send_all :
      PeerManager M A → Outcome (Message M × PeerManager M A)
  unfolding next_all hex_message after_first marshal_payload
  get_next_message_to_send_all p = next_all p p.outward_messages

  unfoldable pub get_next_message_to_send_peer :
      PeerManager M A → Str → Outcome (Message M × PeerManager M A)
  unfolding scan_peer with_queue hex_message marshal_payload
  get_next_message_to_send_peer p peer_id =
      with_queue p (scan_peer marshal peer_id p.outward_messages no_msg [])

  unfoldable pub get_next_message_to_send :
      PeerManager M A → Str → Outcome (Bytes × PeerManager M A)
  unfolding scan_bytes with_queue marshal_payload
  get_next_message_to_send p peer_id =
      with_queue p (scan_bytes marshal peer_id p.outward_messages [] [])
