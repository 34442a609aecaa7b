-- ===== src/Tss/Actors/Relay.antt =====
-- AdderGenericHandle (utils/tss/serviceAdd.go): the server passes the messages between two devices on.
use meemaw.Prelude.{
  ◌≡◌, ◌≢◌, refl, sym, ◌∙◌, List, [], ◌∷◌, ◌++◌, false, Str, str_eq_refl, str_eq_ne, is_empty, ok,
}
use meemaw.Encoding.Hex.{Bytes, IsBytes, encode, decode-encode}
use meemaw.Tss.PeerManager.{
  proto, hex_text, Message, PeerManager, must_send, marshal_payload, handle_message,
  get_next_message_to_send_all, get_next_message_to_send_peer,
}
use meemaw.Tss.PeerManager.Queue.{pending, pending-must_send}
use meemaw.Tss.PeerManager.Fifo.{Took, next_peer_takes_oldest}
use meemaw.Tss.Service.{Library, Service, handle, receive}
use meemaw.Tss.Service.Lifecycle.{Registered}
use meemaw.Tss.Actors.{server_id, decode_message, adder_generic_handle}

module _ {Out : Type 0} (lib : Library Out) where
  -- A library message as it travels: the peer it is for and the hex text of its bytes.
  abbrev pub wire : Str → Bytes → Message lib.M
  wire peer_id bs = record { peer_id = peer_id; message = hex_text (encode bs) }

  decode_message-wire :
      (peer_id : Str) (bs : Bytes) (m : lib.M)
      → IsBytes bs
      → lib.unmarshal bs ≡ ok m
      → decode_message lib (wire peer_id bs) ≡ ok m
  unfolding decode_message
  decode_message-wire peer_id bs m b u = rw (decode-encode bs b) u

module _ {C Out : Type 0} (lib : Library Out) where
  handled_by_other :
      (p : Service C lib) (to own_id : Str) (bs : Bytes) (m : lib.M)
      → IsBytes bs
      → lib.unmarshal bs ≡ ok m
      → to ≢ own_id
      → adder_generic_handle lib (wire lib to bs) p own_id
        ≡ ok (record p { pm = must_send p.pm to (proto m) })
  unfolding adder_generic_handle
  handled_by_other p to own_id bs m b u ne =
      rw (decode_message-wire lib to bs m b u, str_eq_ne to own_id ne) refl

  handled_by_self :
      (p : Service C lib) (own_id : Str) (bs : Bytes) (m : lib.M) (actor : lib.Actor)
      → IsBytes bs
      → lib.unmarshal bs ≡ ok m
      → Registered lib p
      → lib.add_message p.actor m ≡ ok actor
      → adder_generic_handle lib (wire lib own_id bs) p own_id ≡ ok (record p { actor = actor })
  unfolding adder_generic_handle receive handle_message handle
  handled_by_self p own_id bs m actor b u reg h =
      rw (decode_message-wire lib own_id bs m b u, str_eq_refl own_id, reg, handle_message, h) refl

  -- A message for another peer is queued for that peer, behind what waits there, and nothing else of
  -- the service changes: a message that is not for the server does not reach its process.
  pub adder_relays :
      (p : Service C lib) (to own_id : Str) (bs : Bytes) (m : lib.M)
      → IsBytes bs
      → lib.unmarshal bs ≡ ok m
      → to ≢ own_id
      → (pm : PeerManager lib.M lib.Actor) × (adder_generic_handle lib (wire lib to bs) p own_id
          ≡ ok (record p { pm = pm }))
        × (pending to pm.outward_messages
            ≡ pending to p.pm.outward_messages ++ record { peer_id = to; message = proto m } ∷ [])
        × ((other_id : Str)
            → other_id ≢ to
            → pending other_id pm.outward_messages ≡ pending other_id p.pm.outward_messages)
  adder_relays p to own_id bs m b u ne = (
    must_send p.pm to (proto m),
    handled_by_other p to own_id bs m b u ne,
    pending-must_send p.pm to to (proto m) ∙ rw (str_eq_refl to) refl,
    λ other_id other.
        pending-must_send p.pm to other_id (proto m)
        ∙ rw (str_eq_ne to other_id (λ e. other (sym e))) refl,
  )

-- A message that one device has for the other reaches the other's process through the server: fetched
-- by the sender, handled by the server, fetched from the server's queue for the receiver, and handled
-- by the receiver, it is the same library message, and the server's own process never sees it. The
-- bytes of the message are read back by proto.Unmarshal, and nothing else waits for the receiver.
pub relay_end_to_end :
    {C D Out : Type 0} (lib : Library Out) (sender : PeerManager lib.M lib.Actor)
    (server : Service C lib) (receiver : Service D lib) (to : Str) (m : lib.M) (bs : Bytes)
    (rest : List (Message lib.M)) (actor : lib.Actor)
    → sender.outward_messages ≡ record { peer_id = to; message = proto m } ∷ rest
    → lib.marshal m ≡ ok bs
    → lib.unmarshal bs ≡ ok m
    → IsBytes bs
    → is_empty to ≡ false
    → to ≢ server_id
    → pending to server.pm.outward_messages ≡ []
    → Registered lib receiver
    → lib.add_message receiver.actor m ≡ ok actor
    → (pm pm' : PeerManager lib.M lib.Actor) × (get_next_message_to_send_all lib.marshal sender
        ≡ ok (wire lib to bs, record sender { outward_messages = rest }))
      × (adder_generic_handle lib (wire lib to bs) server server_id
          ≡ ok (record server { pm = pm }))
      × (get_next_message_to_send_peer lib.marshal pm to ≡ ok (wire lib to bs, pm'))
      × Took to pm pm' []
      × (adder_generic_handle lib (wire lib to bs) receiver to
          ≡ ok (record receiver { actor = actor }))
relay_end_to_end lib sender server receiver to m bs rest actor out enc dec b named ne idle reg h =
    let (pm, handled, queued, _) = adder_relays lib server to server_id bs m b dec ne in
    let waiting : pending to pm.outward_messages ≡ record { peer_id = to; message = proto m } ∷ [] =
      queued ∙ rw idle refl in
    let (pm', fetched, took) =
      next_peer_takes_oldest lib.marshal pm to (record { peer_id = to; message = proto m }) [] bs
        named waiting (unfold marshal_payload in enc) in
    (
      pm,
      pm',
      unfold get_next_message_to_send_all in rw (out, enc) refl,
      handled,
      fetched,
      took,
      handled_by_self lib receiver to bs m actor b dec reg h,
    )
