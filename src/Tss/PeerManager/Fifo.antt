-- ===== src/Tss/PeerManager/Fifo.antt =====
-- What the three ways of fetching the next outgoing message do (utils/tss/peerManager.go), in terms
-- of the queue of each peer.
use meemaw.Prelude.{
  ◌≡◌, refl, ◌∙◌, sym, ap, ◌≢◌, Bool, true, false, List, [], ◌∷◌, ◌++◌, Option, none, some, arith,
  Str, str_eq, str_eq_iff, str_eq_refl, is_empty, Option-cases, inl, inr, Outcome, ok, err, GoError,
}
use meemaw.Encoding.Hex.{Bytes, encode}
use meemaw.Tss.PeerManager.{
  Payload, hex_text, Message, PeerManager, no_msg, must_send, marshal_payload, hex_message,
  with_queue, get_next_message_to_send_peer,
}
use meemaw.Tss.PeerManager.Queue.{
  pending, take_first, head_then, queue_after, pending-take_first, pending-queue_after,
  with_queue-deliver, with_kept, pending-must_send,
}

-- One message of the peer's queue was taken, and nothing else of the manager changed.
pub record Took {M A : Type 0} (peer_id : Str) (p p' : PeerManager M A) (waiting : List (Message M))
    : Type 0 where
  pub rest : pending peer_id p'.outward_messages ≡ waiting
  pub others :
      (other_id : Str)
      → other_id ≢ peer_id
      → pending other_id p'.outward_messages ≡ pending other_id p.outward_messages
  pub same_id : p'.id ≡ p.id
  pub same_peers : p'.peers ≡ p.peers
  pub same_handler : p'.handle_message_function ≡ p.handle_message_function

module _ {M : Type 0} where
  take_first_waiting :
      (peer_id : Str) (queue waiting : List (Message M)) (el : Message M)
      → pending peer_id queue ≡ el ∷ waiting
      → (out : List (Message M)) × (take_first peer_id queue ≡ some (el, out))
        × (pending peer_id out ≡ waiting)
  take_first_waiting peer_id queue waiting el h = elim (Option-cases (take_first peer_id queue)) [
    | inl e ↦ absurd (cc (h, pending-take_first peer_id queue, ap (head_then peer_id) e))
    | inr ((m, out), e) ↦
        let both : m ∷ pending peer_id out ≡ el ∷ waiting =
          sym (ap (head_then peer_id) e) ∙ sym (pending-take_first peer_id queue) ∙ h in
        let same : m ≡ el = cc both in (out, e ∙ ap (λ x. some (x, out)) same, cc both)
  ]

  take_first_idle :
      (peer_id : Str) (queue : List (Message M))
      → pending peer_id queue ≡ []
      → take_first peer_id queue ≡ none
  take_first_idle peer_id queue h = elim (Option-cases (take_first peer_id queue)) [
    | inl e ↦ e
    | inr ((m, out), e) ↦
        absurd (cc (h, pending-take_first peer_id queue, ap (head_then peer_id) e))
  ]

  abbrev found_for : Str → Option (Message M × List (Message M)) → Bool
  found_for peer_id none = true
  found_for peer_id (some (m, out)) = str_eq m.peer_id peer_id

  take_first-found_for :
      (peer_id : Str) (queue : List (Message M))
      → found_for peer_id (take_first peer_id queue) ≡ true
  unfolding take_first
  take_first-found_for peer_id [] = refl
  take_first-found_for peer_id (m ∷ queue) = ground (arith, take_first-found_for peer_id queue)

  take_first-peer_id :
      (peer_id : Str) (queue : List (Message M)) (el : Message M) (out : List (Message M))
      → take_first peer_id queue ≡ some (el, out)
      → el.peer_id ≡ peer_id
  take_first-peer_id peer_id queue el out h =
      (str_eq_iff el.peer_id peer_id).0
        (sym (ap (found_for peer_id) h) ∙ take_first-found_for peer_id queue)

  others_kept :
      (peer_id other_id : Str) (queue out : List (Message M)) (el : Message M)
      → take_first peer_id queue ≡ some (el, out)
      → other_id ≢ peer_id
      → pending other_id out ≡ pending other_id queue
  others_kept peer_id other_id queue out el e ne =
      ap (λ o. pending other_id (queue_after queue o)) (sym e)
      ∙ pending-queue_after peer_id other_id queue ne

blocked_head :
    {M A : Type 0} (marshal : M → Outcome Bytes) (p : PeerManager M A) (peer_id : Str)
    (el : Message M) (waiting : List (Message M)) (e : GoError)
    → is_empty peer_id ≡ false
    → pending peer_id p.outward_messages ≡ el ∷ waiting
    → marshal_payload marshal el.message ≡ err e
    → get_next_message_to_send_peer marshal p peer_id ≡ err e
blocked_head marshal p peer_id el waiting e named h bad =
    let (out, found, rest) = take_first_waiting peer_id p.outward_messages waiting el h in
    with_queue-deliver marshal p peer_id named
    ∙ rw (found, with_kept, bad) (unfold with_queue hex_message in refl)

module _ {M A : Type 0} (marshal : M → Outcome Bytes) (p : PeerManager M A) (peer_id : Str) where
  -- If a message waits for the peer and can be marshalled, GetNextMessageToSendPeer returns the oldest
  -- one, hex-encoded, takes it off the peer's queue, and changes nothing else of the manager.
  pub next_peer_takes_oldest :
      (el : Message M) (waiting : List (Message M)) (bs : Bytes)
      → is_empty peer_id ≡ false
      → pending peer_id p.outward_messages ≡ el ∷ waiting
      → marshal_payload marshal el.message ≡ ok bs
      → (p' : PeerManager M A) × (get_next_message_to_send_peer marshal p peer_id
          ≡ ok (record { peer_id = peer_id; message = hex_text (encode bs) }, p'))
        × Took peer_id p p' waiting
  next_peer_takes_oldest el waiting bs named h enc =
      let (out, found, rest) = take_first_waiting peer_id p.outward_messages waiting el h in
      (
        record p { outward_messages = out },
        with_queue-deliver marshal p peer_id named
            ∙ rw (found, enc, take_first-peer_id peer_id p.outward_messages el out found)
                (unfold with_queue hex_message in refl),
        record {
          rest = rest;
          others = λ other_id ne. others_kept peer_id other_id p.outward_messages out el found ne;
          same_id = refl;
          same_peers = refl;
          same_handler = refl;
        },
      )

  -- With no message for the peer GetNextMessageToSendPeer returns the empty message and changes
  -- nothing.
  pub next_peer_idle :
      is_empty peer_id ≡ false
      → pending peer_id p.outward_messages ≡ []
      → get_next_message_to_send_peer marshal p peer_id ≡ ok (no_msg, p)
  next_peer_idle named h =
      with_queue-deliver marshal p peer_id named
      ∙ rw (take_first_idle peer_id p.outward_messages h) (unfold with_queue in refl)

  -- If the oldest message for the peer cannot be marshalled, GetNextMessageToSendPeer returns that
  -- error whatever else waits for the peer, and still does after any further message was sent to it.
  pub next_peer_blocked :
      (el : Message M) (waiting : List (Message M)) (e : GoError) (later : Payload M)
      → is_empty peer_id ≡ false
      → pending peer_id p.outward_messages ≡ el ∷ waiting
      → marshal_payload marshal el.message ≡ err e
      → (get_next_message_to_send_peer marshal p peer_id ≡ err e)
        × (get_next_message_to_send_peer marshal (must_send p peer_id later) peer_id ≡ err e)
  next_peer_blocked el waiting e later named h bad = (
    blocked_head marshal p peer_id el waiting e named h bad,
    blocked_head marshal (must_send p peer_id later) peer_id el
        (waiting ++ record { peer_id = peer_id; message = later } ∷ []) e named
        (pending-must_send p peer_id peer_id later ∙ rw (str_eq_refl peer_id, h) refl) bad,
  )
