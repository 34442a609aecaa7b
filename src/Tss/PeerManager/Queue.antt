-- ===== src/Tss/PeerManager/Queue.antt =====
-- The outgoing messages are one first-in-first-out queue for each peer.
use meemaw.Prelude.{
  ◌≡◌, refl, ◌∙◌, ap, ◌≢◌, Bool, false, List, [], ◌∷◌, ◌++◌, Option, none, some, arith, Str, str_eq,
  str_eq_iff, is_empty, if◌then◌else◌, Bool-cases, select, select-append, append_assoc, append-nil,
  inl, inr, Outcome, ok, err, panic,
}
use meemaw.Encoding.Hex.{Bytes}
use meemaw.Tss.PeerManager.{
  Payload, Message, PeerManager, must_send, no_msg, marshal_payload, hex_message, with_queue,
  scan_peer, get_next_message_to_send_peer,
}

-- The messages that wait for a peer, oldest first.
pub is_for : {M : Type 0} → Str → Message M → Bool
is_for peer_id m = str_eq m.peer_id peer_id

unfoldable pub pending : {M : Type 0} → Str → List (Message M) → List (Message M)
unfolding is_for select
pending peer_id = select (is_for peer_id)

-- The first message for a peer, and the queue without it.
unfoldable pub take_first :
    {M : Type 0} → Str → List (Message M) → Option (Message M × List (Message M))
take_first peer_id [] = none
take_first peer_id (el ∷ rest) =
    if str_eq el.peer_id peer_id
    then some (el, rest)
    else elim (take_first peer_id rest) [ none ↦ none | some (m, out) ↦ some (m, el ∷ out) ]

module _ {M A : Type 0} where
  -- Sending to one peer adds the message at the end of that peer's queue and of no other.
  pub pending-must_send :
      (p : PeerManager M A) (to peer_id : Str) (message : Payload M)
      → pending peer_id (must_send p to message).outward_messages ≡ (
          if str_eq to peer_id
          then pending peer_id p.outward_messages ++ record { peer_id = to; message = message } ∷ []
          else pending peer_id p.outward_messages)
  unfolding pending must_send
  pending-must_send p to peer_id message =
      rw select-append (ground (arith, append-nil (select (is_for peer_id) p.outward_messages)))

module _ {M : Type 0} where
  -- The peer's queue as `take_first` sees it.
  abbrev pub head_then : Str → Option (Message M × List (Message M)) → List (Message M)
  head_then peer_id none = []
  head_then peer_id (some (m, out)) = m ∷ pending peer_id out

  abbrev pub queue_after :
      List (Message M) → Option (Message M × List (Message M)) → List (Message M)
  queue_after queue none = queue
  queue_after queue (some (m, out)) = out

  pub pending-take_first :
      (peer_id : Str) (queue : List (Message M))
      → pending peer_id queue ≡ head_then peer_id (take_first peer_id queue)
  unfolding take_first pending
  pending-take_first peer_id [] = refl
  pending-take_first peer_id (el ∷ rest) = ground (arith, pending-take_first peer_id rest)

  pub pending-queue_after :
      (peer_id other_id : Str) (queue : List (Message M))
      → other_id ≢ peer_id
      → pending other_id (queue_after queue (take_first peer_id queue)) ≡ pending other_id queue
  unfolding take_first pending
  pending-queue_after peer_id other_id [] ne = refl
  pending-queue_after peer_id other_id (el ∷ rest) ne = ground (
    arith,
    pending-queue_after peer_id other_id rest,
    str_eq_iff el.peer_id peer_id,
    str_eq_iff el.peer_id other_id,
  )

abbrev pub with_kept {ℓ κ} : {A : Type ℓ} {Q : Type κ} → Q → Outcome A → Outcome (A × Q)
with_kept q (ok a) = ok (a, q)
with_kept q (err e) = err e
with_kept q panic = panic

module _ {M : Type 0} (marshal : M → Outcome Bytes) where
  -- What a call for one peer is meant to do: hand over the first message for the peer.
  abbrev pub deliver :
      List (Message M)
      → List (Message M)
      → Option (Message M × List (Message M))
      → Outcome (Message M × List (Message M))
  deliver out queue none = ok (no_msg, out ++ queue)
  deliver out queue (some (el, rest)) =
      with_kept (out ++ rest) (hex_message marshal el.peer_id (marshal_payload marshal el.message))

  scan_peer_found :
      (peer_id : Str) (queue : List (Message M)) (next : Message M) (out : List (Message M))
      → is_empty next.peer_id ≡ false
      → scan_peer marshal peer_id queue next out ≡ ok (next, out ++ queue)
  unfolding scan_peer
  scan_peer_found peer_id [] next out h = rw append-nil
  scan_peer_found peer_id (el ∷ rest) next out h =
      ground
        (arith, scan_peer_found peer_id rest next (out ++ el ∷ []), append_assoc out (el ∷ []) rest)

  scan_after_hit :
      (peer_id : Str) (queue out : List (Message M)) (r : Outcome Bytes)
      → is_empty peer_id ≡ false
      → ◌≡◌ {A = Outcome (Message M × List (Message M))}
          (elim (hex_message marshal peer_id r) [
            | ok m ↦ scan_peer marshal peer_id queue m out
            | err e ↦ err e
            | panic ↦ panic
          ])
          (with_kept (out ++ queue) (hex_message marshal peer_id r))
  unfolding hex_message
  scan_after_hit peer_id queue out (ok bs) h = scan_peer_found peer_id queue _ out h
  scan_after_hit peer_id queue out (err e) h = refl
  scan_after_hit peer_id queue out panic h = refl

  -- Skipping a message of another peer moves it to the front of what is kept.
  deliver-skip :
      (el : Message M) (out rest : List (Message M)) (o : Option (Message M × List (Message M)))
      → deliver (out ++ el ∷ []) rest o
        ≡ deliver out (el ∷ rest) (elim o [ none ↦ none | some (m, kept) ↦ some (m, el ∷ kept) ])
  deliver-skip el out rest none = ground (arith, append_assoc out (el ∷ []) rest)
  deliver-skip el out rest (some (m, kept)) = rw (append_assoc out (el ∷ []) kept)

  scan_peer-deliver :
      (peer_id : Str) (queue out : List (Message M))
      → is_empty peer_id ≡ false
      → scan_peer marshal peer_id queue no_msg out ≡ deliver out queue (take_first peer_id queue)
  unfolding scan_peer take_first
  scan_peer-deliver peer_id [] out h = rw append-nil
  scan_peer-deliver peer_id (el ∷ rest) out h = elim (Bool-cases (str_eq el.peer_id peer_id)) [
    | inl here ↦
        let e : el.peer_id ≡ peer_id = (str_eq_iff el.peer_id peer_id).0 here in
        rw (here, scan_peer)
          (rw e (scan_after_hit peer_id rest out (marshal_payload marshal el.message) h))
    | inr there ↦
        rw (there, scan_peer)
          (scan_peer-deliver peer_id rest (out ++ el ∷ []) h
            ∙ deliver-skip el out rest (take_first peer_id rest))
  ]

-- One call for a peer, as a whole: the reference semantics of GetNextMessageToSendPeer.
pub with_queue-deliver :
    {M A : Type 0} (marshal : M → Outcome Bytes) (p : PeerManager M A) (peer_id : Str)
    → is_empty peer_id ≡ false
    → get_next_message_to_send_peer marshal p peer_id
      ≡ with_queue p (deliver marshal [] p.outward_messages (take_first peer_id p.outward_messages))
unfolding get_next_message_to_send_peer
with_queue-deliver marshal p peer_id h =
    ap (with_queue p) (scan_peer-deliver marshal peer_id p.outward_messages [] h)
