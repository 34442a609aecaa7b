-- ===== src/Ws/Endpoint.antt =====
-- What the handlers of server/tss_add.go and the calls of client/tss_add.go have in common: the variables that
-- their goroutines share, the reading goroutine, the goroutine of TssSend, and channels that hold one value.
use meemaw.Prelude.{
  ℕ, Bool, true, ◌||◌, List, [], ◌∷◌, ◌++◌, Option, none, some, Str, Outcome, ok, err, panic,
  GoError, ltb, length, if◌then◌else◌,
}
use meemaw.Encoding.Hex.{Bytes}
use meemaw.Tss.PeerManager.{Message}
use meemaw.Ws.{WsMessage, Round, stops, idles, sends, fails, crashes, tss_send_round}

-- At wsjson.Read, waiting or working inside a case of the `switch`, or it has returned.
pub data Reader (P : Type 0) : Type 0 where
  reading : Reader P
  inside : P → Reader P
  returned : Reader P

pub data Sender : Type 0 where
  not_started polling stopped : Sender

-- `P` are the places inside the reading goroutine, `Main` those of the function itself, and `A` is
-- the adder that the variable `adder` holds, if it is not nil.
pub record Endpoint (P Main A : Type 0) : Type 0 where
  pub reader : Reader P
  pub sender : Sender
  pub main : Main
  pub stage : ℕ
  pub new_client_peer_id : Str
  pub existing_client_peer_id : Str
  pub metadata : Str
  pub adder : Option A
  pub server_done : Bool  -- the channel is closed
  pub cancelled : Bool  -- ctx.Err() == context.Canceled
  pub errs : List GoError
  pub written : List WsMessage

-- One step of one of the goroutines. `write` is what a write on the connection gives, if the step has
-- one; a read fails quietly when the context was cancelled or the connection closed; `ends` is the
-- end of the minute that TssSend has.
pub data Turn : Type 0 where
  reads : WsMessage → Turn
  read_ends ends cancels starts : Turn
  read_fails : GoError → Turn
  goes polls runs : Outcome (Unit {0}) → Turn

module _ {P Main A : Type 0} where
  -- `errs <- err` and `return` in the reading goroutine. Two errors have room, and there is a third one only
  -- where nothing takes from the channel any more: the goroutine then stays at `errs <-` instead.
  unfoldable pub reader_fails : Endpoint P Main A → GoError → Endpoint P Main A
  reader_fails h x = record h { errs = h.errs ++ x ∷ []; reader = returned }

  -- A write in the reading goroutine, which goes on at `next`.
  unfoldable pub writes :
      Endpoint P Main A → WsMessage → Reader P → Outcome (Unit {0}) → Outcome (Endpoint P Main A)
  unfolding reader_fails
  writes h msg next (ok u) = ok (record h { written = h.written ++ msg ∷ []; reader = next })
  writes h msg next (err x) = ok (reader_fails h x)
  writes h msg next panic = panic

  -- The messages whose stage has passed are discarded.
  unfoldable pub unless_past : WsMessage → Endpoint P Main A → Endpoint P Main A → Endpoint P Main A
  unless_past msg h h' = if ltb msg.msg_type.msg_stage h.stage then h else h'

  unfoldable pub while_reading :
      Reader P → Endpoint P Main A → Outcome (Endpoint P Main A) → Outcome (Endpoint P Main A)
  while_reading reading h next = next
  while_reading (inside p) h next = ok h
  while_reading returned h next = ok h

  unfoldable pub ends_sending : Sender → Endpoint P Main A → Endpoint P Main A
  ends_sending polling h = record h { sender = stopped }
  ends_sending not_started h = h
  ends_sending stopped h = h

  -- What one round of TssSend leaves, with the queue after it, if it took from the queue.
  unfoldable pub sent :
      {S : Type 0}
      → Endpoint P Main A
      → Round S
      → Outcome (Unit {0})
      → Outcome (Endpoint P Main A × Option S)
  sent h stops write = ok (record h { sender = stopped }, none)
  sent h (idles s) write = ok (h, some s)
  sent h (sends msg s) (ok u) = ok (record h { written = h.written ++ msg ∷ [] }, some s)
  sent h (sends msg s) (err x) = ok (record h { errs = h.errs ++ x ∷ []; sender = stopped }, some s)
  sent h (sends msg s) panic = panic
  sent h (fails x s) write = ok (record h { errs = h.errs ++ x ∷ []; sender = stopped }, some s)
  sent h crashes write = panic

  unfoldable pub sending :
      {S M : Type 0}
      → (Message M → Outcome Bytes)
      → Sender
      → Endpoint P Main A
      → (S → Outcome (Message M × S))
      → S
      → Outcome (Unit {0})
      → Outcome (Endpoint P Main A × Option S)
  unfolding sent tss_send_round
  sending marshal_json polling h get_next s write =
      sent h (tss_send_round marshal_json (h.cancelled || h.server_done) get_next s) write
  sending marshal_json not_started h get_next s write = ok (h, none)
  sending marshal_json stopped h get_next s write = ok (h, none)

  -- A return before the end: the deferred calls cancel the context.
  unfoldable pub gives_up : Main → Endpoint P Main A → Endpoint P Main A
  gives_up failed h = record h { main = failed; cancelled = true }

  -- ProcessErrors, and `stage = 40` where it finds none.
  unfoldable pub checked :
      Main
      → (GoError → Main)
      → Endpoint P Main A
      → Outcome (Unit {0}) × List GoError
      → Outcome (Endpoint P Main A)
  unfolding gives_up
  checked next failed h (ok u, errs) = ok (record h { main = next; stage = 40; errs = errs })
  checked next failed h (err x, errs) = ok (gives_up (failed x) (record h { errs = errs }))
  checked next failed h (panic, errs) = panic

  -- `errs <- err`, on a channel that holds two, and then a return. Nothing takes from it any more.
  unfoldable pub reports : Main → Main → Endpoint P Main A → GoError → Endpoint P Main A
  unfolding gives_up
  reports failed blocked h x =
      if ltb (length h.errs) 2
      then gives_up failed (record h { errs = h.errs ++ x ∷ [] })
      else record h { main = blocked }
