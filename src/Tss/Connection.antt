-- ===== src/Tss/Connection.antt =====
-- Receive, Send and stringToMsg (utils/tss/tssManager.go): the two goroutines that join a TSS process to a
-- websocket. A turn is one round of a loop. The context and the connection are parameters.
pub mod Turns
pub mod Kept
use meemaw.Prelude.{
  ℕ, Bool, true, false, List, [], ◌∷◌, ◌++◌, Str, str, is_empty, if◌then◌else◌, Outcome, ok, err,
  panic, ◌>>=◌, GoError, ◌==◌,
}
use meemaw.Encoding.Hex.{Bytes, encode, decode}

-- The interface GenericTSS, over what a service and its manager hold. An empty slice of bytes stands for nil.
pub record GenericTss (S M : Type 0) : Type 0 where
  pub next : S → Outcome (Bytes × S)
  pub handle_message : S → M → Outcome S
  pub dkg_or_sign : ℕ

-- proto.Unmarshal into the messages of the two kinds of process.
pub record Messages (M : Type 0) : Type 0 where
  pub unmarshal_dkg : Bytes → Outcome M
  pub unmarshal_sign : Bytes → Outcome M

pub record Connection (S : Type 0) : Type 0 where
  pub tss : S
  pub receiving : Bool
  pub sending : Bool
  pub errs : List GoError
  pub written : List Str

module _ {S M : Type 0} (messages : Messages M) (t : GenericTss S M) where
  message_of : ℕ → Bytes → Outcome M
  message_of kind bytes =
      if kind == 1
      then messages.unmarshal_dkg bytes
      else if kind == 2
      then messages.unmarshal_sign bytes
      else err (GoError.text (str "unrecognized tss type"))

  unfoldable pub string_to_msg : Str → ℕ → Outcome M
  unfolding message_of
  string_to_msg input kind = decode input >>= message_of kind

  stops_receiving : Connection S → GoError → Connection S
  stops_receiving c e = record c { errs = c.errs ++ e ∷ []; receiving = false }

  handled : Connection S → Outcome S → Outcome (Connection S)
  unfolding stops_receiving
  handled c (ok s) = ok (record c { tss = s })
  handled c (err e) = ok (stops_receiving c e)
  handled c panic = panic

  after_read : Connection S → Outcome Str → Outcome (Connection S)
  unfolding handled stops_receiving
  after_read c (ok v) = handled c (string_to_msg v t.dkg_or_sign >>= λ m. t.handle_message c.tss m)
  after_read c (err e) = ok (stops_receiving c e)
  after_read c panic = panic

  -- One round of Receive, with what the read gives; `done` says that the context is done.
  unfoldable pub receive_turn : Bool → Outcome Str → Connection S → Outcome (Connection S)
  unfolding after_read
  receive_turn done read c =
      if c.receiving
      then (if done then ok (record c { receiving = false }) else after_read c read)
      else ok c

  stops_sending : Connection S → GoError → Connection S
  stops_sending c e = record c { errs = c.errs ++ e ∷ []; sending = false }

  after_write : Connection S → Str → Outcome (Unit {0}) → Outcome (Connection S)
  unfolding stops_sending
  after_write c text (ok u) = ok (record c { written = c.written ++ text ∷ [] })
  after_write c text (err e) = ok (stops_sending c e)
  after_write c text panic = panic

  after_next : Connection S → Outcome (Unit {0}) → Outcome (Bytes × S) → Outcome (Connection S)
  unfolding after_write stops_sending
  after_next c write (ok (msg, s)) =
      if is_empty msg
      then ok (record c { tss = s })
      else after_write (record c { tss = s }) (encode msg) write
  after_next c write (err e) = ok (stops_sending c e)
  after_next c write panic = panic

  -- One round of Send, with what the write gives, if there is one.
  unfoldable pub send_turn : Bool → Outcome (Unit {0}) → Connection S → Outcome (Connection S)
  unfolding after_next
  send_turn done write c =
      if c.sending
      then (if done then ok (record c { sending = false }) else after_next c write (t.next c.tss))
      else ok c

-- The turns of the two goroutines in any order.
pub data Turn : Type 0 where
  receives : Bool → Outcome Str → Turn
  sends : Bool → Outcome (Unit {0}) → Turn

module _ {S M : Type 0} (messages : Messages M) (t : GenericTss S M) where
  unfoldable pub turn : Connection S → Turn → Outcome (Connection S)
  unfolding receive_turn send_turn
  turn c (receives done read) = receive_turn messages t done read c
  turn c (sends done write) = send_turn messages t done write c

  unfoldable pub turns : Connection S → List Turn → Outcome (Connection S)
  turns c [] = ok c
  turns c (x ∷ xs) = turn c x >>= λ c'. turns c' xs

abbrev pub opened : {S : Type 0} → S → Connection S
opened s = record { tss = s; receiving = true; sending = true; errs = []; written = [] }
