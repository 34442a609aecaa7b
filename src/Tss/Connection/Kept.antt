-- ===== src/Tss/Connection/Kept.antt =====
-- What a process does not change, a connection does not change (Receive and Send, utils/tss/tssManager.go).
use meemaw.Prelude.{
  ◌≡◌, refl, false, Str, is_empty, if◌then◌else◌, Outcome, ok, err, panic, ◌>>=◌, Ends, if-Ends,
}
use meemaw.Encoding.Hex.{Bytes, encode}
use meemaw.Tss.Connection.{
  GenericTss, Messages, Connection, string_to_msg, receive_turn, send_turn, after_read, handled,
  after_next, after_write, stops_receiving, stops_sending, Turn, receives, sends, turn,
}

module _ {S M X : Type 0} (messages : Messages M) (t : GenericTss S M) (part : S → X) where
  Same : Connection S → Connection S → Type 0
  Same c c' = part c'.tss ≡ part c.tss

  handled-Same :
      (c : Connection S) (r : Outcome S)
      → Ends (λ s. part s ≡ part c.tss) r
      → Ends (Same c) (handled messages t c r)
  unfolding handled Ends Same stops_receiving
  handled-Same c (ok s) h = h
  handled-Same c (err e) h = refl
  handled-Same c panic h = tt

  bind-Ends :
      (s : S) (r : Outcome M) (k : M → Outcome S)
      → ((m : M) → Ends (λ s'. part s' ≡ part s) (k m))
      → Ends (λ s'. part s' ≡ part s) (r >>= k)
  unfolding Ends
  bind-Ends s (ok m) k h = h m
  bind-Ends s (err e) k h = tt
  bind-Ends s panic k h = tt

  after_write-Same :
      (c : Connection S) (s : S) (text : Str) (write : Outcome (Unit {0}))
      → part s ≡ part c.tss
      → Ends (Same c) (after_write messages t (record c { tss = s }) text write)
  unfolding after_write Ends Same stops_sending
  after_write-Same c s text (ok u) h = h
  after_write-Same c s text (err e) h = h
  after_write-Same c s text panic h = tt

  after_next-Same :
      (c : Connection S) (write : Outcome (Unit {0})) (r : Outcome (Bytes × S))
      → Ends (λ x. part x.1 ≡ part c.tss) r
      → Ends (Same c) (after_next messages t c write r)
  unfolding after_next Ends Same stops_sending
  after_next-Same c write (ok (msg, s)) h =
      if-Ends (Same c) (is_empty msg) (ok (record c { tss = s })) _ h
        (after_write-Same c s (encode msg) write h)
  after_next-Same c write (err e) h = refl
  after_next-Same c write panic h = tt

  module _ (next-Same : (s : S) → Ends (λ x. part x.1 ≡ part s) (t.next s))
      (handle_message-Same : (s : S) (m : M)
        → Ends (λ s'. part s' ≡ part s) (t.handle_message s m)) where
    after_read-Same :
        (c : Connection S) (read : Outcome Str) → Ends (Same c) (after_read messages t c read)
    unfolding after_read Ends Same stops_receiving
    after_read-Same c (ok v) =
        handled-Same c (string_to_msg messages t v t.dkg_or_sign >>= λ m. t.handle_message c.tss m)
          (bind-Ends c.tss (string_to_msg messages t v t.dkg_or_sign)
            (λ m. t.handle_message c.tss m) (handle_message-Same c.tss))
    after_read-Same c (err e) = refl
    after_read-Same c panic = tt

    -- A turn of either goroutine.
    pub turn-Same :
        (c : Connection S) (x : Turn)
        → Ends (λ (c' : Connection S). part c'.tss ≡ part c.tss) (turn messages t c x)
    unfolding turn receive_turn send_turn Ends Same
    turn-Same c (receives done read) =
        if-Ends (Same c) c.receiving
          (if done then ok (record c { receiving = false }) else after_read messages t c read)
          (ok c)
          (if-Ends (Same c) done (ok (record c { receiving = false }))
            (after_read messages t c read) refl (after_read-Same c read))
          refl
    turn-Same c (sends done write) =
        if-Ends (Same c) c.sending
          (if done
            then ok (record c { sending = false })
            else after_next messages t c write (t.next c.tss))
          (ok c)
          (if-Ends (Same c) done (ok (record c { sending = false }))
            (after_next messages t c write (t.next c.tss)) refl
            (after_next-Same c write (t.next c.tss) (next-Same c.tss)))
          refl
