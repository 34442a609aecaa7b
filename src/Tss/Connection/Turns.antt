-- ===== src/Tss/Connection/Turns.antt =====
-- What the goroutines of a connection leave behind (Receive and Send, utils/tss/tssManager.go).
use meemaw.Prelude.{
  ◌≡◌, refl, ℕ, ◌+◌, ◌≤◌, Bool, true, false, List, [], ◌∷◌, ◌++◌, arith, Str, is_empty, length,
  if◌then◌else◌, Outcome, ok, err, panic, >>=-eq-ok, Ends, Ends-ok, if-Ends, length-append, GoError,
}
use meemaw.Encoding.Hex.{Bytes, IsBytes, encode, decode-encode}
use meemaw.Tss.Connection.{
  GenericTss, Messages, Connection, string_to_msg, receive_turn, send_turn, after_read, handled,
  after_next, after_write, Turn, receives, sends, turn, turns, opened, message_of, stops_receiving,
  stops_sending,
}

abbrev one_if : Bool → ℕ
one_if true = 1
one_if false = 0

module _ {S M : Type 0} (messages : Messages M) (t : GenericTss S M) where
  -- The errors on the channel and the goroutines that can still send one.
  budget : Connection S → ℕ
  budget c = length c.errs + one_if c.receiving + one_if c.sending

  Within : Connection S → Connection S → Type 0
  Within c c' = budget c' ≤ budget c

  stops_receiving-Within :
      (c : Connection S) (e : GoError)
      → c.receiving ≡ true
      → Within c (stops_receiving messages t c e)
  unfolding stops_receiving Within budget
  stops_receiving-Within c e live = rw live (omega (arith, length-append c.errs (e ∷ [])))

  handled-Within :
      (c : Connection S) (r : Outcome S)
      → c.receiving ≡ true
      → Ends (Within c) (handled messages t c r)
  unfolding handled Ends Within budget
  handled-Within c (ok s) live = omega arith
  handled-Within c (err e) live = stops_receiving-Within c e live
  handled-Within c panic live = tt

  after_read-Within :
      (c : Connection S) (read : Outcome Str)
      → c.receiving ≡ true
      → Ends (Within c) (after_read messages t c read)
  unfolding after_read Ends
  after_read-Within c (ok v) live = handled-Within c _ live
  after_read-Within c (err e) live = stops_receiving-Within c e live
  after_read-Within c panic live = tt

  stops_sending-Within :
      (c : Connection S) (e : GoError) → c.sending ≡ true → Within c (stops_sending messages t c e)
  unfolding stops_sending Within budget
  stops_sending-Within c e live = rw live (omega (arith, length-append c.errs (e ∷ [])))

  after_write-Within :
      (c : Connection S) (s : S) (text : Str) (write : Outcome (Unit {0}))
      → c.sending ≡ true
      → Ends (Within c) (after_write messages t (record c { tss = s }) text write)
  unfolding after_write Ends Within budget stops_sending
  after_write-Within c s text (ok u) live = omega arith
  after_write-Within c s text (err e) live = rw live (omega (arith, length-append c.errs (e ∷ [])))
  after_write-Within c s text panic live = tt

  after_next-Within :
      (c : Connection S) (write : Outcome (Unit {0})) (r : Outcome (Bytes × S))
      → c.sending ≡ true
      → Ends (Within c) (after_next messages t c write r)
  unfolding after_next Ends
  after_next-Within c write (ok (msg, s)) live =
      if-Ends (Within c) (is_empty msg) _ _ (unfold Within budget in omega arith)
        (after_write-Within c s (encode msg) write live)
  after_next-Within c write (err e) live = stops_sending-Within c e live
  after_next-Within c write panic live = tt

  if_live-Ends :
      (live : Bool) (c : Connection S) (r : Outcome (Connection S))
      → (live ≡ true → Ends (Within c) r)
      → Ends (Within c) (if live then r else ok c)
  unfolding Ends Within
  if_live-Ends true c r h = h refl
  if_live-Ends false c r h = omega arith

  turn-Within : (c : Connection S) (x : Turn) → Ends (Within c) (turn messages t c x)
  unfolding turn
  turn-Within c (receives done read) =
      unfold receive_turn in
      if_live-Ends c.receiving c _ (λ live.
        if-Ends (Within c) done (ok (record c { receiving = false })) (after_read messages t c read)
          (unfold Within budget Ends in rw live (omega arith)) (after_read-Within c read live))
  turn-Within c (sends done write) =
      unfold send_turn in
      if_live-Ends c.sending c _ (λ live.
        if-Ends (Within c) done (ok (record c { sending = false }))
          (after_next messages t c write (t.next c.tss))
          (unfold Within budget Ends in rw live (omega arith))
          (after_next-Within c write (t.next c.tss) live))

  turns-Within :
      (c c' : Connection S) (xs : List Turn) → turns messages t c xs ≡ ok c' → Within c c'
  unfolding turns Within
  turns-Within c c' [] h = Ends-ok (λ d. budget d ≤ budget c) (ok c) h (unfold Ends in omega arith)
  turns-Within c c' (x ∷ xs) h =
      let (c₁, h₁, h₂) = >>=-eq-ok (turn messages t c x) _ h in
      let first : budget c₁ ≤ budget c = Ends-ok (Within c) _ h₁ (turn-Within c x) in
      let later : budget c' ≤ budget c₁ = turns-Within c₁ c' xs h₂ in omega arith

  -- However the two goroutines run, they put at most two errors on their channel, whose capacity is
  -- two, so that neither of them ever waits to report an error.
  pub length-turns :
      (s : S) (c : Connection S) (xs : List Turn)
      → turns messages t (opened s) xs ≡ ok c
      → length c.errs ≤ 2
  length-turns s c xs h = unfold Within budget in omega (arith, turns-Within (opened s) c xs h)

  -- What Send writes for a message of the process, Receive on the other side hands to its process as that
  -- message, and both go on.
  pub receive_turn-send_turn :
      (c d : Connection S) (s s' : S) (bytes : Bytes) (m : M)
      → c.sending ≡ true
      → d.receiving ≡ true
      → t.next c.tss ≡ ok (bytes, s)
      → is_empty bytes ≡ false
      → IsBytes bytes
      → t.dkg_or_sign ≡ 2
      → messages.unmarshal_sign bytes ≡ ok m
      → t.handle_message d.tss m ≡ ok s'
      → (text : Str) × (send_turn messages t false (ok tt) c
          ≡ ok (record c { tss = s; written = c.written ++ text ∷ [] }))
        × (receive_turn messages t false (ok text) d ≡ ok (record d { tss = s' }))
  unfolding send_turn after_next after_write receive_turn after_read handled string_to_msg
      message_of
  receive_turn-send_turn c d s s' bytes m cs dr n ne ib kind um hm =
      (encode bytes, rw (cs, n, ne) refl, rw (dr, decode-encode bytes ib, kind, um, hm) refl)
