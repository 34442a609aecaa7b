-- ===== src/Tss/Tests/Connection.antt =====
-- Turns of the goroutines of a connection, with a process that keeps what it is given.
use meemaw.Prelude.{◌≡◌, refl, ◌≤◌, arith, false, List, [], ◌∷◌, Str, length, ok, err, GoError}
use meemaw.Encoding.Hex.{Bytes}
use meemaw.Tss.Connection.{
  GenericTss, Messages, Connection, Turn, receives, sends, turn, turns, opened, receive_turn,
  send_turn,
}
use meemaw.Tss.Connection.Turns.{length-turns, receive_turn-send_turn}

abbrev messages : Messages Bytes
messages = record { unmarshal_dkg = ok; unmarshal_sign = ok }

-- It sends the message that it holds, again and again, and takes every message.
abbrev echo : GenericTss Bytes Bytes
echo = record { next = λ s. ok (s, s); handle_message = λ s m. ok m; dkg_or_sign = 2 }

abbrev broken : List Turn
broken =
    receives false (err GoError.time_out)
    ∷ sends false (err GoError.time_out)
    ∷ receives false (err GoError.time_out)
    ∷ []

abbrev reported : Connection Bytes
reported = record {
  tss = 5 ∷ [];
  receiving = false;
  sending = false;
  errs = GoError.time_out ∷ GoError.time_out ∷ [];
  written = [];
}

length-turns_example : length reported.errs ≤ 2
unfolding turns turn
length-turns_example = length-turns messages echo (5 ∷ []) reported broken refl

receive_turn-send_turn_example :
    (text : Str) × (send_turn messages echo false (ok tt) (opened (5 ∷ []))
      ≡ ok (record (opened (5 ∷ [])) { tss = 5 ∷ []; written = text ∷ [] }))
    × (receive_turn messages echo false (ok text) (opened [])
        ≡ ok (record (opened []) { tss = 5 ∷ [] }))
receive_turn-send_turn_example =
    receive_turn-send_turn messages echo (opened (5 ∷ [])) (opened []) (5 ∷ []) (5 ∷ []) (5 ∷ [])
      (5 ∷ []) refl refl refl refl (omega arith, tt) refl refl refl
