-- ===== src/Encoding/Hex.antt =====
-- encoding/hex: EncodeToString and DecodeString.
use meemaw.Prelude.{
  ℕ, ◌+◌, ◌-◌, ◌*◌, ◌/◌, ◌%◌, ◌<◌, ◌≡◌, refl, ◌&&◌, List, [], ◌∷◌, Option, none, some, arith, Str,
  str, ltb, leb, if◌then◌else◌, All, Outcome, ok, err, GoError,
}

abbrev pub Bytes : Type 0
Bytes = List ℕ

abbrev pub IsBytes : Bytes → Type 0
IsBytes = All (λ b. b < 256)

unfoldable pub hex_digit : ℕ → ℕ
hex_digit n = if ltb n 10 then b'0' + n else b'a' + (n - 10)

unfoldable pub from_hex_digit : ℕ → Option ℕ
from_hex_digit c =
    if leb b'0' c && leb c b'9'
    then some (c - b'0')
    else if leb b'a' c && leb c b'f'
    then some (c - b'a' + 10)
    else if leb b'A' c && leb c b'F'
    then some (c - b'A' + 10)
    else none

unfoldable pub encode : Bytes → Str
unfolding hex_digit
encode [] = []
encode (b ∷ bs) = hex_digit (b / 16) ∷ hex_digit (b % 16) ∷ encode bs

abbrev pub odd_length : GoError
odd_length = GoError.text (str "encoding/hex: odd length hex string")

abbrev pub invalid_byte : GoError
invalid_byte = GoError.text (str "encoding/hex: invalid byte")

pub cons_byte : Option ℕ → Option ℕ → Outcome Bytes → Outcome Bytes
cons_byte (some h) (some l) (ok bs) = ok ((h * 16 + l) ∷ bs)
cons_byte (some h) (some l) rest = rest
cons_byte _ _ rest = err invalid_byte

unfoldable pub decode : Str → Outcome Bytes
unfolding cons_byte from_hex_digit
decode [] = ok []
decode (h ∷ []) = err odd_length
decode (h ∷ l ∷ rest) = cons_byte (from_hex_digit h) (from_hex_digit l) (decode rest)

pub from_hex_digit-hex_digit : (n : ℕ) → n < 16 → from_hex_digit (hex_digit n) ≡ some n
unfolding from_hex_digit hex_digit
from_hex_digit-hex_digit n h = ground arith

cons_byte-digits :
    (b : ℕ) (bs : Bytes) → b < 256 → cons_byte (some (b / 16)) (some (b % 16)) (ok bs) ≡ ok (b ∷ bs)
unfolding cons_byte
cons_byte-digits b bs h = ground arith

-- Decoding what was encoded gives the bytes back.
pub decode-encode : (bs : Bytes) → IsBytes bs → decode (encode bs) ≡ ok bs
unfolding decode encode
decode-encode [] h = refl
decode-encode (b ∷ bs) h =
    rw
      (
        from_hex_digit-hex_digit (b / 16) (omega arith),
        from_hex_digit-hex_digit (b % 16) (omega arith),
        decode-encode bs h.1,
      )
      (cons_byte-digits b bs h.0)
