-- ===== src/Encoding/Hexadecimal.antt =====
-- The hexadecimal form that math/big reads: (*Int).SetString(s, 16). It has no prefix.
use meemaw.Prelude.{
  ℕ, zero, suc, ◌+◌, ◌*◌, ◌/◌, ◌%◌, ◌≤◌, ◌<◌, ◌≡◌, refl, [], ◌∷◌, ◌++◌, Option, none, some, arith,
  Str, ltb, ◌==◌, if◌then◌else◌, Bool-cases, inl, inr,
}
use meemaw.Prelude.Int.{ℤ, pos}
use meemaw.Encoding.Hex.{hex_digit, from_hex_digit, from_hex_digit-hex_digit}
use meemaw.Encoding.Decimal.{negate, positive}

times_16 : ℕ → Option ℕ → Option ℕ
times_16 acc none = none
times_16 acc (some d) = some (acc * 16 + d)

hex_step : Option ℕ → ℕ → Option ℕ
unfolding times_16
hex_step none c = none
hex_step (some acc) c = times_16 acc (from_hex_digit c)

unfoldable pub read_hex : Option ℕ → Str → Option ℕ
unfolding hex_step
read_hex acc [] = acc
read_hex acc (c ∷ s) = read_hex (hex_step acc c) s

-- One digit at least.
unfoldable pub read_hex_number : Str → Option ℕ
unfolding read_hex
read_hex_number [] = none
read_hex_number (c ∷ s) = read_hex (some 0) (c ∷ s)

unfoldable pub set_string_16 : Str → Option ℤ
unfolding read_hex_number
set_string_16 [] = none
set_string_16 (c ∷ s) =
    if c == b'-'
    then negate (read_hex_number s)
    else if c == b'+'
    then positive (read_hex_number s)
    else positive (read_hex_number (c ∷ s))

-- The digits of a number, most significant first, with more fuel than the number is large.
unfoldable pub hex_digits : ℕ → ℕ → Str
hex_digits zero n = []
hex_digits (suc f) n =
    let high = hex_digits f (n / 16) in
    if ltb n 16 then hex_digit n ∷ [] else high ++ hex_digit (n % 16) ∷ []

read_hex-append :
    (acc : Option ℕ) (s : Str) (c : ℕ) → read_hex acc (s ++ c ∷ []) ≡ hex_step (read_hex acc s) c
unfolding read_hex
read_hex-append acc [] c = refl
read_hex-append acc (d ∷ s) c = read_hex-append (hex_step acc d) s c

hex_step-hex_digit : (acc d : ℕ) → d < 16 → hex_step (some acc) (hex_digit d) ≡ some (acc * 16 + d)
unfolding hex_step times_16
hex_step-hex_digit acc d h = rw (from_hex_digit-hex_digit d h) refl

read_hex-hex_digits : (f n : ℕ) → n < f → read_hex (some 0) (hex_digits f n) ≡ some n
unfolding hex_digits
read_hex-hex_digits zero n h = elim h [ ]
read_hex-hex_digits (suc f) n h = elim (Bool-cases (ltb n 16)) [
  | inl small ↦
      rw small (unfold read_hex in rw (hex_step-hex_digit 0 n (ground arith)) (ground arith))
  | inr large ↦
      rw
        (
          large,
          read_hex-append (some 0) (hex_digits f (n / 16)) (hex_digit (n % 16)),
          read_hex-hex_digits f (n / 16) (ground arith),
          hex_step-hex_digit (n / 16) (n % 16) (omega arith),
        )
        (ground arith)
]

-- A printed number begins with a digit or a letter, which are no signs.
Unsigned : Str → Type 0
Unsigned s = (c : ℕ) × (t : Str) × (s ≡ c ∷ t) × (b'0' ≤ c)

hex_digit-AtLeast : (n : ℕ) → b'0' ≤ hex_digit n
unfolding hex_digit
hex_digit-AtLeast n = ground arith

hex_digits-Unsigned : (f n : ℕ) → n < f → Unsigned (hex_digits f n)
unfolding hex_digits Unsigned
hex_digits-Unsigned zero n h = elim h [ ]
hex_digits-Unsigned (suc f) n h = elim (Bool-cases (ltb n 16)) [
  | inl small ↦ rw small (hex_digit n, [], refl, hex_digit-AtLeast n)
  | inr large ↦
      let (c, t, e, lo) = hex_digits-Unsigned f (n / 16) (ground arith) in
      rw (large, e) (c, t ++ hex_digit (n % 16) ∷ [], refl, lo)
]

-- Reading the hexadecimal digits of a number gives the number back, and there is one at least.
pub set_string_16-hex_digits :
    (f n : ℕ)
    → n < f
    → (c : ℕ) × (t : Str) × (hex_digits f n ≡ c ∷ t) × (set_string_16 (c ∷ t) ≡ some (pos n))
unfolding Unsigned set_string_16 read_hex_number positive
set_string_16-hex_digits f n h =
    let (c, t, e, lo) = hex_digits-Unsigned f n h in
    let read : read_hex (some 0) (c ∷ t) ≡ some n = rw (← e) (read_hex-hex_digits f n h) in
    (c, t, e, ground (arith, read))
