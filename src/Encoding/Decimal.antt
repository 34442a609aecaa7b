-- ===== src/Encoding/Decimal.antt =====
-- The decimal form of math/big: (*Int).String and (*Int).SetString(s, 10).
use meemaw.Prelude.{
  ℕ, zero, suc, ◌+◌, ◌-◌, ◌*◌, ◌/◌, ◌%◌, ◌≤◌, ◌<◌, ◌≡◌, refl, ◌&&◌, [], ◌∷◌, ◌++◌, Option, none,
  some, arith, Str, ltb, leb, ◌==◌, if◌then◌else◌, Bool-cases, inl, inr,
}
use meemaw.Prelude.Int.{ℤ, pos, negsuc}

-- With more fuel than the number is large: the digits, most significant first.
unfoldable pub digits : ℕ → ℕ → Str
digits zero n = []
digits (suc f) n =
    let high = digits f (n / 10) in
    if ltb n 10 then (b'0' + n) ∷ [] else high ++ (b'0' + n % 10) ∷ []

unfoldable pub to_string : ℤ → Str
unfolding digits
to_string (pos n) = digits (suc n) n
to_string (negsuc n) = b'-' ∷ digits (suc (suc n)) (suc n)

digit : Option ℕ → ℕ → Option ℕ
digit none c = none
digit (some acc) c = if leb b'0' c && leb c b'9' then some (acc * 10 + (c - b'0')) else none

unfoldable pub read_digits : Option ℕ → Str → Option ℕ
unfolding digit
read_digits acc [] = acc
read_digits acc (c ∷ s) = read_digits (digit acc c) s

-- One digit at least.
unfoldable pub read_number : Str → Option ℕ
unfolding read_digits
read_number [] = none
read_number (c ∷ s) = read_digits (some 0) (c ∷ s)

unfoldable pub negate : Option ℕ → Option ℤ
negate none = none
negate (some zero) = some (pos zero)
negate (some (suc n)) = some (negsuc n)

unfoldable pub positive : Option ℕ → Option ℤ
positive none = none
positive (some n) = some (pos n)

-- A sign is accepted in front.
unfoldable pub set_string : Str → Option ℤ
unfolding read_number negate positive
set_string [] = none
set_string (c ∷ s) =
    if c == b'-'
    then negate (read_number s)
    else if c == b'+'
    then positive (read_number s)
    else positive (read_number (c ∷ s))

read_digits-append :
    (acc : Option ℕ) (s : Str) (c : ℕ) → read_digits acc (s ++ c ∷ []) ≡ digit (read_digits acc s) c
unfolding read_digits
read_digits-append acc [] c = refl
read_digits-append acc (d ∷ s) c = read_digits-append (digit acc d) s c

read_digits-digits : (f n : ℕ) → n < f → read_digits (some 0) (digits f n) ≡ some n
unfolding digits
read_digits-digits zero n h = elim h [ ]
read_digits-digits (suc f) n h = elim (Bool-cases (ltb n 10)) [
  | inl small ↦ rw small (unfold read_digits in ground arith)
  | inr large ↦
      rw
        (
          large,
          read_digits-append (some 0) (digits f (n / 10)) (b'0' + n % 10),
          read_digits-digits f (n / 10) (ground arith),
        )
        (unfold digit in ground arith)
]

-- A printed number is not empty and begins with a digit.
abbrev pub StartsWithDigit : Str → Type 0
StartsWithDigit s = (c : ℕ) × (t : Str) × (s ≡ c ∷ t) × (b'0' ≤ c) × (c ≤ b'9')

digits-StartsWithDigit : (f n : ℕ) → n < f → StartsWithDigit (digits f n)
unfolding digits
digits-StartsWithDigit zero n h = elim h [ ]
digits-StartsWithDigit (suc f) n h = elim (Bool-cases (ltb n 10)) [
  | inl small ↦ rw small (b'0' + n, [], refl, omega arith, ground arith)
  | inr large ↦
      let (c, t, e, lo, hi) = digits-StartsWithDigit f (n / 10) (ground arith) in
      rw (large, e) (c, t ++ (b'0' + n % 10) ∷ [], refl, lo, hi)
]

read_number-digits : (f n : ℕ) → n < f → read_number (digits f n) ≡ some n
read_number-digits f n h =
    let (c, t, e, lo, hi) = digits-StartsWithDigit f n h in
    rw e (unfold read_number in rw (← e) (read_digits-digits f n h))

set_string-unsigned :
    (s : Str) (n : ℕ) → StartsWithDigit s → read_number s ≡ some n → set_string s ≡ some (pos n)
unfolding set_string
set_string-unsigned s n (c, t, e, lo, hi) r = rw e (ground arith)

-- Reading what was printed gives the integer back.
pub set_string-to_string : (z : ℤ) → set_string (to_string z) ≡ some z
unfolding to_string
set_string-to_string (pos n) =
    set_string-unsigned (digits (suc n) n) n (digits-StartsWithDigit (suc n) n (omega arith))
      (read_number-digits (suc n) n (omega arith))
set_string-to_string (negsuc n) =
    unfold set_string in rw (read_number-digits (suc (suc n)) (suc n) (omega arith)) refl
