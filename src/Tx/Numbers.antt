-- ===== src/Tx/Numbers.antt =====
-- The forms in which ParseBigInt takes a number (utils/tx/tx.go).
use meemaw.Prelude.{
  ℕ, zero, suc, ◌+◌, ◌/◌, ◌%◌, ◌≡◌, ◌≢◌, not, ◌==◌, refl, sym, ap, ◌∙◌, ◌&&◌, Bool, true, false, [],
  ◌∷◌, ◌++◌, some, arith, Str, str, has_prefix, contains, ltb, length, if◌then◌else◌, Bool-cases,
  inl, inr,
}
use meemaw.Prelude.Int.{ℤ, pos, negsuc}
use meemaw.Encoding.Decimal.{to_string, digits, set_string, set_string-to_string}
use meemaw.Encoding.Hexadecimal.{hex_digits, set_string_16, set_string_16-hex_digits}
use meemaw.Tx.{
  Base, Value, int64, int, big_int, float64, string, parse_big_int, parse_string, or_zero,
}

-- The forms of an integer: a number of Go, with int64(v) for a float64, its decimal digits, hexadecimal
-- digits after 0x, and a text with a dot, which stands for the integer part that big.Float gives.
pub data Denotes (b : Base) (z : ℤ) : Value b → Type 0 where
  as_int64 : Denotes b z (int64 z)
  as_int : Denotes b z (int z)
  as_big_int : Denotes b z (big_int z)
  as_float64 : (x : b.Float) → b.int64_of x ≡ z → Denotes b z (float64 x)
  as_decimal : Denotes b z (string (to_string z))
  as_hexadecimal : (n : ℕ) → z ≡ pos n → Denotes b z (string (str "0x" ++ hex_digits (suc n) n))
  as_dotted :
      (s : Str)
      → has_prefix (str "0x") s ≡ false
      → contains (str ".") s ≡ true
      → b.big_float s ≡ some z
      → Denotes b z (string s)

-- Neither an x nor a dot is among the characters.
plain : Str → Bool
plain [] = true
plain (c ∷ s) = not (c == b'x') && (not (c == b'.') && plain s)

plain-snoc : (s : Str) (c : ℕ) → plain s ≡ true → c ≢ b'x' → c ≢ b'.' → plain (s ++ c ∷ []) ≡ true
unfolding plain
plain-snoc [] c h nx nd = ground arith
plain-snoc (d ∷ s) c h nx nd = ground (arith, plain-snoc s c)

plain-digits : (f n : ℕ) → plain (digits f n) ≡ true
unfolding digits
plain-digits zero n = unfold plain in refl
plain-digits (suc f) n = elim (Bool-cases (ltb n 10)) [
  | inl small ↦ rw small (unfold plain in ground arith)
  | inr large ↦ rw large (
      plain-snoc (digits f (n / 10)) (b'0' + n % 10) (plain-digits f (n / 10)) (omega arith)
        (omega arith))
]

plain-to_string : (z : ℤ) → plain (to_string z) ≡ true
unfolding to_string
plain-to_string (pos n) = plain-digits (suc n) n
plain-to_string (negsuc n) = unfold plain in plain-digits (suc (suc n)) (suc n)

contains-plain : (s : Str) → plain s ≡ true → contains (b'.' ∷ []) s ≡ false
unfolding plain contains has_prefix
contains-plain [] h = refl
contains-plain (c ∷ s) h = ground (arith, contains-plain s)

has_prefix-plain : (s : Str) → plain s ≡ true → has_prefix (b'0' ∷ b'x' ∷ []) s ≡ false
unfolding plain has_prefix
has_prefix-plain [] h = refl
has_prefix-plain (c ∷ []) h = ground arith
has_prefix-plain (c ∷ d ∷ s) h = ground arith

if-and-false : {A : Type 0} (b : Bool) (x y : A) → (if b && false then x else y) ≡ y
if-and-false true x y = refl
if-and-false false x y = refl

parse_string-plain :
    (b : Base) (s : Str) → plain s ≡ true → parse_string b s ≡ or_zero (set_string s)
unfolding parse_string str
parse_string-plain b s h =
    rw (has_prefix-plain s h, contains-plain s h) (if-and-false (ltb 2 (length s)) _ _)

parse_string-hexadecimal :
    (b : Base) (c : ℕ) (t : Str) (n : ℕ)
    → set_string_16 (c ∷ t) ≡ some (pos n)
    → parse_string b (str "0x" ++ c ∷ t) ≡ pos n
unfolding parse_string str has_prefix or_zero
parse_string-hexadecimal b c t n read =
    let long : ltb 2 (suc (suc (suc (length t)))) ≡ true = ground arith in rw (long, read) refl

parse_string-dotted :
    (b : Base) (z : ℤ) (s : Str)
    → has_prefix (str "0x") s ≡ false
    → contains (str ".") s ≡ true
    → b.big_float s ≡ some z
    → parse_string b s ≡ z
unfolding parse_string or_zero
parse_string-dotted b z s no_prefix dotted read =
    rw (no_prefix, dotted, read) (if-and-false (ltb 2 (length s)) _ _)

-- ParseBigInt reads an integer from each of these forms: int64, int, *big.Int, the decimal digits that
-- print it, hexadecimal digits after 0x for one that is not negative, a float64 whose conversion to
-- int64 gives it, and a text with a dot and without 0x whose integer part big.Float gives as it.
pub parse_big_int-Denotes : (b : Base) (z : ℤ) (v : Value b) → Denotes b z v → parse_big_int b v ≡ z
unfolding parse_big_int
parse_big_int-Denotes b z v as_int64 = refl
parse_big_int-Denotes b z v as_int = refl
parse_big_int-Denotes b z v as_big_int = refl
parse_big_int-Denotes b z v (as_float64 x e) = e
parse_big_int-Denotes b z v (as_dotted s no_prefix dotted read) =
    parse_string-dotted b z s no_prefix dotted read
parse_big_int-Denotes b z v as_decimal =
    parse_string-plain b (to_string z) (plain-to_string z)
    ∙ unfold or_zero in ap or_zero (set_string-to_string z)
parse_big_int-Denotes b z v (as_hexadecimal n e) =
    let (c, t, made, read) = set_string_16-hex_digits (suc n) n (omega arith) in
    rw made (parse_string-hexadecimal b c t n read) ∙ sym e
