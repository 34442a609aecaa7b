-- ===== src/Tss/Signature/Field.antt =====
-- BitLen and FillBytes, as GenerateSignature uses them (utils/tss/tssManager.go): a number fits the
-- bytes that its length says, and the bytes read as that number.
use meemaw.Prelude.{
  ℕ, zero, suc, ◌+◌, ◌-◌, ◌*◌, ◌/◌, ◌%◌, ◌^◌, ◌≤◌, ◌<◌, ◌≡◌, refl, ◌∙◌, [], ◌∷◌, ◌++◌, some, arith,
  length, length-append, length-replicate, replicate, ◌==◌, Bool-cases, inl, inr,
}
use native.Mathlib.Nat.{pow-suc}
use meemaw.Prelude.Int.{ℤ, abs_ℕ}
use meemaw.Encoding.Hex.{Bytes}
use meemaw.Tss.Signature.{bit_len, byte_len, fill_bytes, field}

-- The number that bytes stand for, most significant first.
unfoldable pub be_value : ℕ → Bytes → ℕ
be_value acc [] = acc
be_value acc (b ∷ bs) = be_value (acc * 256 + b) bs

be_value-append :
    (acc : ℕ) (xs : Bytes) (b : ℕ) → be_value acc (xs ++ b ∷ []) ≡ be_value acc xs * 256 + b
unfolding be_value
be_value-append acc [] b = refl
be_value-append acc (x ∷ xs) b = be_value-append (acc * 256 + x) xs b

be_value-fill_bytes : (k n : ℕ) → n < 256 ^ k → be_value 0 (fill_bytes k n) ≡ n
unfolding fill_bytes
be_value-fill_bytes zero n h = unfold be_value in omega arith
be_value-fill_bytes (suc k) n h =
    rw
      (
        be_value-append 0 (fill_bytes k (n / 256)) (n % 256),
        be_value-fill_bytes k (n / 256) (omega (arith, pow-suc 256 k)),
      )
      (omega arith)

length-fill_bytes : (k n : ℕ) → length (fill_bytes k n) ≡ k
unfolding fill_bytes
length-fill_bytes zero n = refl
length-fill_bytes (suc k) n =
    omega (
      arith,
      length-append (fill_bytes k (n / 256)) ((n % 256) ∷ []),
      length-fill_bytes k (n / 256),
    )

be_value-zeros : (m : ℕ) (xs : Bytes) → be_value 0 (replicate m 0 ++ xs) ≡ be_value 0 xs
unfolding be_value
be_value-zeros zero xs = refl
be_value-zeros (suc m) xs = be_value-zeros m xs

lt-pow-bit_len : (f n : ℕ) → n ≤ f → n < 2 ^ bit_len f n
unfolding bit_len
lt-pow-bit_len zero n h = omega arith
lt-pow-bit_len (suc f) n h = elim (Bool-cases (n == 0)) [
  | inl e ↦ rw e (ground arith)
  | inr e ↦
      rw e (omega (arith, pow-suc 2 (bit_len f (n / 2)), lt-pow-bit_len f (n / 2) (ground arith)))
]

pow_pos : (k : ℕ) → 1 ≤ 256 ^ k
pow_pos zero = omega arith
pow_pos (suc k) = omega (arith, pow-suc 256 k, pow_pos k)

pow_eight : (b : ℕ) → 2 ^ suc (suc (suc (suc (suc (suc (suc (suc b))))))) ≡ 256 * 2 ^ b
pow_eight b = omega (
  arith,
  pow-suc 2 b,
  pow-suc 2 (suc b),
  pow-suc 2 (suc (suc b)),
  pow-suc 2 (suc (suc (suc b))),
  pow-suc 2 (suc (suc (suc (suc b)))),
  pow-suc 2 (suc (suc (suc (suc (suc b))))),
  pow-suc 2 (suc (suc (suc (suc (suc (suc b)))))),
  pow-suc 2 (suc (suc (suc (suc (suc (suc (suc b))))))),
)

pow-le-bytes : (k b : ℕ) → b ≤ 8 * k → 2 ^ b ≤ 256 ^ k
pow-le-bytes zero zero h = omega arith
pow-le-bytes zero (suc b) h = absurd (omega arith)
pow-le-bytes (suc k) (suc (suc (suc (suc (suc (suc (suc (suc b)))))))) h =
    omega (arith, pow_eight b, pow-suc 256 k, pow-le-bytes k b (omega arith))
pow-le-bytes (suc k) b h = omega (arith, pow-suc 256 k, pow_pos k)

-- A number fits the bytes of its length.
lt-pow-byte_len : (x : ℤ) → abs_ℕ x < 256 ^ byte_len (some x)
unfolding byte_len
lt-pow-byte_len x = omega (
  arith,
  lt-pow-bit_len (abs_ℕ x) (abs_ℕ x) (omega arith),
  pow-le-bytes ((bit_len (abs_ℕ x) (abs_ℕ x) + 7) / 8) (bit_len (abs_ℕ x) (abs_ℕ x)) (omega arith),
)

-- A field is 32 bytes long and reads as the size of its number.
pub field_lem :
    (x : ℤ)
    → byte_len (some x) ≤ 32
    → (length (field (byte_len (some x)) x) ≡ 32)
      × (be_value 0 (field (byte_len (some x)) x) ≡ abs_ℕ x)
unfolding field
field_lem x h =
    let len = byte_len (some x) in
    (
      omega (
        arith,
        length-append (replicate (32 - len) 0) (fill_bytes len (abs_ℕ x)),
        length-replicate {A = ℕ} (32 - len) 0,
        length-fill_bytes len (abs_ℕ x),
      ),
      be_value-zeros (32 - len) (fill_bytes len (abs_ℕ x))
          ∙ be_value-fill_bytes len (abs_ℕ x) (lt-pow-byte_len x),
    )
