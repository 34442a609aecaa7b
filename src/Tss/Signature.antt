-- ===== src/Tss/Signature.antt =====
-- The signature part of utils/tss/tssManager.go: IsLowS, ToLowS, GenerateSignature, and PostProcess of
-- utils/tss/serviceSigner.go. The recovery of a key from a signature and the ECDSA verification are
-- library calls and parameters here; `order` is the order of the curve.
pub mod LowS
pub mod Field
pub mod Layout
pub mod RecoveryId
use meemaw.Prelude.{
  ℕ, zero, suc, ◌+◌, ◌-◌, ◌*◌, ◌/◌, ◌%◌, Bool, true, false, not, ◌||◌, [], ◌∷◌, ◌++◌, Option, none,
  some, str, str_eq, replicate, ltb, ◌==◌, if◌then◌else◌, Outcome, ok, err, panic, ◌>>=◌, GoError,
}
use meemaw.Prelude.Int.{ℤ, pos, ◌-ℤ◌, leb_ℤ, abs_ℕ}
use meemaw.Encoding.Hex.{Bytes}
use meemaw.Tss.Alice.{Alice}
use meemaw.Tss.Wallet.{Pubkey, get_address, pub_key_addr}

pub record Ecdsa : Type 0 where
  pub order : ℕ  -- k.Params().N
  pub recover_compact : Bytes → Bytes → Outcome Bytes  -- the recovered key, serialised uncompressed
  pub verify : Pubkey → Bytes → ℤ → ℤ → Bool

module _ (c : Ecdsa) where
  open c use {order}

  unfoldable pub is_low_s : ℤ → Bool
  is_low_s s = let half_order = order / 2 in leb_ℤ s (pos half_order)

  unfoldable pub to_low_s : ℤ → ℤ
  unfolding is_low_s
  to_low_s s = if not (is_low_s s) then pos order -ℤ s else s

  -- secp256k1SignatureToLowS.
  unfoldable pub signature_to_low_s : ℤ → ℤ → ℤ × ℤ
  signature_to_low_s r s = (r, to_low_s s)

-- BitLen of a size, by halving; the number itself is fuel enough.
unfoldable pub bit_len : ℕ → ℕ → ℕ
bit_len zero n = 0
bit_len (suc f) n = let rest = bit_len f (n / 2) in if n == 0 then 0 else suc rest

-- `(x.BitLen() + 7) / 8`, and 0 for a nil pointer.
unfoldable pub byte_len : Option ℤ → ℕ
unfolding bit_len
byte_len none = 0
byte_len (some x) = (bit_len (abs_ℕ x) (abs_ℕ x) + 7) / 8

-- FillBytes into a slice of that many bytes, most significant first.
unfoldable pub fill_bytes : ℕ → ℕ → Bytes
fill_bytes zero n = []
fill_bytes (suc k) n = fill_bytes k (n / 256) ++ (n % 256) ∷ []

-- A 32-byte field of the zeroed array whose last bytes FillBytes writes.
unfoldable pub field : ℕ → ℤ → Bytes
unfolding fill_bytes
field len x = replicate (32 - len) 0 ++ fill_bytes len (abs_ℕ x)

pub record Signature : Type 0 where
  pub r : ℤ
  pub s : ℤ
  pub signature : Bytes

abbrev pub denied : GoError
denied = GoError.text (str "google KMS asymmetric signature denied on size")

abbrev pub not_verified : GoError
not_verified = GoError.text (str "signature does not ECDSA verify")

unfoldable pub bad_size : ℕ → Bool
bad_size len = len == 0 || ltb 32 len

pub with_values : Option ℤ → Option ℤ → (ℤ → ℤ → Outcome Bytes) → Outcome Bytes
with_values (some r) (some s) k = k r s
with_values _ _ k = panic

module _ (a : Alice) (c : Ecdsa) where
  open c use {recover_compact, verify}

  -- The rounds of the loop over `recoveryID`, with the tail byte of the array and `recoverErr`.
  unfoldable pub recover_loop :
      ℕ → ℕ → Option GoError → Bytes → Bytes → Pubkey → Outcome (ℕ × Option GoError)
  recover_loop zero recovery_id recover_err body msg pubkey = ok (0, recover_err)
  recover_loop (suc rounds) recovery_id recover_err body msg pubkey =
      elim (recover_compact ((recovery_id + 27) ∷ body) msg) [
        | ok key ↦ elim (str_eq (pub_key_addr a key) (get_address a pubkey)) [
          | true ↦ ok (recovery_id, recover_err)
          | false ↦ recover_loop rounds (recovery_id + 1) recover_err body msg pubkey
        ]
        | err e ↦ recover_loop rounds (recovery_id + 1) (some e) body msg pubkey
        | panic ↦ panic
      ]

  -- What follows the loop.
  unfoldable pub finish : ℕ × Option GoError → Bytes → Bytes → Pubkey → ℤ → ℤ → Outcome Bytes
  finish (v, some e) body msg pubkey r s = err e
  finish (v, none) body msg pubkey r s =
      if verify pubkey msg r s then ok (body ++ v ∷ []) else err not_verified

  unfoldable pub sign_bytes : ℤ → ℤ → ℕ → ℕ → Pubkey → Bytes → Outcome Bytes
  sign_bytes r s r_len s_len pubkey msg =
      let body = field r_len r ++ field s_len s in
      recover_loop 2 0 none body msg pubkey >>= λ found. finish found body msg pubkey r s

  -- A nil number has length 0 and is denied; so both are there after the test.
  unfoldable pub generate_signature : Option ℤ → Option ℤ → Pubkey → Bytes → Outcome Bytes
  unfolding with_values
  generate_signature r s pubkey msg =
      let r_len = byte_len r in
      let s_len = byte_len s in
      if bad_size r_len || bad_size s_len
      then err denied
      else with_values r s (λ r s. sign_bytes r s r_len s_len pubkey msg)

  -- serviceSigner.PostProcess, of the result and the message that the service holds.
  unfoldable pub post_process : ℤ → ℤ → Pubkey → Bytes → Outcome Signature
  unfolding signature_to_low_s generate_signature
  post_process r s pubkey message = do
    let low = signature_to_low_s c r s
    signature ← generate_signature (some low.0) (some low.1) pubkey message
    ok (record { r = low.0; s = low.1; signature = signature })
