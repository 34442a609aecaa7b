-- ===== src/Tss/Signature/Layout.antt =====
-- What the bytes that GenerateSignature and PostProcess return are (utils/tss/tssManager.go,
-- utils/tss/serviceSigner.go).
use meemaw.Prelude.{
  ℕ, ◌/◌, ◌<◌, ◌≡◌, ◌≢◌, refl, ◌∙◌, ap, ◌⊎◌, true, false, [], ◌∷◌, ◌++◌, some, arith, length,
  length-append, take, drop, take-append_of, drop-append_of, append_assoc, ok, err, GoError,
  >>=-eq-ok,
}
use meemaw.Prelude.Int.{ℤ, pos, ◌-ℤ◌, ◌≤ℤ◌, abs_ℕ}
use meemaw.Encoding.Hex.{Bytes}
use meemaw.Tss.Alice.{Alice}
use meemaw.Tss.Wallet.{Pubkey}
use meemaw.Tss.Signature.{
  Ecdsa, Signature, to_low_s, byte_len, field, bad_size, finish, sign_bytes, generate_signature,
  post_process,
}
use meemaw.Tss.Signature.Field.{be_value, field_lem}
use meemaw.Tss.Signature.LowS.{to_low_s_canonical}
use meemaw.Tss.Signature.RecoveryId.{
  body, Matches, Differs, found_cases, first_error_loop, generated,
}

-- The 65 bytes R ‖ S ‖ V of an Ethereum signature.
pub record IsLayout (r s : ℤ) (v : ℕ) (sig : Bytes) : Type 0 where
  pub size : length sig ≡ 65
  pub r_field : be_value 0 (take 32 sig) ≡ abs_ℕ r
  pub s_field : be_value 0 (take 32 (drop 32 sig)) ≡ abs_ℕ s
  pub v_field : drop 64 sig ≡ v ∷ []

-- Cutting three parts of known lengths out of their concatenation.
cut :
    (x y z : Bytes)
    → length x ≡ 32
    → length y ≡ 32
    → (take 32 ((x ++ y) ++ z) ≡ x)
      × (take 32 (drop 32 ((x ++ y) ++ z)) ≡ y)
      × (drop 64 ((x ++ y) ++ z) ≡ z)
cut x y z hx hy = (
  rw append_assoc (take-append_of x (y ++ z) 32 hx),
  rw append_assoc (rw (drop-append_of x (y ++ z) 32 hx) (take-append_of y z 32 hy)),
  drop-append_of (x ++ y) z 64 (omega (arith, length-append x y)),
)

module _ (a : Alice) (c : Ecdsa) where
  -- Every signature that GenerateSignature returns is 65 bytes: the size of r in 32 bytes, the size
  -- of s in 32 bytes, most significant first, and a recovery id of 0 or 1; and ECDSA verification
  -- accepts it.
  generate_signature-IsLayout :
      (r s : ℤ) (pubkey : Pubkey) (msg sig : Bytes)
      → generate_signature a c (some r) (some s) pubkey msg ≡ ok sig
      → (v : ℕ) × (v < 2) × IsLayout r s v sig × (c.verify pubkey msg r s ≡ true)
  generate_signature-IsLayout r s pubkey msg sig h =
      let g = generated a c r s pubkey msg sig h in
      let (rl, rv) = field_lem r g.r_fits in
      let (sl, sv) = field_lem s g.s_fits in
      let (tr, ts, tv) =
        cut (field (byte_len (some r)) r) (field (byte_len (some s)) s) (g.v ∷ []) rl sl in
      (
        g.v,
        (found_cases a c r s pubkey msg g.v g.found).0,
        rw g.bytes (record {
          size = omega (
            arith,
            length-append (body r s) (g.v ∷ []),
            length-append (field (byte_len (some r)) r) (field (byte_len (some s)) s),
            rl,
            sl,
          );
          r_field = ap (be_value 0) tr ∙ rv;
          s_field = ap (be_value 0) ts ∙ sv;
          v_field = tv;
        }),
        g.verified,
      )

  -- The recovery id of a returned signature recovers a key with the wallet's address, unless neither id
  -- does; then both ids recover keys with other addresses, and the id is 0.
  pub recovery_id-Matches :
      (r s : ℤ) (pubkey : Pubkey) (msg sig : Bytes)
      → generate_signature a c (some r) (some s) pubkey msg ≡ ok sig
      → (v : ℕ) × (drop 64 sig ≡ v ∷ [])
        × (Matches a c r s pubkey msg v
            ⊎ ((v ≡ 0) × Differs a c r s pubkey msg 0 × Differs a c r s pubkey msg 1))
  recovery_id-Matches r s pubkey msg sig h =
      let g = generated a c r s pubkey msg sig h in
      let (rl, rv) = field_lem r g.r_fits in
      let (sl, sv) = field_lem s g.s_fits in
      let (tr, ts, tv) =
        cut (field (byte_len (some r)) r) (field (byte_len (some s)) s) (g.v ∷ []) rl sl in
      (g.v, rw g.bytes tv, (found_cases a c r s pubkey msg g.v g.found).1)

  -- An error of the first recovery attempt is not forgotten: if the second attempt recovers the
  -- wallet's own key and the signature verifies, GenerateSignature still returns the first attempt's
  -- error.
  pub first_error_is_fatal :
      (r s : ℤ) (pubkey : Pubkey) (msg : Bytes) (e : GoError)
      → bad_size (byte_len (some r)) ≡ false
      → bad_size (byte_len (some s)) ≡ false
      → c.recover_compact (27 ∷ body r s) msg ≡ err e
      → Matches a c r s pubkey msg 1
      → generate_signature a c (some r) (some s) pubkey msg ≡ err e
  unfolding generate_signature sign_bytes
  first_error_is_fatal r s pubkey msg e rf sf h m =
      rw (rf, sf, first_error_loop a c r s pubkey msg e h m) (unfold finish in refl)

  -- What PostProcess returns verifies, whatever the numbers of the result.
  pub post_process-IsLayout :
      (r s : ℤ) (pubkey : Pubkey) (msg : Bytes) (out : Signature)
      → post_process a c r s pubkey msg ≡ ok out
      → (v : ℕ) × (v < 2)
        × IsLayout out.r out.s v out.signature
        × (c.verify pubkey msg out.r out.s ≡ true)
  unfolding post_process
  post_process-IsLayout r s pubkey msg out h =
      let low = to_low_s c s in
      let (sig, e, e') =
        >>=-eq-ok (generate_signature a c (some r) (some low) pubkey msg)
          (λ sig. ok (record { r = r; s = low; signature = sig })) h in
      let made : Signature = record { r = r; s = low; signature = sig } in
      let same : made ≡ out = cc e' in
      rw (← same) (generate_signature-IsLayout r low pubkey msg sig e)

  -- From a result with 0 < s < N, what PostProcess returns has the same r, an s above zero and at most
  -- N / 2 that is s or N - s, and the 65 bytes of these two numbers with a recovery id of 0 or 1; ECDSA
  -- verification accepts the two numbers.
  pub post_process_canonical :
      (r s : ℤ) (pubkey : Pubkey) (msg : Bytes) (out : Signature)
      → pos 1 ≤ℤ s
      → s ≤ℤ pos c.order
      → s ≢ pos c.order
      → post_process a c r s pubkey msg ≡ ok out
      → (out.r ≡ r)
        × ((out.s ≡ s) ⊎ (out.s ≡ pos c.order -ℤ s))
        × (pos 1 ≤ℤ out.s)
        × (out.s ≤ℤ pos (c.order / 2))
        × ((v : ℕ) × (v < 2) × IsLayout out.r out.s v out.signature)
        × (c.verify pubkey msg out.r out.s ≡ true)
  unfolding post_process
  post_process_canonical r s pubkey msg out lo hi ne h =
      let low = to_low_s c s in
      let (sig, e, e') =
        >>=-eq-ok (generate_signature a c (some r) (some low) pubkey msg)
          (λ sig. ok (record { r = r; s = low; signature = sig })) h in
      let (v, small, layout, verified) = generate_signature-IsLayout r low pubkey msg sig e in
      let (which, above, below, _, _) = to_low_s_canonical c s lo hi ne in
      let made : Signature = record { r = r; s = low; signature = sig } in
      let same : made ≡ out = cc e' in
      rw (← same) (refl, which, above, below, (v, small, layout), verified)
