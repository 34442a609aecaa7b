-- ===== src/Tss/Signature/RecoveryId.antt =====
-- The loop over the recovery id in GenerateSignature (utils/tss/tssManager.go).
use meemaw.Prelude.{
  ℕ, zero, suc, ◌+◌, ◌≤◌, ◌<◌, ◌≡◌, ◌≢◌, refl, ◌∙◌, sym, ap, ◌⊎◌, inl, inr, true, false, [], ◌∷◌,
  ◌++◌, Option, none, some, arith, str_eq, str_eq_iff, Bool-cases, ok, err, Outcome-cases, GoError,
  >>=-eq-ok,
}
use meemaw.Prelude.Int.{ℤ}
use meemaw.Encoding.Hex.{Bytes}
use meemaw.Tss.Alice.{Alice}
use meemaw.Tss.Wallet.{Pubkey, get_address, pub_key_addr}
use meemaw.Tss.Signature.{
  Ecdsa, byte_len, field, bad_size, recover_loop, finish, sign_bytes, generate_signature,
  not_verified,
}

abbrev pub body : ℤ → ℤ → Bytes
body r s = field (byte_len (some r)) r ++ field (byte_len (some s)) s

module _ (a : Alice) (c : Ecdsa) where
  -- The key recovered with this id has the wallet's address.
  pub record Matches (r s : ℤ) (pubkey : Pubkey) (msg : Bytes) (id : ℕ) : Type 0 where
    pub key : Bytes
    pub recovered : c.recover_compact ((id + 27) ∷ body r s) msg ≡ ok key
    pub address : pub_key_addr a key ≡ get_address a pubkey

  -- The key recovered with this id has another address.
  pub record Differs (r s : ℤ) (pubkey : Pubkey) (msg : Bytes) (id : ℕ) : Type 0 where
    pub key : Bytes
    pub recovered : c.recover_compact ((id + 27) ∷ body r s) msg ≡ ok key
    pub address : pub_key_addr a key ≢ get_address a pubkey

  module _ (r s : ℤ) (pubkey : Pubkey) (msg : Bytes) where
    -- One round that leaves no error behind.
    abbrev Round : ℕ → ℕ → ℕ → Type 0
    Round rounds id v =
        (Matches r s pubkey msg id × (v ≡ id))
        ⊎ (Differs r s pubkey msg id
            × (recover_loop a c rounds (id + 1) none (body r s) msg pubkey ≡ ok (v, none)))

    error_stays :
        (rounds id : ℕ) (e : GoError) (v : ℕ)
        → recover_loop a c rounds id (some e) (body r s) msg pubkey ≢ ok (v, none)
    unfolding recover_loop
    error_stays zero id e v h = cc
    error_stays (suc rounds) id e v h =
        elim (Outcome-cases (c.recover_compact ((id + 27) ∷ body r s) msg)) [
          | inl (key, q) ↦ ground (arith, error_stays rounds (id + 1) e v)
          | inr (inl (e', q)) ↦ ground (arith, error_stays rounds (id + 1) e' v)
          | inr (inr q) ↦ ground arith
        ]

    Round-cases :
        (rounds id v : ℕ)
        → recover_loop a c (suc rounds) id none (body r s) msg pubkey ≡ ok (v, none)
        → Round rounds id v
    unfolding recover_loop
    Round-cases rounds id v h =
        elim (Outcome-cases (c.recover_compact ((id + 27) ∷ body r s) msg)) [
          | inl (key, e) ↦ elim (Bool-cases (str_eq (pub_key_addr a key) (get_address a pubkey))) [
            | inl same ↦ inl (
              record { key = key; recovered = e; address = (str_eq_iff _ _).0 same },
              ground arith,
            )
            | inr ne ↦ inr (
              record { key = key; recovered = e; address = λ p. cc ((str_eq_iff _ _).1 p, ne) },
              ground arith,
            )
          ]
          | inr (inl (e, h')) ↦ absurd (error_stays rounds (id + 1) e v (ground arith))
          | inr (inr h') ↦ absurd (ground arith)
        ]

    -- An error of the first attempt stays, although the second one finds the wallet's key.
    pub first_error_loop :
        (e : GoError)
        → c.recover_compact (27 ∷ body r s) msg ≡ err e
        → Matches r s pubkey msg 1
        → recover_loop a c 2 0 none (body r s) msg pubkey ≡ ok (1, some e)
    unfolding recover_loop
    first_error_loop e h m =
        ground (arith, str_eq_iff (pub_key_addr a m.key) (get_address a pubkey))

    -- A loop that leaves no error behind found an id that matches, or ran through both ids.
    pub found_cases :
        (v : ℕ)
        → recover_loop a c 2 0 none (body r s) msg pubkey ≡ ok (v, none)
        → (v < 2)
          × (Matches r s pubkey msg v
              ⊎ ((v ≡ 0) × Differs r s pubkey msg 0 × Differs r s pubkey msg 1))
    found_cases v h = elim (Round-cases 1 0 v h) [
      | inl (m, e) ↦ rw e (omega arith, inl m)
      | inr (d, h') ↦ elim (Round-cases 0 1 v h') [
        | inl (m, e) ↦ rw e (omega arith, inl m)
        | inr (d', h'') ↦
            let e : 0 ≡ v = unfold recover_loop in cc h'' in
            rw (← e) (omega arith, inr (refl, d, d'))
      ]
    ]

  -- A signature that GenerateSignature returns comes from numbers of 1 to 32 bytes, verified.
  pub record Generated (r s : ℤ) (pubkey : Pubkey) (msg sig : Bytes) : Type 0 where
    pub v : ℕ
    pub r_fits : byte_len (some r) ≤ 32
    pub s_fits : byte_len (some s) ≤ 32
    pub bytes : sig ≡ body r s ++ v ∷ []
    pub found : recover_loop a c 2 0 none (body r s) msg pubkey ≡ ok (v, none)
    pub verified : c.verify pubkey msg r s ≡ true

  finished :
      (found : ℕ × Option GoError) (bytes sig : Bytes) (r s : ℤ) (pubkey : Pubkey) (msg : Bytes)
      → finish a c found bytes msg pubkey r s ≡ ok sig
      → (found ≡ (found.0, none)) × (sig ≡ bytes ++ found.0 ∷ []) × (c.verify pubkey msg r s ≡ true)
  unfolding finish
  finished (v, some e) bytes sig r s pubkey msg h = absurd (cc h)
  finished (v, none) bytes sig r s pubkey msg h = elim (Bool-cases (c.verify pubkey msg r s)) [
    | inl yes' ↦ let e : ok (bytes ++ v ∷ []) ≡ ok sig = rw yes' at h in (refl, sym (cc e), yes')
    | inr no' ↦ let e : err not_verified ≡ ok sig = rw no' at h in absurd (cc e)
  ]

  sizes : (n : ℕ) → bad_size n ≡ false → n ≤ 32
  unfolding bad_size
  sizes n h = ground arith

  size_tests :
      (r s : ℤ) (pubkey : Pubkey) (msg sig : Bytes)
      → generate_signature a c (some r) (some s) pubkey msg ≡ ok sig
      → (bad_size (byte_len (some r)) ≡ false)
        × (bad_size (byte_len (some s)) ≡ false)
        × (sign_bytes a c r s (byte_len (some r)) (byte_len (some s)) pubkey msg ≡ ok sig)
  unfolding generate_signature
  size_tests r s pubkey msg sig h = elim (Bool-cases (bad_size (byte_len (some r)))) [
    | inl bad ↦ ground arith
    | inr fine ↦ elim (Bool-cases (bad_size (byte_len (some s)))) [
      | inl bad ↦ ground arith
      | inr fine' ↦ (fine, fine', ground arith)
    ]
  ]

  pub generated :
      (r s : ℤ) (pubkey : Pubkey) (msg sig : Bytes)
      → generate_signature a c (some r) (some s) pubkey msg ≡ ok sig
      → Generated r s pubkey msg sig
  unfolding sign_bytes
  generated r s pubkey msg sig h =
      let (rf, sf, signed) = size_tests r s pubkey msg sig h in
      let (found, loop, fin) =
        >>=-eq-ok (recover_loop a c 2 0 none (body r s) msg pubkey)
          (λ found. finish a c found (body r s) msg pubkey r s) signed in
      let (clean, bytes, verified) = finished found (body r s) sig r s pubkey msg fin in
      record {
        v = found.0;
        r_fits = sizes (byte_len (some r)) rf;
        s_fits = sizes (byte_len (some s)) sf;
        bytes = bytes;
        found = loop ∙ ap (λ x. ok x) clean;
        verified = verified;
      }
