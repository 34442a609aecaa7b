-- ===== src/Tss/Tests/Signing.antt =====
-- Runs of the signature code and of the recovery of a key, with small stand-ins for the library.
use meemaw.Prelude.{
  ◌≡◌, ◌⊎◌, refl, ℕ, ◌/◌, ◌<◌, true, List, [], ◌∷◌, ◌++◌, some, arith, str, str_eq, Dict, lookup,
  drop, replicate, if◌then◌else◌, ◌==◌, Outcome, ok, err, panic, GoError,
}
use meemaw.Prelude.Int.{ℤ, pos, negsuc, ◌-ℤ◌, ◌+ℤ◌, ◌*ℤ◌, ◌≤ℤ◌, mod_ℕ}
use meemaw.Encoding.Hex.{Bytes}
use meemaw.Encoding.Decimal.{set_string, read_number, read_digits}
use meemaw.Tss.Wallet.{
  PubkeyStr, Pubkey, Bk, Output, new_pubkey, get_ec_point, get_bytes, get_address, pub_key_addr,
  read_share, convert_bks, read_bk, convert_dkg_result,
}
use meemaw.Tss.Signature.{
  Ecdsa, Signature, is_low_s, to_low_s, signature_to_low_s, bit_len, byte_len, fill_bytes, field,
  bad_size, recover_loop, finish, sign_bytes, generate_signature, post_process,
}
use meemaw.Tss.Signature.RecoveryId.{Matches, Differs}
use meemaw.Tss.Signature.Layout.{
  IsLayout, recovery_id-Matches, first_error_is_fatal, post_process_canonical,
}
use meemaw.Tss.Recovery.{
  Curve, Birkhoff, RecoveryPeer, PrivateKey, sum_loop, private_key_of, recover_on,
  recover_private_key, recover_private_key_wrapper,
}
use meemaw.Tss.Recovery.Sum.{Recovered, recover_private_key_wrapper-Recovered}
use meemaw.Tss.Actors.{server_id}
use meemaw.Tss.Tests.{alice, pubkey, phone}

abbrev recover_with : Outcome Bytes → Bytes → Outcome Bytes
recover_with first [] = panic
recover_with first (v ∷ rest) = if v == 27 then first else ok (4 ∷ [])

-- Recovery gives the wallet's own key for the second id only; what the first id gives is `first`.
abbrev pub ecdsa : Outcome Bytes → Ecdsa
ecdsa first = record {
  order = 11;
  recover_compact = λ sig msg. recover_with first sig;
  verify = λ k msg r s. true;
}

abbrev pub other_key : Outcome Bytes
other_key = ok (4 ∷ 9 ∷ [])

abbrev message : Bytes
message = 1 ∷ 2 ∷ []

abbrev pub sig_bytes : ℕ → ℕ → Bytes
sig_bytes r s = ((replicate 31 0 ++ r ∷ []) ++ (replicate 31 0 ++ s ∷ [])) ++ 1 ∷ []

signed :
    generate_signature alice (ecdsa other_key) (some (pos 3)) (some (pos 4)) pubkey message
    ≡ ok (sig_bytes 3 4)
unfolding generate_signature sign_bytes recover_loop finish bad_size byte_len bit_len field
    fill_bytes pub_key_addr get_address get_bytes str_eq
signed = refl

recovery_id-Matches_example :
    (v : ℕ) × (drop 64 (sig_bytes 3 4) ≡ v ∷ [])
    × (Matches alice (ecdsa other_key) (pos 3) (pos 4) pubkey message v
        ⊎ ((v ≡ 0)
            × Differs alice (ecdsa other_key) (pos 3) (pos 4) pubkey message 0
            × Differs alice (ecdsa other_key) (pos 3) (pos 4) pubkey message 1))
recovery_id-Matches_example =
    recovery_id-Matches alice (ecdsa other_key) (pos 3) (pos 4) pubkey message (sig_bytes 3 4)
      signed

abbrev bad_point : GoError
bad_point = GoError.text (str "invalid point")

first_error_is_fatal_example :
    generate_signature alice (ecdsa (err bad_point)) (some (pos 3)) (some (pos 4)) pubkey message
    ≡ err bad_point
unfolding bad_size byte_len bit_len pub_key_addr get_address get_bytes
first_error_is_fatal_example =
    first_error_is_fatal alice (ecdsa (err bad_point)) (pos 3) (pos 4) pubkey message bad_point refl
      refl refl (record { key = 4 ∷ []; recovered = refl; address = refl })

abbrev low_signature : Signature
low_signature = record { r = pos 3; s = pos 4; signature = sig_bytes 3 4 }

post_processed :
    post_process alice (ecdsa other_key) (pos 3) (pos 7) pubkey message ≡ ok low_signature
unfolding post_process signature_to_low_s to_low_s is_low_s ◌-ℤ◌ generate_signature sign_bytes
    recover_loop finish bad_size byte_len bit_len field fill_bytes pub_key_addr get_address
    get_bytes str_eq
post_processed = refl

post_process_canonical_example :
    (pos 3 ≡ pos 3)
    × ((pos 4 ≡ pos 7) ⊎ (pos 4 ≡ pos 11 -ℤ pos 7))
    × (pos 1 ≤ℤ pos 4)
    × (pos 4 ≤ℤ pos (11 / 2))
    × ((v : ℕ) × (v < 2) × IsLayout (pos 3) (pos 4) v (sig_bytes 3 4))
    × ((ecdsa other_key).verify pubkey message (pos 3) (pos 4) ≡ true)
post_process_canonical_example =
    post_process_canonical alice (ecdsa other_key) (pos 3) (pos 7) pubkey message low_signature
      (omega arith) (omega arith) (λ h. cc h) post_processed

-- A curve whose points are pairs of a number and 1.
abbrev curve : Curve alice
curve = record { order = 11; scalar_base_mult = λ d. (pos d, pos 1); equal = λ p q. true }

abbrev birkhoff : Birkhoff alice
birkhoff = record {
  ensure_threshold = λ t n. ok tt;
  check_valid = λ bks t n. ok tt;
  compute_bk_coefficient = λ bks t n. ok (pos 2 ∷ negsuc 0 ∷ []);
}

abbrev peers : List (RecoveryPeer alice)
peers =
    record { share = pos 9; bk = some (pos 1, 0) }
    ∷ record { share = pos 4; bk = some (pos 2, 0) }
    ∷ []

abbrev private_key : PrivateKey alice
private_key = record { public_key = (pos 3, pos 1); d = 3 }

abbrev three : PubkeyStr
three = record { x = b'3' ∷ []; y = b'1' ∷ [] }

abbrev parameters : Dict Bk
parameters =
    (server_id, record { x = b'1' ∷ []; rank = 0 })
    ∷ (phone, record { x = b'2' ∷ []; rank = 0 })
    ∷ []

recover_private_key_wrapper-Recovered_example :
    (k : Pubkey) × (server : Output alice) × (client_share : ℤ) × (new_pubkey three ≡ ok k)
    × (convert_dkg_result alice k (b'9' ∷ []) parameters ≡ ok server)
    × (set_string (b'4' ∷ []) ≡ some client_share)
    × Recovered alice birkhoff curve 2 server.public_key
        (record { share = server.share; bk = lookup server_id server.bks }
          ∷ record { share = client_share; bk = lookup phone server.bks }
          ∷ [])
        private_key
unfolding recover_private_key_wrapper recover_private_key recover_on private_key_of sum_loop ◌+ℤ◌
    ◌*ℤ◌ mod_ℕ new_pubkey set_string read_number read_digits convert_dkg_result get_ec_point
    read_share convert_bks read_bk
recover_private_key_wrapper-Recovered_example =
    recover_private_key_wrapper-Recovered alice birkhoff curve phone three (b'9' ∷ []) (b'4' ∷ [])
      parameters private_key refl
