-- ===== src/Tss/Recovery.antt =====
-- utils/tss/recovery.go (RecoverPrivateKey) and RecoverPrivateKeyWrapper of
-- utils/tss/tssManager.go. The curve, the check of the threshold and the Birkhoff coefficients are
-- library code and parameters.
pub mod Sum
use meemaw.Prelude.{
  ℕ, Bool, List, [], ◌∷◌, Option, none, some, Str, str, Dict, lookup, length, ltb, if◌then◌else◌,
  map, Outcome, ok, err, panic, ◌>>=◌, ◌>>◌, conversion, wrapped, not_enough_peers, absent_curve,
  pub_key_mismatch,
}
use meemaw.Prelude.Int.{ℤ, pos, ◌+ℤ◌, ◌*ℤ◌, mod_ℕ}
use meemaw.Encoding.Decimal.{set_string}
use meemaw.Tss.Alice.{Alice}
use meemaw.Tss.Wallet.{PubkeyStr, Bk, new_pubkey, get_ec_point, convert_dkg_result}
use meemaw.Tss.Actors.{server_id}

pub record Curve (a : Alice) : Type 0 where
  pub order : ℕ  -- curve.Params().N
  pub scalar_base_mult : ℕ → a.Point  -- NewBase(curve).ScalarMult
  pub equal : a.Point → a.Point → Bool

-- utils.EnsureThreshold, CheckValid and ComputeBkCoefficient. A parameter that a map does not hold is a
-- nil pointer.
pub record Birkhoff (a : Alice) : Type 0 where
  pub ensure_threshold : ℕ → ℕ → Outcome (Unit {0})
  pub check_valid : List (Option a.Bk) → ℕ → ℕ → Outcome (Unit {0})
  pub compute_bk_coefficient : List (Option a.Bk) → ℕ → ℕ → Outcome (List ℤ)

pub record RecoveryPeer (a : Alice) : Type 0 where
  pub share : ℤ
  pub bk : Option a.Bk

-- ecdsa.PrivateKey: the point of the public key, and D.
pub record PrivateKey (a : Alice) : Type 0 where
  pub public_key : a.Point
  pub d : ℕ

-- The loop that adds `coef * shares[i]`, from the sum so far; an index past the shares is a panic.
unfoldable pub sum_loop : ℤ → List ℤ → List ℤ → Outcome ℤ
sum_loop acc [] shares = ok acc
sum_loop acc (coef ∷ coefs) [] = panic
sum_loop acc (coef ∷ coefs) (share ∷ shares) = sum_loop (acc +ℤ (coef *ℤ share)) coefs shares

module _ (a : Alice) (b : Birkhoff a) where
  unfoldable pub private_key_of : Curve a → a.Point → ℕ → Outcome (PrivateKey a)
  private_key_of curve pub_key d =
      let derived_pub_key = curve.scalar_base_mult d in
      if curve.equal derived_pub_key pub_key
      then ok (record { public_key = derived_pub_key; d = d })
      else err pub_key_mismatch

  check_bks : List (Option a.Bk) → ℕ → ℕ → Outcome (Unit {0})
  check_bks bks threshold order = elim (b.check_valid bks threshold order) [
    | ok u ↦ ok u
    | err e ↦ err (wrapped (str "BKS are incorrect: ") e)
    | panic ↦ panic
  ]

  unfoldable pub recover_on : Curve a → ℕ → a.Point → List (RecoveryPeer a) → Outcome (PrivateKey a)
  unfolding private_key_of check_bks sum_loop
  recover_on curve threshold pub_key peers = do
    b.ensure_threshold threshold (length peers)
    let shares = map (λ p. p.share) peers
    let bks = map (λ p. p.bk) peers
    check_bks bks threshold curve.order
    coefs ← b.compute_bk_coefficient bks threshold curve.order
    total ← sum_loop (pos 0) coefs shares
    private_key_of curve pub_key (mod_ℕ total curve.order)

  -- A nil curve is `none`.
  unfoldable pub recover_private_key :
      Option (Curve a) → ℕ → a.Point → List (RecoveryPeer a) → Outcome (PrivateKey a)
  unfolding recover_on
  recover_private_key curve threshold pub_key peers =
      if ltb (length peers) 2
      then err not_enough_peers
      else elim curve [ none ↦ err absent_curve | some k ↦ recover_on k threshold pub_key peers ]

  read_client_share : Str → Outcome ℤ
  read_client_share s = elim (set_string s) [ none ↦ err conversion | some share ↦ ok share ]

  unfoldable pub recover_private_key_wrapper :
      Curve a → Str → PubkeyStr → Str → Str → Dict Bk → Outcome (PrivateKey a)
  unfolding recover_private_key read_client_share
  recover_private_key_wrapper secp256k1 client_peer_id pubkey_str server_share_str client_share_str
        bks =
      do
        pubkey ← new_pubkey pubkey_str
        point ← get_ec_point a pubkey
        server ← convert_dkg_result a pubkey server_share_str bks
        client_share ← read_client_share client_share_str
        recover_private_key (some secp256k1) 2 point (
            record { share = server.share; bk = lookup server_id server.bks }
            ∷ record { share = client_share; bk = lookup client_peer_id server.bks }
            ∷ [])
