-- ===== src/Tss/Recovery/Sum.antt =====
-- What a recovered private key is (utils/tss/recovery.go, RecoverPrivateKeyWrapper).
use meemaw.Prelude.{
  ◌≡◌, refl, sym, ◌∙◌, ap, ℕ, suc, ◌≤◌, true, List, [], ◌∷◌, Option, none, some, arith, Str, Dict,
  lookup, length, ltb, map, ok, >>=-eq-ok, guard-eq-ok, not_enough_peers,
}
use meemaw.Prelude.Int.{ℤ, pos, ◌+ℤ◌, ◌*ℤ◌, mod_ℕ, +ℤ_assoc, +ℤ-zero, zero-+ℤ}
use meemaw.Encoding.Decimal.{set_string}
use meemaw.Tss.Alice.{Alice}
use meemaw.Tss.Wallet.{
  Pubkey, PubkeyStr, Bk, Output, new_pubkey, get_ec_point, read_share, convert_bks,
  convert_dkg_result,
}
use meemaw.Tss.Actors.{server_id}
use meemaw.Tss.Recovery.{
  Curve, Birkhoff, RecoveryPeer, PrivateKey, sum_loop, private_key_of, check_bks, recover_on,
  recover_private_key, read_client_share, recover_private_key_wrapper,
}

-- The sum of the products, by the usual recursion.
abbrev pub dot : List ℤ → List ℤ → ℤ
dot (c ∷ cs) (s ∷ ss) = (c *ℤ s) +ℤ dot cs ss
dot _ _ = pos 0

sum_loop-dot :
    (acc : ℤ) (cs ss : List ℤ) (t : ℤ)
    → sum_loop acc cs ss ≡ ok t
    → (t ≡ acc +ℤ dot cs ss) × (length cs ≤ length ss)
unfolding sum_loop
sum_loop-dot acc [] ss t h = (cc (h, +ℤ-zero acc), omega arith)
sum_loop-dot acc (c ∷ cs) [] t h = cc h
sum_loop-dot acc (c ∷ cs) (s ∷ ss) t h =
    let (e, l) = sum_loop-dot (acc +ℤ (c *ℤ s)) cs ss t h in
    (e ∙ +ℤ_assoc acc (c *ℤ s) (dot cs ss), omega (arith, l))

module _ (a : Alice) (b : Birkhoff a) where
  -- What a key that was recovered on a curve satisfies, for one list of coefficients.
  pub record Recovered (curve : Curve a) (threshold : ℕ) (pub_key : a.Point)
      (peers : List (RecoveryPeer a)) (key : PrivateKey a) : Type 0 where
    pub coefs : List ℤ
    pub computed : b.compute_bk_coefficient (map (λ p. p.bk) peers) threshold curve.order ≡ ok coefs
    pub enough_shares : length coefs ≤ length peers
    pub interpolated : key.d ≡ mod_ℕ (dot coefs (map (λ p. p.share) peers)) curve.order
    pub derived : key.public_key ≡ curve.scalar_base_mult key.d
    pub matches : curve.equal key.public_key pub_key ≡ true

  length-map : {A B : Type 0} (f : A → B) (xs : List A) → length (map f xs) ≡ length xs
  length-map f [] = refl
  length-map f (x ∷ xs) = ap suc (length-map f xs)

  private_key_of-ok :
      (curve : Curve a) (pub_key : a.Point) (d : ℕ) (key : PrivateKey a)
      → private_key_of a b curve pub_key d ≡ ok key
      → (key.d ≡ d)
        × (key.public_key ≡ curve.scalar_base_mult d)
        × (curve.equal (curve.scalar_base_mult d) pub_key ≡ true)
  unfolding private_key_of
  private_key_of-ok curve pub_key d key h = ground arith

  recover_on-Recovered :
      (curve : Curve a) (threshold : ℕ) (pub_key : a.Point) (peers : List (RecoveryPeer a))
      (key : PrivateKey a)
      → recover_on a b curve threshold pub_key peers ≡ ok key
      → Recovered curve threshold pub_key peers key
  unfolding recover_on
  recover_on-Recovered curve threshold pub_key peers key h =
      let bks = map (λ p. p.bk) peers in
      let shares = map (λ p. p.share) peers in
      let (u, eu, h1) = >>=-eq-ok (b.ensure_threshold threshold (length peers)) _ h in
      let (v, ev, h2) = >>=-eq-ok (check_bks a b bks threshold curve.order) _ h1 in
      let (coefs, ec, h3) = >>=-eq-ok (b.compute_bk_coefficient bks threshold curve.order) _ h2 in
      let (total, et, h4) = >>=-eq-ok (sum_loop (pos 0) coefs shares) _ h3 in
      let (sum, enough) = sum_loop-dot (pos 0) coefs shares total et in
      let (d, public, equal) = private_key_of-ok curve pub_key (mod_ℕ total curve.order) key h4 in
      record {
        coefs = coefs;
        computed = ec;
        enough_shares = omega (arith, enough, length-map (λ p. p.share) peers);
        interpolated = d ∙ ap (λ t. mod_ℕ t curve.order) (sum ∙ zero-+ℤ (dot coefs shares));
        derived = cc (public, d);
        matches = cc (public, equal);
      }

  recover_some :
      (k : Curve a) (threshold : ℕ) (pub_key : a.Point) (peers : List (RecoveryPeer a))
      (key : PrivateKey a)
      → recover_private_key a b (some k) threshold pub_key peers ≡ ok key
      → (2 ≤ length peers) × Recovered k threshold pub_key peers key
  unfolding recover_private_key
  recover_some k threshold pub_key peers key h =
      let (two, h') = guard-eq-ok (ltb (length peers) 2) not_enough_peers _ h in
      (ground (arith, two), recover_on-Recovered k threshold pub_key peers key h')

  at_point :
      (k : Curve a) (threshold : ℕ) (p q : a.Point) (peers : List (RecoveryPeer a))
      (key : PrivateKey a)
      → p ≡ q
      → Recovered k threshold p peers key
      → Recovered k threshold q peers key
  at_point k threshold p q peers key e r = rw (← e) r

  -- RecoverPrivateKey gives a key only for two peers or more and a curve; its D is the sum of the
  -- coefficients times the shares modulo the order, its public key is derived from D, and it is
  -- equal to the expected one.
  recover_private_key-Recovered :
      (curve : Option (Curve a)) (threshold : ℕ) (pub_key : a.Point) (peers : List (RecoveryPeer a))
      (key : PrivateKey a)
      → recover_private_key a b curve threshold pub_key peers ≡ ok key
      → (2 ≤ length peers)
        × ((k : Curve a) × (curve ≡ some k) × Recovered k threshold pub_key peers key)
  unfolding recover_private_key
  recover_private_key-Recovered none threshold pub_key peers key h = ground arith
  recover_private_key-Recovered (some k) threshold pub_key peers key h =
      let (two, found) = recover_some k threshold pub_key peers key h in (two, (k, refl, found))

  converted_point :
      (pubkey : Pubkey) (share : Str) (bks : Dict Bk) (server : Output a) (point : a.Point)
      → convert_dkg_result a pubkey share bks ≡ ok server
      → get_ec_point a pubkey ≡ ok point
      → server.public_key ≡ point
  unfolding convert_dkg_result
  converted_point pubkey share bks server point h e =
      let (p, ep, h1) = >>=-eq-ok (get_ec_point a pubkey) _ h in
      let (x, ex, h2) = >>=-eq-ok (read_share a share) _ h1 in
      let (bs, eb, h3) = >>=-eq-ok (convert_bks a bks) _ h2 in
      let made : Output a = record { public_key = p; share = x; bks = bs } in
      let same : made ≡ server = cc h3 in
      let same_point : p ≡ point = cc (ep, e) in sym (ap (λ o. o.public_key) same) ∙ same_point

  read_client_share-ok : (s : Str) (x : ℤ) → read_client_share a b s ≡ ok x → set_string s ≡ some x
  unfolding read_client_share
  read_client_share-ok s x h = ground arith

  -- RecoverPrivateKeyWrapper gives a key only where the public key, the shares and the parameters
  -- are readable; it is then the key of that public key that the server's share and the client's
  -- share give, with the two parameters of those peers, in this order.
  pub recover_private_key_wrapper-Recovered :
      (curve : Curve a) (client_peer_id : Str) (pubkey_str : PubkeyStr)
      (server_share_str client_share_str : Str) (bks : Dict Bk) (key : PrivateKey a)
      → recover_private_key_wrapper a b curve client_peer_id pubkey_str server_share_str
          client_share_str bks
        ≡ ok key
      → (pubkey : Pubkey) × (server : Output a) × (client_share : ℤ) × (new_pubkey pubkey_str
          ≡ ok pubkey)
        × (convert_dkg_result a pubkey server_share_str bks ≡ ok server)
        × (set_string client_share_str ≡ some client_share)
        × Recovered curve 2 server.public_key
            (record { share = server.share; bk = lookup server_id server.bks }
              ∷ record { share = client_share; bk = lookup client_peer_id server.bks }
              ∷ [])
            key
  unfolding recover_private_key_wrapper
  recover_private_key_wrapper-Recovered curve client_peer_id pubkey_str server_share_str
        client_share_str bks key h =
      let (pubkey, ek, h1) = >>=-eq-ok (new_pubkey pubkey_str) _ h in
      let (point, ep, h2) = >>=-eq-ok (get_ec_point a pubkey) _ h1 in
      let (server, es, h3) = >>=-eq-ok (convert_dkg_result a pubkey server_share_str bks) _ h2 in
      let (share, ec, h4) = >>=-eq-ok (read_client_share a b client_share_str) _ h3 in
      let same : point ≡ server.public_key =
        sym (converted_point pubkey server_share_str bks server point es ep) in
      let peers : List (RecoveryPeer a) =
        record { share = server.share; bk = lookup server_id server.bks }
        ∷ record { share = share; bk = lookup client_peer_id server.bks }
        ∷ [] in
      let (two, found) = recover_some curve 2 point peers key h4 in
      (
        pubkey,
        server,
        share,
        ek,
        es,
        read_client_share-ok client_share_str share ec,
        at_point curve 2 point server.public_key peers key same found,
      )
