-- ===== src/Tss/Wallet/RoundTrip.antt =====
-- A wallet that was printed by PostProcessResult is read back by NewPubkey and ConvertDKGResult.
use meemaw.Prelude.{
  ◌≡◌, refl, ◌∙◌, ap, [], ◌∷◌, Option, none, some, arith, Str, str_eq, All, Dict, lookup, insert,
  map_values, lookup-insert, lookup-map_values, Outcome, ok, err, panic, ◌>>=◌, Bool-cases, inl,
  inr, >>=-eq-ok, Option-cases,
}
use meemaw.Prelude.Int.{ℤ}
use meemaw.Encoding.Decimal.{set_string, set_string-to_string}
use meemaw.Tss.Alice.{Alice, AliceLaws}
use meemaw.Tss.Wallet.{
  Pubkey, Bk, ProcessResult, Output, new_pubkey, get_str, bk_to_text, post_process_result, read_bk,
  read_share, convert_bks, convert_dkg_result,
}

-- NewPubkey reads what GetStr printed.
pub new_pubkey-get_str : (k : Pubkey) → new_pubkey (get_str k) ≡ ok k
unfolding new_pubkey get_str
new_pubkey-get_str k = simp set_string-to_string

module _ (a : Alice) where
  -- The entries of a map, each of which can be read.
  abbrev Readable : Dict Bk → Type 0
  Readable = All (λ e. (b : a.Bk) × (read_bk a e.1 ≡ ok b))

  Readable-insert :
      (k : Str) (v : Bk) (b : a.Bk) (m : Dict Bk)
      → read_bk a v ≡ ok b
      → Readable m
      → Readable (insert k v m)
  unfolding insert
  Readable-insert k v b [] e h = ((b, e), tt)
  Readable-insert k v b ((j, w) ∷ m) e h = elim (Bool-cases (str_eq j k)) [
    | inl same ↦ rw same ((b, e), h.1)
    | inr ne ↦ rw ne (h.0, Readable-insert k v b m e h.1)
  ]

  convert_bks-Readable : (m : Dict Bk) → Readable m → (out : Dict a.Bk) × (convert_bks a m ≡ ok out)
  unfolding convert_bks
  convert_bks-Readable [] h = ([], refl)
  convert_bks-Readable ((k, v) ∷ m) h =
      let (out, e) = convert_bks-Readable m h.1 in (insert k h.0.0 out, rw (h.0.1, e) refl)

  -- What the loop makes of one entry, if anything.
  abbrev bk_of : Outcome a.Bk → Option a.Bk
  bk_of (ok b) = some b
  bk_of (err e) = none
  bk_of panic = none

  abbrev bind_bk : Option Bk → Option a.Bk
  bind_bk none = none
  bind_bk (some v) = bk_of (read_bk a v)

  lookup-convert_bks :
      (j : Str) (m : Dict Bk) (out : Dict a.Bk)
      → convert_bks a m ≡ ok out
      → lookup j out ≡ bind_bk (lookup j m)
  unfolding convert_bks lookup
  lookup-convert_bks j [] out h = let e : [] ≡ out = cc h in rw (← e) refl
  lookup-convert_bks j ((k, v) ∷ m) out h =
      let (b, eb, h') =
        >>=-eq-ok (read_bk a v) (λ b. convert_bks a m >>= λ rest. ok (insert k b rest)) h in
      let (rest, er, h'') = >>=-eq-ok (convert_bks a m) (λ rest. ok (insert k b rest)) h' in
      let e : insert k b rest ≡ out = cc h'' in
      rw (← e, lookup-insert, lookup-convert_bks j m rest er) (ground (arith, eb))

  -- A printed parameter is readable.
  read_bk-bk_to_text : AliceLaws a → (b : a.Bk) → read_bk a (bk_to_text a b) ≡ ok b
  unfolding read_bk bk_to_text
  read_bk-bk_to_text laws b =
      rw (set_string-to_string (a.bk_x b), read_bk) (ap (λ x. ok x) (laws.bk_of_parts b))

  Readable-map_values : AliceLaws a → (m : Dict a.Bk) → Readable (map_values (bk_to_text a) m)
  unfolding map_values
  Readable-map_values laws [] = tt
  Readable-map_values laws ((k, b) ∷ m) =
      Readable-insert k (bk_to_text a b) b (map_values (bk_to_text a) m) (read_bk-bk_to_text laws b)
        (Readable-map_values laws m)

  lookup_printed :
      AliceLaws a
      → (j : Str) (m : Dict a.Bk) → bind_bk (lookup j (map_values (bk_to_text a) m)) ≡ lookup j m
  lookup_printed laws j m = elim (Option-cases (lookup j m)) [
    | inl e ↦ rw (lookup-map_values, e) refl
    | inr (b, e) ↦ rw (lookup-map_values, e) (ap bk_of (read_bk-bk_to_text laws b))
  ]

  read_share-ok : (share : Str) (z : ℤ) → set_string share ≡ some z → read_share a share ≡ ok z
  unfolding read_share
  read_share-ok share z h = rw (h, read_share) refl

  convert_dkg_result-ok :
      (k : Pubkey) (share : Str) (m : Dict Bk) (point : a.Point) (z : ℤ) (out : Dict a.Bk)
      → a.new_ec_point k.x k.y ≡ ok point
      → set_string share ≡ some z
      → convert_bks a m ≡ ok out
      → convert_dkg_result a k share m ≡ ok (record { public_key = point; share = z; bks = out })
  unfolding convert_dkg_result
  convert_dkg_result-ok k share m point z out hp hs hb =
      let hr = read_share-ok share z hs in simp (hp, hr, hb)

  -- The same public key, share and Birkhoff parameters.
  pub record SameOutput (result : ProcessResult a) (out : Output a) : Type 0 where
    pub public_key : out.public_key ≡ result.public_key
    pub share : out.share ≡ result.share
    pub bks : (peer_id : Str) → lookup peer_id out.bks ≡ lookup peer_id result.bks

  -- The wallet that PostProcessResult prints is accepted by NewPubkey and ConvertDKGResult, and they
  -- give back the public key, the share and every peer's Birkhoff parameter it was printed from.
  pub post_process_round_trip :
      AliceLaws a
      → (result : ProcessResult a)
      → (k : Pubkey) × (out : Output a) × (new_pubkey (post_process_result a result).pubkey ≡ ok k)
        × (convert_dkg_result a k
              (post_process_result a result).share
              (post_process_result a result).bks
            ≡ ok out)
        × SameOutput result out
  unfolding post_process_result convert_dkg_result
  post_process_round_trip laws result =
      let m = map_values (bk_to_text a) result.bks in
      let (bks, e) = convert_bks-Readable m (Readable-map_values laws result.bks) in
      (
        record { x = a.get_x result.public_key; y = a.get_y result.public_key },
        record { public_key = result.public_key; share = result.share; bks = bks },
        new_pubkey-get_str _,
        convert_dkg_result-ok _ _ m result.public_key result.share bks
            (laws.point_of_coordinates result.public_key) (set_string-to_string result.share) e,
        record {
          public_key = refl;
          share = refl;
          bks = λ j. lookup-convert_bks j m bks e ∙ lookup_printed laws j result.bks;
        },
      )
