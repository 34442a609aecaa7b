-- ===== src/Tss/Wallet/Merge.antt =====
-- MergeDkgResults (utils/tss/tssManager.go): the devices of two views of one wallet together.
use meemaw.Prelude.{
  ◌≡◌, refl, ◌↔◌, inl, inr, Option-cases, merge, none, some, arith, Str, str_eq_iff, str_eq_refl,
  lookup, lookup-merge, or_else, lookup-nil, [],
}
use meemaw.Tss.Wallet.{DkgResult, Bk, merge_dkg_results}

-- The same wallet, seen with two sets of devices.
pub record SameWallet (first second : DkgResult) : Type 0 where
  pub address : first.address ≡ second.address
  pub peer_id : first.peer_id ≡ second.peer_id
  pub share : first.share ≡ second.share
  pub pubkey : first.pubkey ≡ second.pubkey

-- Merging succeeds for two views of one wallet. The result is that wallet, its parameters are those
-- of either view, and where both have a peer the second view's parameter stands.
pub merge_same_wallet :
    (first second : DkgResult)
    → SameWallet first second
    → (merged : DkgResult) × (merge_dkg_results first second ≡ some merged)
      × SameWallet first merged
      × ((peer_id : Str)
          → lookup peer_id merged.bks
            ≡ or_else (lookup peer_id second.bks) (lookup peer_id first.bks))
unfolding merge_dkg_results
merge_same_wallet first second same = (
  record {
    pubkey = first.pubkey;
    bks = merge second.bks (merge first.bks []);
    share = first.share;
    address = first.address;
    peer_id = first.peer_id;
  },
  ground (
    arith,
    str_eq_refl first.address,
    str_eq_refl first.peer_id,
    str_eq_refl first.share,
    str_eq_refl first.pubkey.x,
    str_eq_refl first.pubkey.y,
  ),
  record { address = refl; peer_id = refl; share = refl; pubkey = refl },
  λ peer_id. ground (
    arith,
    lookup-merge peer_id second.bks (merge first.bks []),
    lookup-merge peer_id first.bks [],
    lookup-nil {V = Bk} peer_id,
  ),
)

pub merged_same :
    (first second merged : DkgResult)
    → merge_dkg_results first second ≡ some merged
    → SameWallet first second
unfolding merge_dkg_results
merged_same first second merged h = ground (
  arith,
  str_eq_iff first.address second.address,
  str_eq_iff first.peer_id second.peer_id,
  str_eq_iff first.share second.share,
  str_eq_iff first.pubkey.x second.pubkey.x,
  str_eq_iff first.pubkey.y second.pubkey.y,
)

-- Merging is refused exactly if the two views are not of one wallet.
merge_refused_iff :
    (first second : DkgResult)
    → (merge_dkg_results first second ≡ none) ↔ (¬ SameWallet first second)
merge_refused_iff first second = (
  (λ h same. let (merged, e, _, _) = merge_same_wallet first second same in cc (h, e)),
  (λ other. elim (Option-cases (merge_dkg_results first second)) [
    | inl e ↦ e
    | inr (merged, e) ↦ absurd (other (merged_same first second merged e))
  ]),
)
