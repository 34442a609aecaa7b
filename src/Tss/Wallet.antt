-- ===== src/Tss/Wallet.antt =====
-- The wallet data of utils/tss/tssManager.go (Pubkey, BK, DkgResult, PostProcessResult, NewPubkey,
-- MergeDkgResults, the Ethereum address) and ConvertDKGResult of utils/tss/serviceSigner.go.
pub mod Merge
pub mod RoundTrip
use meemaw.Prelude.{
  ℕ, Bool, not, ◌||◌, [], ◌∷◌, Option, none, some, Str, str, str_eq, Dict, insert, merge,
  map_values, drop, if◌then◌else◌, Outcome, ok, err, ◌>>=◌, GoError, conversion,
}
use meemaw.Prelude.Int.{ℤ}
use meemaw.Encoding.Hex.{Bytes}
use meemaw.Encoding.Decimal.{to_string, set_string}
use meemaw.Tss.Alice.{Alice}

pub record PubkeyStr : Type 0 where
  pub x : Str
  pub y : Str

pub record Pubkey : Type 0 where
  pub x : ℤ
  pub y : ℤ

pub record Bk : Type 0 where
  pub x : Str
  pub rank : ℕ  -- uint32

pub record DkgResult : Type 0 where
  pub pubkey : PubkeyStr
  pub bks : Dict Bk
  pub share : Str
  pub address : Str
  pub peer_id : Str

abbrev pub invalid_x : GoError
invalid_x = GoError.text (str "invalid hex for X")

abbrev pub invalid_y : GoError
invalid_y = GoError.text (str "invalid hex for Y")

read_y : ℤ → Option ℤ → Outcome Pubkey
read_y x none = err invalid_y
read_y x (some y) = ok (record { x = x; y = y })

read_x : Option ℤ → Str → Outcome Pubkey
read_x none y = err invalid_x
read_x (some x) y = read_y x (set_string y)

unfoldable pub new_pubkey : PubkeyStr → Outcome Pubkey
unfolding read_x read_y
new_pubkey k = read_x (set_string k.x) k.y

unfoldable pub get_str : Pubkey → PubkeyStr
get_str k = record { x = to_string k.x; y = to_string k.y }

differ : Str → Str → Bool
differ s t = not (str_eq s t)

-- `nil, false` is `none`.
unfoldable pub merge_dkg_results : DkgResult → DkgResult → Option DkgResult
unfolding differ
merge_dkg_results first second =
    if differ first.address second.address
      || (differ first.peer_id second.peer_id
          || (differ first.share second.share
              || (differ first.pubkey.x second.pubkey.x || differ first.pubkey.y second.pubkey.y)))
    then none
    else some (record {
      pubkey = first.pubkey;
      bks = merge second.bks (merge first.bks []);
      share = first.share;
      address = first.address;
      peer_id = first.peer_id;
    })

module _ (a : Alice) where
  open a use {Point, new_ec_point, get_x, get_y, marshal_point, keccak256, address_hex}

  pub record ProcessResult : Type 0 where
    pub public_key : Point
    pub share : ℤ
    pub bks : Dict a.Bk
    pub peer_id : Str

  -- dkg.Result.
  pub record Output : Type 0 where
    pub public_key : Point
    pub share : ℤ
    pub bks : Dict a.Bk

  -- FromECDSAPub, for a key whose coordinates are there.
  unfoldable pub get_bytes : Pubkey → Bytes
  get_bytes k = marshal_point k.x k.y

  -- PubkeyToAddress: the last 20 bytes of the hash of the encoding without its first byte.
  unfoldable pub get_address : Pubkey → Bytes
  unfolding get_bytes
  get_address k = drop 12 (keccak256 (drop 1 (get_bytes k)))

  -- pubKeyAddr: the same of a key given by its encoding.
  unfoldable pub pub_key_addr : Bytes → Bytes
  pub_key_addr bytes = drop 12 (keccak256 (drop 1 bytes))

  unfoldable pub get_ec_point : Pubkey → Outcome Point
  get_ec_point k = new_ec_point k.x k.y

  unfoldable pub bk_to_text : a.Bk → Bk
  bk_to_text bk = record { x = to_string (a.bk_x bk); rank = a.bk_rank bk }

  unfoldable pub post_process_result : ProcessResult → DkgResult
  unfolding get_str bk_to_text get_address
  post_process_result result =
      let pubkey : Pubkey = record { x = get_x result.public_key; y = get_y result.public_key } in
      record {
        pubkey = get_str pubkey;
        bks = map_values bk_to_text result.bks;
        share = to_string result.share;
        address = address_hex (get_address pubkey);
        peer_id = result.peer_id;
      }

  -- One entry of the loop over `cfgBKs`.
  unfoldable pub read_bk : Bk → Outcome a.Bk
  read_bk bk = elim (set_string bk.x) [
    | none ↦ err conversion
    | some x ↦ ok (a.new_bk_parameter x bk.rank)
  ]

  unfoldable pub convert_bks : Dict Bk → Outcome (Dict a.Bk)
  unfolding read_bk
  convert_bks [] = ok []
  convert_bks ((peer_id, bk) ∷ rest) = do
    b ← read_bk bk
    out ← convert_bks rest
    ok (insert peer_id b out)

  unfoldable pub read_share : Str → Outcome ℤ
  read_share s = elim (set_string s) [ none ↦ err conversion | some share ↦ ok share ]

  unfoldable pub convert_dkg_result : Pubkey → Str → Dict Bk → Outcome Output
  unfolding get_ec_point read_share convert_bks
  convert_dkg_result k cfg_share cfg_bks = do
    pubkey ← get_ec_point k
    share ← read_share cfg_share
    bks ← convert_bks cfg_bks
    ok (record { public_key = pubkey; share = share; bks = bks })
