-- ===== src/Tss/Alice.antt =====
-- What utils/tss takes from the libraries it calls: the points and Birkhoff parameters of
-- getamis/alice, and the hash and point encodings of go-ethereum and decred. They are parameters.
use meemaw.Prelude.{ℕ, ◌≡◌, Str, Outcome, ok}
use meemaw.Prelude.Int.{ℤ}
use meemaw.Encoding.Hex.{Bytes}

pub record Alice : Type 1 where
  pub Point : Type 0  -- ecpointgrouplaw.ECPoint
  pub new_ec_point : ℤ → ℤ → Outcome Point
  pub get_x : Point → ℤ
  pub get_y : Point → ℤ
  pub Bk : Type 0  -- birkhoffinterpolation.BkParameter
  pub new_bk_parameter : ℤ → ℕ → Bk
  pub bk_x : Bk → ℤ
  pub bk_rank : Bk → ℕ
  pub marshal_point : ℤ → ℤ → Bytes  -- elliptic.Marshal(S256(), x, y)
  pub keccak256 : Bytes → Bytes
  pub address_hex : Bytes → Str  -- common.Address.Hex

-- A point has its coordinates, and a parameter is its coordinate with its rank.
pub record AliceLaws (a : Alice) : Type 0 where
  pub point_of_coordinates : (p : a.Point) → a.new_ec_point (a.get_x p) (a.get_y p) ≡ ok p
  pub bk_of_parts : (b : a.Bk) → a.new_bk_parameter (a.bk_x b) (a.bk_rank b) ≡ b
