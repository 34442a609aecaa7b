-- ===== src/Tx.antt =====
-- utils/tx/tx.go: the transactions that the SDKs sign. go-ethereum, the JSON decoder and the conversions of
-- floating-point numbers are parameters.
pub mod Numbers
pub mod Forms
pub mod Tests
use meemaw.Prelude.{
  ℕ, Bool, ◌&&◌, List, [], ◌∷◌, Option, none, some, Str, str, has_prefix, contains, drop, length,
  ltb, if◌then◌else◌, Outcome, ok, err, panic, ◌>>=◌, GoError,
}
use meemaw.Prelude.Int.{ℤ, pos}
use meemaw.Encoding.Hex.{Bytes, encode}
use meemaw.Encoding.Decimal.{set_string}
use meemaw.Encoding.Hexadecimal.{set_string_16}

pub record Base : Type 1 where
  pub Float : Type 0  -- float64
  pub int64_of : Float → ℤ  -- int64(v)
  pub big_float : Str → Option ℤ  -- (*big.Float).SetString, then Int
  pub uint64 : ℤ → ℕ  -- (*big.Int).Uint64
  pub Address : Type 0
  pub hex_to_address : Str → Address
  pub from_hex : Str → Bytes
  pub AccessList : Type 0

-- The types that ParseBigInt tells apart, nil, and all others.
pub data Value (b : Base) : Type 0 where
  int64 int big_int : ℤ → Value b
  float64 : b.Float → Value b
  string : Str → Value b
  null other : Value b

or_zero : Option ℤ → ℤ
or_zero none = pos 0
or_zero (some z) = z

parse_string : Base → Str → ℤ
unfolding or_zero
parse_string b v =
    if ltb 2 (length v) && has_prefix (str "0x") v
    then or_zero (set_string_16 (drop 2 v))
    else if contains (str ".") v
    then or_zero (b.big_float v)
    else or_zero (set_string v)

unfoldable pub parse_big_int : (b : Base) → Value b → ℤ
unfolding parse_string
parse_big_int b (int64 v) = v
parse_big_int b (int v) = v
parse_big_int b (big_int v) = v
parse_big_int b (float64 v) = b.int64_of v
parse_big_int b (string v) = parse_string b v
parse_big_int b null = pos 0
parse_big_int b other = pos 0

pub record TransactionParams (b : Base) : Type 0 where
  pub to : Str
  pub nonce : Value b
  pub value : Value b
  pub gas_limit : Value b
  pub gas_price : Value b
  pub data_text : Str
  pub access_list : b.AccessList
  pub max_fee_per_gas : Value b
  pub max_priority_fee_per_gas : Value b

-- types.DynamicFeeTx and types.LegacyTx, with the fields that are set.
pub record DynamicFeeTx (b : Base) : Type 0 where
  pub chain_id : ℤ
  pub nonce : ℕ
  pub to : b.Address
  pub value : ℤ
  pub gas_fee_cap : ℤ
  pub gas_tip_cap : ℤ
  pub gas : ℕ
  pub data_bytes : Bytes
  pub access_list : b.AccessList

pub record LegacyTx (b : Base) : Type 0 where
  pub nonce : ℕ
  pub gas_price : ℤ
  pub gas : ℕ
  pub to : b.Address
  pub value : ℤ
  pub data_bytes : Bytes

pub data TxData (b : Base) : Type 0 where
  dynamic_fee : DynamicFeeTx b → TxData b
  legacy : LegacyTx b → TxData b

-- The calls of go-ethereum. A nil transaction is `none`.
pub record Ethereum (b : Base) : Type 1 where
  pub Transaction : Type 0
  pub Signer : Type 0
  pub new_tx : TxData b → Transaction
  pub new_eip155_signer : ℤ → Signer
  pub chain_id : Transaction → ℤ
  pub hash : Signer → Option Transaction → Outcome Bytes
  pub with_signature : Option Transaction → Signer → Bytes → Outcome Transaction
  pub encode_rlp : Transaction → Outcome Bytes
  pub decode_rlp : Bytes → Outcome Transaction
  pub unmarshal_json : Str → Outcome (TransactionParams b)

pub record EthereumTx {b : Base} (g : Ethereum b) : Type 0 where
  pub tx : Option g.Transaction
  pub signer : g.Signer
  pub hash : Bytes

module _ {b : Base} (g : Ethereum b) where
  unfoldable pub new_ethereum_tx_with_rlp : Bytes → Outcome (EthereumTx g)
  new_ethereum_tx_with_rlp encoded_raw_tx = do
    tx ← g.decode_rlp encoded_raw_tx
    ok (record { tx = some tx; signer = g.new_eip155_signer (g.chain_id tx); hash = [] })

  unfoldable pub new_ethereum_tx_with_hash : Bytes → Bytes → Outcome (EthereumTx g)
  unfolding new_ethereum_tx_with_rlp
  new_ethereum_tx_with_hash encoded_raw_tx hash = do
    tx ← new_ethereum_tx_with_rlp encoded_raw_tx
    ok (record tx { hash = hash })

  is_null : Value b → Bool
  is_null null = Bool.true
  is_null _ = Bool.false

  unfoldable pub tx_data : TransactionParams b → ℤ → TxData b
  unfolding is_null
  tx_data params chain =
      if is_null params.max_fee_per_gas
      then legacy (record {
        nonce = b.uint64 (parse_big_int b params.nonce);
        gas_price = parse_big_int b params.gas_price;
        gas = b.uint64 (parse_big_int b params.gas_limit);
        to = b.hex_to_address params.to;
        value = parse_big_int b params.value;
        data_bytes = b.from_hex params.data_text;
      })
      else dynamic_fee (record {
        chain_id = chain;
        nonce = b.uint64 (parse_big_int b params.nonce);
        to = b.hex_to_address params.to;
        value = parse_big_int b params.value;
        gas_fee_cap = parse_big_int b params.max_fee_per_gas;
        gas_tip_cap = parse_big_int b params.max_priority_fee_per_gas;
        gas = b.uint64 (parse_big_int b params.gas_limit);
        data_bytes = b.from_hex params.data_text;
        access_list = params.access_list;
      })

  unfoldable pub new_ethereum_tx_with_json : Str → Value b → Outcome (EthereumTx g)
  unfolding tx_data
  new_ethereum_tx_with_json json_data chain_id_any = do
    params ← g.unmarshal_json json_data
    let chain = parse_big_int b chain_id_any
    ok (record {
      tx = some (g.new_tx (tx_data params chain));
      signer = g.new_eip155_signer chain;
      hash = [];
    })

  unfoldable pub generate_message : EthereumTx g → Outcome (Bytes × EthereumTx g)
  generate_message tx = do
    message ← g.hash tx.signer tx.tx
    ok (message, record tx { hash = message })

  encoded : EthereumTx g → g.Transaction → Outcome Bytes → Outcome (Outcome Str × EthereumTx g)
  encoded tx signed (ok raw) = ok (ok (encode raw), record tx { tx = some signed })
  encoded tx signed (err e) = ok (err e, record tx { tx = some signed })
  encoded tx signed panic = panic

  signed_with : EthereumTx g → Outcome g.Transaction → Outcome (Outcome Str × EthereumTx g)
  unfolding encoded
  signed_with tx (ok signed) = encoded tx signed (g.encode_rlp signed)
  signed_with tx (err e) = ok (err e, record tx { tx = none })
  signed_with tx panic = panic

  -- What Sign returns, and the transaction after it: the field is set also when WithSignature failed.
  unfoldable pub sign : EthereumTx g → Bytes → Outcome (Outcome Str × EthereumTx g)
  unfolding signed_with
  sign tx signature = signed_with tx (g.with_signature tx.tx tx.signer signature)
