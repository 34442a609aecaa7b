-- ===== src/Tx/Forms.antt =====
-- The transactions that NewEthereumTxWithJson makes, and which of them can be signed (utils/tx/tx.go).
use meemaw.Prelude.{◌≡◌, refl, ap, ◌∙◌, false, none, some, [], Str, ok, err, GoError}
use meemaw.Prelude.Int.{ℤ, pos}
use meemaw.Encoding.Hex.{Bytes}
use meemaw.Tx.{
  Base, Value, null, parse_big_int, TransactionParams, TxData, dynamic_fee, DynamicFeeTx, legacy,
  Ethereum, EthereumTx, is_null, tx_data, new_ethereum_tx_with_json, sign, signed_with,
}
use meemaw.Tx.Numbers.{Denotes, parse_big_int-Denotes}

-- What a field gives: the integer that it denotes, and 0 where it is not there.
pub data Amount (b : Base) (z : ℤ) (v : Value b) : Type 0 where
  given : Denotes b z v → Amount b z v
  absent : v ≡ null → z ≡ pos 0 → Amount b z v

parse_big_int-Amount : (b : Base) (z : ℤ) (v : Value b) → Amount b z v → parse_big_int b v ≡ z
unfolding parse_big_int
parse_big_int-Amount b z v (given h) = parse_big_int-Denotes b z v h
parse_big_int-Amount b z v (absent none_there zero_is) = rw (none_there, zero_is) refl

-- What a transaction pays for its gas: at most so much with such a tip, or a price.
pub data Fee : Type 0 where
  capped : ℤ → ℤ → Fee
  priced : ℤ → Fee

unfoldable pub HasFee : {b : Base} → TransactionParams b → Fee → Type 0
HasFee {b} p (capped cap tip) =
    Denotes b cap p.max_fee_per_gas × Amount b tip p.max_priority_fee_per_gas
HasFee {b} p (priced price) = (p.max_fee_per_gas ≡ null) × Amount b price p.gas_price

-- The numbers of a decoded transaction.
pub record IsTransaction {b : Base} (p : TransactionParams b) (nonce value gas : ℤ) (fee : Fee)
    : Type 0 where
  pub nonce_is : Amount b nonce p.nonce
  pub value_is : Amount b value p.value
  pub gas_is : Amount b gas p.gas_limit
  pub fee_is : HasFee p fee

-- The transaction of go-ethereum with these numbers.
unfoldable pub transaction : {b : Base} → TransactionParams b → ℤ → ℤ → ℤ → ℤ → Fee → TxData b
transaction {b} p id nonce value gas (capped cap tip) = dynamic_fee (record {
  chain_id = id;
  nonce = b.uint64 nonce;
  to = b.hex_to_address p.to;
  value = value;
  gas_fee_cap = cap;
  gas_tip_cap = tip;
  gas = b.uint64 gas;
  data_bytes = b.from_hex p.data_text;
  access_list = p.access_list;
})
transaction {b} p id nonce value gas (priced price) = legacy (record {
  nonce = b.uint64 nonce;
  gas_price = price;
  gas = b.uint64 gas;
  to = b.hex_to_address p.to;
  value = value;
  data_bytes = b.from_hex p.data_text;
})

module _ {b : Base} (g : Ethereum b) where
  is_null-Denotes : (z : ℤ) (v : Value b) → Denotes b z v → is_null g v ≡ false
  unfolding is_null
  is_null-Denotes z v Denotes.as_int64 = refl
  is_null-Denotes z v Denotes.as_int = refl
  is_null-Denotes z v Denotes.as_big_int = refl
  is_null-Denotes z v Denotes.as_decimal = refl
  is_null-Denotes z v (Denotes.as_float64 x e) = refl
  is_null-Denotes z v (Denotes.as_hexadecimal n e) = refl
  is_null-Denotes z v (Denotes.as_dotted s no_prefix dotted read) = refl

  tx_data-IsTransaction :
      (p : TransactionParams b) (id nonce value gas : ℤ) (fee : Fee)
      → IsTransaction p nonce value gas fee
      → tx_data g p id ≡ transaction p id nonce value gas fee
  unfolding tx_data transaction HasFee is_null
  tx_data-IsTransaction p id nonce value gas (capped cap tip) h =
      rw
        (
          is_null-Denotes cap p.max_fee_per_gas h.fee_is.0,
          parse_big_int-Amount b nonce p.nonce h.nonce_is,
          parse_big_int-Amount b value p.value h.value_is,
          parse_big_int-Amount b gas p.gas_limit h.gas_is,
          parse_big_int-Denotes b cap p.max_fee_per_gas h.fee_is.0,
          parse_big_int-Amount b tip p.max_priority_fee_per_gas h.fee_is.1,
        )
        refl
  tx_data-IsTransaction p id nonce value gas (priced price) h =
      rw
        (
          h.fee_is.0,
          parse_big_int-Amount b nonce p.nonce h.nonce_is,
          parse_big_int-Amount b value p.value h.value_is,
          parse_big_int-Amount b gas p.gas_limit h.gas_is,
          parse_big_int-Amount b price p.gas_price h.fee_is.1,
        )
        refl

  -- A transaction and the EIP-155 signer of a chain.
  abbrev pub made_from : TxData b → ℤ → EthereumTx g
  made_from d id = record { tx = some (g.new_tx d); signer = g.new_eip155_signer id; hash = [] }

  new_ethereum_tx_with_json-made :
      (json : Str) (p : TransactionParams b) (chain : Value b)
      → g.unmarshal_json json ≡ ok p
      → new_ethereum_tx_with_json g json chain
        ≡ ok (made_from (tx_data g p (parse_big_int b chain)) (parse_big_int b chain))
  unfolding new_ethereum_tx_with_json
  new_ethereum_tx_with_json-made json p chain h = rw h refl

  -- The decoded fields give a nonce, a value and a gas limit, in any of the forms of a number, or 0 where
  -- a field is not there, and the chain id is in one of these forms. With a maximum fee in one of these forms, a DynamicFeeTx of exactly these
  -- numbers, the maximum fee as its fee cap and the priority fee as its tip is made for the chain id;
  -- without one, a LegacyTx with the gas price. Its signer is the EIP-155 signer of the chain id.
  pub new_ethereum_tx_with_json-IsTransaction :
      (json : Str) (p : TransactionParams b) (chain : Value b) (id nonce value gas : ℤ) (fee : Fee)
      → g.unmarshal_json json ≡ ok p
      → Denotes b id chain
      → IsTransaction p nonce value gas fee
      → new_ethereum_tx_with_json g json chain
        ≡ ok (made_from (transaction p id nonce value gas fee) id)
  new_ethereum_tx_with_json-IsTransaction json p chain id nonce value gas fee hp denotes h =
      new_ethereum_tx_with_json-made json p chain hp
      ∙ ap (λ z. ok (made_from (tx_data g p z) z)) (parse_big_int-Denotes b id chain denotes)
      ∙ ap (λ d. ok (made_from d id)) (tx_data-IsTransaction p id nonce value gas fee h)

  -- A transaction with a maximum fee, in one of the forms of a number, is made as a DynamicFeeTx, and its signer is the EIP-155 signer, which
  -- refuses every other type than LegacyTx: each Sign of it fails, and leaves no transaction.
  pub sign-dynamic_fee :
      (json : Str) (p : TransactionParams b) (chain : Value b) (tx : EthereumTx g) (z : ℤ)
      (signature : Bytes) (refused : GoError)
      → ((d : DynamicFeeTx b) (id : ℤ)
          → g.with_signature (some (g.new_tx (dynamic_fee d))) (g.new_eip155_signer id) signature
            ≡ err refused)
      → g.unmarshal_json json ≡ ok p
      → Denotes b z p.max_fee_per_gas
      → new_ethereum_tx_with_json g json chain ≡ ok tx
      → sign g tx signature ≡ ok (err refused, record tx { tx = none })
  unfolding sign signed_with tx_data
  sign-dynamic_fee json p chain tx z signature refused law hp denotes made =
      let id : ℤ = parse_big_int b chain in
      let same : made_from (tx_data g p id) id ≡ tx =
        cc (made, new_ethereum_tx_with_json-made json p chain hp) in
      rw (← same, is_null-Denotes z p.max_fee_per_gas denotes, law) refl
