-- ===== src/Tx/Tests.antt =====
-- Transactions with stand-ins for go-ethereum, with numbers in several forms.
use meemaw.Prelude.{
  ◌≡◌, refl, true, false, contains, ◌++◌, [], Option, none, some, Str, str, has_prefix, Outcome, ok,
  err, GoError,
}
use meemaw.Prelude.Int.{ℤ, pos, abs_ℕ}
use meemaw.Encoding.Hex.{Bytes, from_hex_digit}
use meemaw.Encoding.Hexadecimal.{hex_digits, set_string_16}
use meemaw.Encoding.Decimal.{to_string, positive}
use meemaw.Tx.{
  Base, float64, string, null, TransactionParams, TxData, dynamic_fee, legacy, Ethereum, EthereumTx,
  parse_big_int, tx_data, new_ethereum_tx_with_json, sign,
}
use meemaw.Tx.Numbers.{Denotes, parse_big_int-Denotes}
use meemaw.Tx.Forms.{
  given, capped, HasFee, IsTransaction, transaction, made_from,
  new_ethereum_tx_with_json-IsTransaction, sign-dynamic_fee,
}

abbrev base : Base
base = record {
  Float = ℤ;
  int64_of = λ z. z;
  big_float = λ s. some (pos 1);
  uint64 = abs_ℕ;
  Address = Str;
  hex_to_address = λ s. s;
  from_hex = λ s. s;
  AccessList = Unit {0};
}

-- The number 5 of a JSON text, a decimal and a hexadecimal text, and a text with a dot.
abbrev mixed_form : TransactionParams base
mixed_form = record {
  to = str "0xab";
  nonce = float64 (pos 5);
  value = string (str "0x" ++ hex_digits 301 300);
  gas_limit = string (to_string (pos 7));
  gas_price = null;
  data_text = [];
  access_list = tt;
  max_fee_per_gas = string (to_string (pos 20));
  max_priority_fee_per_gas = string (str "1.0");
}

-- A transaction is its data, and a signer its chain id.
abbrev signed_by : Option (TxData base) → ℤ → Bytes → Outcome (TxData base)
signed_by none id signature = err GoError.bad_request
signed_by (some (legacy t)) id signature = ok (legacy t)
signed_by (some (dynamic_fee t)) id signature = err GoError.conflict

abbrev ethereum : Ethereum base
ethereum = record {
  Transaction = TxData base;
  Signer = ℤ;
  new_tx = λ d. d;
  new_eip155_signer = λ id. id;
  chain_id = λ t. pos 1;
  hash = λ id t. ok [];
  with_signature = signed_by;
  encode_rlp = λ t. ok [];
  decode_rlp = λ bytes. err GoError.bad_request;
  unmarshal_json = λ s. ok mixed_form;
}

-- What a browser sends for 300.
read_300 : parse_big_int base (string (str "0x12c")) ≡ pos 300
unfolding parse_big_int str has_prefix set_string_16 positive from_hex_digit
read_300 = refl

parse_big_int-Denotes_example :
    parse_big_int base (string (str "0x" ++ hex_digits 301 300)) ≡ pos 300
parse_big_int-Denotes_example =
    parse_big_int-Denotes base (pos 300) (string (str "0x" ++ hex_digits 301 300))
      (Denotes.as_hexadecimal 300 refl)

no_prefix : has_prefix (str "0x") (str "1.0") ≡ false
unfolding has_prefix str
no_prefix = refl

dotted : contains (str ".") (str "1.0") ≡ true
unfolding contains has_prefix str
dotted = refl

mixed-IsTransaction : IsTransaction mixed_form (pos 5) (pos 300) (pos 7) (capped (pos 20) (pos 1))
unfolding HasFee
mixed-IsTransaction = record {
  nonce_is = given (Denotes.as_float64 (pos 5) refl);
  value_is = given (Denotes.as_hexadecimal 300 refl);
  gas_is = given Denotes.as_decimal;
  fee_is = (Denotes.as_decimal, given (Denotes.as_dotted (str "1.0") no_prefix dotted refl));
}

new_ethereum_tx_with_json-IsTransaction_example :
    new_ethereum_tx_with_json ethereum [] (string (to_string (pos 1)))
    ≡ ok (
        made_from ethereum
          (transaction mixed_form (pos 1) (pos 5) (pos 300) (pos 7) (capped (pos 20) (pos 1)))
          (pos 1))
new_ethereum_tx_with_json-IsTransaction_example =
    new_ethereum_tx_with_json-IsTransaction ethereum [] mixed_form (string (to_string (pos 1)))
      (pos 1) (pos 5) (pos 300) (pos 7) (capped (pos 20) (pos 1)) refl Denotes.as_decimal
      mixed-IsTransaction

abbrev unsigned : EthereumTx ethereum
unsigned = record { tx = some (tx_data ethereum mixed_form (pos 1)); signer = pos 1; hash = [] }

sign-dynamic_fee_example :
    sign ethereum unsigned [] ≡ ok (err GoError.conflict, record unsigned { tx = none })
unfolding new_ethereum_tx_with_json parse_big_int
sign-dynamic_fee_example =
    sign-dynamic_fee ethereum [] mixed_form (float64 (pos 1)) unsigned (pos 20) [] GoError.conflict
      (λ d id. refl) refl Denotes.as_decimal refl
