-- ===== src/Crates.antt =====
-- The third-party crates that the program calls, as one record of types and operations: uuid,
-- chrono, serde_json, hex, base64, hmac with sha2, http, and ethers. Nothing of them is defined here;
-- what a theorem assumes of them is named in Crates/Laws.
pub mod Laws
use ai_wallet.Prelude.{ℕ, String, Bool, List, Option, Result, ℤ}

-- `Vec<u8>`.
abbrev pub Bytes : Type 0
Bytes = List ℕ

pub record Crates : Type 1 where
  -- uuid and chrono
  pub Uuid : Type 0
  pub uuid_eq : Discrete Uuid
  pub show_uuid : Uuid → String
  pub DateTime : Type 0
  pub timestamp : DateTime → ℤ
  -- serde_json: `json!` of a text, a number, a uuid, a list of texts and an object
  pub Value : Type 0
  pub json_string : String → Value
  pub json_number : ℕ → Value
  pub json_uuid : Uuid → Value
  pub json_strings : List String → Value
  pub json_object : List (String × Value) → Value
  pub json_get : Value → String → Option Value
  pub json_as_str : Value → Option String
  pub show_value : Value → String
  -- hex, base64
  pub hex_encode : Bytes → String
  pub hex_decode : String → Result Bytes String
  pub base64_encode : Bytes → String
  -- hmac and sha2
  pub Mac : Type 0
  pub mac_new_from_slice : Bytes → Result Mac String
  pub mac_update : Mac → Bytes → Mac
  pub mac_finalize : Mac → Bytes
  -- http
  pub HeaderMap : Type 0
  pub HeaderValue : Type 0
  pub header_get : HeaderMap → String → Option HeaderValue
  pub header_to_str : HeaderValue → Result String String
  pub show_status : ℕ → String
  pub is_success : ℕ → Bool
  -- ethers-core
  pub Address : Type 0
  pub address_eq : Discrete Address
  pub address_from_str : String → Result Address String
  pub show_address : Address → String
  pub U256 : Type 0
  pub u256_from_dec_str : String → Result U256 String
  pub u256_from_u64 : ℕ → U256
  pub hash_message : String → Bytes
  pub id : String → Bytes
  pub Token : Type 0
  pub token_address : Address → Token
  pub token_uint : U256 → Token
  pub abi_encode : List Token → Bytes
  pub Signature : Type 0
  pub signature_from_str : String → Result Signature String
  pub show_signature : Signature → String
  pub recover : Signature → Bytes → Result Address String
  pub TypedData : Type 0
  pub typed_data_from_value : Value → Result TypedData String
  pub domain_chain_id : TypedData → Option U256
  pub encode_eip712 : TypedData → Result Bytes String
  pub TypedTransaction : Type 0
  -- `Eip1559TransactionRequest`: from, to, gas, value, data, nonce, max fee, max priority fee, chain
  pub eip1559 : Address → Address → U256 → U256 → Bytes → U256 → U256 → U256 → ℕ → TypedTransaction
  pub sighash : TypedTransaction → Bytes
  -- ethers-signers
  pub LocalWallet : Type 0
  pub wallet_from_str : String → Result LocalWallet String
  pub with_chain_id : LocalWallet → ℕ → LocalWallet
  pub wallet_address : LocalWallet → Address
  pub sign_message : LocalWallet → String → Result Signature String
  pub sign_typed_data : LocalWallet → TypedData → Result Signature String
  pub sign_transaction : LocalWallet → TypedTransaction → Result Signature String
