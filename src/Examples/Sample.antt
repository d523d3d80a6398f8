-- ===== src/Examples/Sample.antt =====
-- A small instance of the crates on which the theorems are applied: a signature is the text of the
-- wallet that made it, so that recovering it is reading it.
use native.Mathlib.Decide.{ℕ_discrete}
use ai_wallet.Prelude.{
  ℕ, zero, suc, ◌≡◌, refl, arith, String, List, [], ◌∷◌, ◌++◌, Option, none, some, Result, ok, err,
  leb, ltb, ◌&&◌, if◌then◌else◌, str_eq, eq_iff, Bool-cases, inl, inr, as_bytes, ℤ,
}
use ai_wallet.Number.{show_ℕ}
use ai_wallet.Crates.{Crates, Bytes}
use ai_wallet.Crates.Laws.{IsBytes, HexLaws, EthersLaws, WalletLaws, HttpLaws}
use ai_wallet.Examples.Hex.{encode, decode, decode-encode}

pub data Json : Type 0 where
  text : String → Json
  number : ℕ → Json
  texts : List String → Json
  fields : List (String × String) → Json

abbrev string_of : Json → String
string_of (text s) = s
string_of (number n) = show_ℕ n
string_of (texts s) = "list"
string_of (fields f) = "object"

abbrev flat : List (String × Json) → List (String × String)
flat [] = []
flat ((k, v) ∷ m) = (k, string_of v) ∷ flat m

abbrev pub look : String → List (String × String) → Option String
look k [] = none
look k ((j, v) ∷ m) = if str_eq j k then some v else look k m

abbrev as_text : Option String → Option Json
as_text none = none
as_text (some s) = some (text s)

abbrev json_get : Json → String → Option Json
json_get (fields m) k = as_text (look k m)
json_get _ k = none

abbrev json_as_str : Json → Option String
json_as_str (text s) = some s
json_as_str _ = none

abbrev string_discrete : (s t : String) → Dec (s ≡ t)
string_discrete s t = elim (Bool-cases (str_eq s t)) [
  | inl e ↦ yes ((eq_iff s t).0 e)
  | inr e ↦ no (λ p. absurd (ground (arith, (eq_iff s t).1 p)))
]

abbrev zeros : ℕ → Bytes
zeros zero = []
zeros (suc n) = 0 ∷ zeros n

abbrev typed : Json → Result String String
typed (text s) = ok s
typed _ = err "no typed data"

abbrev pub sample : Crates
sample = record {
  Uuid = ℕ;
  uuid_eq = ℕ_discrete;
  show_uuid = show_ℕ;
  DateTime = ℤ;
  timestamp = λ t. t;
  Value = Json;
  json_string = text;
  json_number = number;
  json_uuid = number;
  json_strings = texts;
  json_object = λ m. fields (flat m);
  json_get = json_get;
  json_as_str = json_as_str;
  show_value = string_of;
  hex_encode = encode;
  hex_decode = decode;
  base64_encode = encode;
  Mac = Bytes;
  mac_new_from_slice = λ key. ok key;
  mac_update = λ mac bytes. mac ++ bytes;
  mac_finalize = λ mac. mac;
  HeaderMap = List (String × String);
  HeaderValue = String;
  header_get = λ m k. look k m;
  header_to_str = λ v. ok v;
  show_status = show_ℕ;
  is_success = λ n. leb 200 n && ltb n 300;
  Address = String;
  address_eq = string_discrete;
  address_from_str = λ s. ok s;
  show_address = λ a. a;
  U256 = String;
  u256_from_dec_str = λ s. ok s;
  u256_from_u64 = show_ℕ;
  hash_message = as_bytes;
  id = λ s. zeros 4;
  Token = String;
  token_address = λ a. a;
  token_uint = λ u. u;
  abi_encode = λ ts. zeros 64;
  Signature = String;
  signature_from_str = λ s. ok s;
  show_signature = λ s. s;
  recover = λ s digest. ok s;
  TypedData = String;
  typed_data_from_value = typed;
  domain_chain_id = λ t. some "1";
  encode_eip712 = λ t. ok (as_bytes t);
  TypedTransaction = Bytes;
  eip1559 = λ from to gas value calldata nonce fee tip chain. calldata;
  sighash = λ tx. tx;
  LocalWallet = String;
  wallet_from_str = λ key. ok key;
  with_chain_id = λ w n. w;
  wallet_address = λ w. w;
  sign_message = λ w m. ok w;
  sign_typed_data = λ w t. ok w;
  sign_transaction = λ w tx. ok w;
}

zeros-IsBytes : (n : ℕ) → IsBytes (zeros n)
zeros-IsBytes zero = tt
zeros-IsBytes (suc n) = (omega arith, zeros-IsBytes n)

pub sample_hex : HexLaws sample
sample_hex = record { encode_nil = refl; decode_encode = decode-encode }

pub sample_ethers : EthersLaws sample
sample_ethers = record {
  address_of_show = λ a. refl;
  u256_of_decimal = λ n h. tt;
  id_bytes = λ s. zeros-IsBytes 4;
  id_length = λ s. omega arith;
  abi_bytes = λ ts. zeros-IsBytes 64;
  abi_length = λ a u. refl;
}

pub sample_wallet : WalletLaws sample
sample_wallet = record {
  v = λ s. 27;
  signature_of_show = λ s small. refl;
  v_message = λ w m s h. omega arith;
  v_typed_data = λ w t s h. omega arith;
  chain_address = λ w n. refl;
  recover_message = λ w m s h. ground arith;
  recover_typed_data = λ w t d s e h. ground arith;
}

pub sample_http : HttpLaws sample
sample_http = record { success_iff = λ n. refl }
