-- ===== src/Crates/Laws.antt =====
-- Documented behaviour of the crates that theorems take as hypotheses.
use ai_wallet.Prelude.{
  ℕ, ◌^◌, ◌<◌, ◌≤◌, ◌≡◌, List, [], ◌∷◌, All, length, ok, IsOk, leb, ltb, ◌&&◌, String,
}
use ai_wallet.Number.{show_ℕ}
use ai_wallet.Crates.{Crates, Bytes}

abbrev pub IsBytes : Bytes → Type 0
IsBytes = All (λ b. b < 256)

-- hex: decoding undoes encoding.
pub record HexLaws (K : Crates) : Type 0 where
  pub encode_nil : K.hex_encode [] ≡ ""
  pub decode_encode : (b : Bytes) → IsBytes b → K.hex_decode (K.hex_encode b) ≡ ok b

-- base64: the encoding of bytes determines them.
pub record Base64Laws (K : Crates) : Type 0 where
  pub encode_injective :
      (a b : Bytes) → IsBytes a → IsBytes b → K.base64_encode a ≡ K.base64_encode b → a ≡ b

-- ethers-core: an address is read back from its `{:#x}` form, a decimal number of 256 bits is read,
-- `id`, from which
-- the program takes four bytes, has as many, and two static ABI words take 64.
pub record EthersLaws (K : Crates) : Type 0 where
  pub address_of_show : (a : K.Address) → K.address_from_str (K.show_address a) ≡ ok a
  pub u256_of_decimal : (n : ℕ) → n < 2 ^ 256 → IsOk (K.u256_from_dec_str (show_ℕ n))
  pub id_bytes : (s : String) → IsBytes (K.id s)
  pub id_length : (s : String) → 4 ≤ length (K.id s)
  pub abi_bytes : (ts : List K.Token) → IsBytes (K.abi_encode ts)
  pub abi_length :
      (a : K.Address) (u : K.U256)
      → length (K.abi_encode (K.token_address a ∷ K.token_uint u ∷ [])) ≡ 64

-- ethers-signers: the text of a signature has one byte for its `v`, so it is read back where `v` fits
-- that byte, as the 27 or 28 of a message's and of typed data's does (a transaction's may not); a
-- signature names the wallet that made it, and a wallet keeps its address when it is given a chain.
pub record WalletLaws (K : Crates) : Type 0 where
  pub v : K.Signature → ℕ
  pub signature_of_show :
      (s : K.Signature) → v s < 256 → K.signature_from_str (K.show_signature s) ≡ ok s
  pub v_message :
      (w : K.LocalWallet) (m : String) (s : K.Signature) → K.sign_message w m ≡ ok s → v s ≤ 28
  pub v_typed_data :
      (w : K.LocalWallet) (t : K.TypedData) (s : K.Signature)
      → K.sign_typed_data w t ≡ ok s
      → v s ≤ 28
  pub chain_address :
      (w : K.LocalWallet) (n : ℕ) → K.wallet_address (K.with_chain_id w n) ≡ K.wallet_address w
  pub recover_message :
      (w : K.LocalWallet) (m : String) (s : K.Signature)
      → K.sign_message w m ≡ ok s
      → K.recover s (K.hash_message m) ≡ ok (K.wallet_address w)
  pub recover_typed_data :
      (w : K.LocalWallet) (t : K.TypedData) (d : Bytes) (s : K.Signature)
      → K.encode_eip712 t ≡ ok d
      → K.sign_typed_data w t ≡ ok s
      → K.recover s d ≡ ok (K.wallet_address w)

-- http: a status is a success from 200 to 299.
pub record HttpLaws (K : Crates) : Type 0 where
  pub success_iff : (n : ℕ) → K.is_success n ≡ (leb 200 n && ltb n 300)
