-- ===== src/Fields.antt =====
-- src/service.rs, the three helpers that read a field of a request: `parse_address`, `parse_u256`
-- and `parse_bytes_hex`.
pub mod Hex
pub mod Ok
use ai_wallet.Prelude.{String, Result, ok, err, map_err, unwrap_or, strip_0x, ◌⧺◌}
use ai_wallet.Crates.{Crates, Bytes}
use ai_wallet.Error.{AppError, bad_request}

abbrev pub invalid : String → String → String → AppError
invalid label value e = bad_request ("invalid " ⧺ label ⧺ " `" ⧺ value ⧺ "`: " ⧺ e)

module _ (K : Crates) where
  unfoldable pub parse_address : String → Result K.Address AppError
  parse_address value = map_err (invalid "address" value) (K.address_from_str value)

  unfoldable pub parse_u256 : String → String → Result K.U256 AppError
  parse_u256 label value = map_err (invalid label value) (K.u256_from_dec_str value)

  unfoldable pub parse_bytes_hex : String → String → Result Bytes AppError
  unfolding strip_0x
  parse_bytes_hex label value =
      map_err (invalid label value) (K.hex_decode (unwrap_or value (strip_0x value)))
