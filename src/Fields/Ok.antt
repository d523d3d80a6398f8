-- ===== src/Fields/Ok.antt =====
-- When the helpers that read a field succeed.
use ai_wallet.Prelude.{String, ◌≡◌, ok, arith}
use ai_wallet.Crates.{Crates}
use ai_wallet.Crates.Laws.{EthersLaws}
use ai_wallet.Fields.{parse_address, parse_u256}

module _ (K : Crates) where
  pub parse_u256-ok :
      (label value : String) {u : K.U256}
      → K.u256_from_dec_str value ≡ ok u
      → parse_u256 K label value ≡ ok u
  unfolding parse_u256
  parse_u256-ok label value e = rw e

  pub parse_u256-eq-ok :
      (label value : String) {u : K.U256}
      → parse_u256 K label value ≡ ok u
      → K.u256_from_dec_str value ≡ ok u
  unfolding parse_u256
  parse_u256-eq-ok label value e = ground arith

  pub parse_address-show :
      EthersLaws K → (a : K.Address) → parse_address K (K.show_address a) ≡ ok a
  unfolding parse_address
  parse_address-show laws a = rw (laws.address_of_show a)
