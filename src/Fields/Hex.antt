-- ===== src/Fields/Hex.antt =====
-- Calldata written as `0x` and hex digits, as `parse_bytes_hex` reads it.
use text.Mathlib.TextLemmas.{nil-append, cons-append}
use ai_wallet.Prelude.{String, ◌≡◌, ok, some, ◌⧺◌, strip_0x, []}
use ai_wallet.Crates.{Crates, Bytes}
use ai_wallet.Crates.Laws.{HexLaws, IsBytes}
use ai_wallet.Fields.{parse_bytes_hex}

strip_0x-append : (s : String) → strip_0x ("0x" ⧺ s) ≡ some s
unfolding strip_0x
strip_0x-append s = rw (cons-append "0" "x" s, cons-append "x" "" s, nil-append s)

module _ (K : Crates) (laws : HexLaws K) where
  pub parse_bytes_hex-encode :
      (label : String) (b : Bytes)
      → IsBytes b
      → parse_bytes_hex K label ("0x" ⧺ K.hex_encode b) ≡ ok b
  unfolding parse_bytes_hex
  parse_bytes_hex-encode label b h =
      rw (strip_0x-append (K.hex_encode b)) (rw (laws.decode_encode b h))

  pub parse_bytes_hex-empty : (label : String) → parse_bytes_hex K label "0x" ≡ ok []
  unfolding parse_bytes_hex
  parse_bytes_hex-empty label = rw (← laws.encode_nil) (rw (laws.decode_encode [] tt))
