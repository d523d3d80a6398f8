-- ===== src/Examples/Transfers.antt =====
-- Transfers and their simulation at concrete inputs.
use ai_wallet.Prelude.{
  ◌≤◌, ◌≡◌, ◌↔◌, refl, arith, String, [], ◌∷◌, none, some, Result, ok, err, true, false, pos,
  strip_0x,
}
use ai_wallet.Error.{AppError, status_code, signer_unavailable}
use ai_wallet.Audit.{memory_repository, Memory}
use ai_wallet.Fields.{parse_address, parse_u256, parse_bytes_hex}
use ai_wallet.Model.{
  erc20, static, rpc, transfer_erc20, PrepareTransferRequest, PrepareTransferResponse, SignPayload,
  AuditEvent, SimulateTransactionRequest, SimulateTransactionResponse,
}
use ai_wallet.Signer.{SignerEnvelope, LocalDevSigner, wallet, local_sign}
use ai_wallet.Transfer.{prepare_transfer, transfer_parts, calldata}
use ai_wallet.Transfer.Prepared.{prepare_transfer-eq-ok_iff}
use ai_wallet.Transfer.Signed.{local_sign-prepare_transfer}
use ai_wallet.Simulator.{
  StaticSimulator, simulate, estimate_gas, warnings_for, no_rpc_url, low_call_gas, static_simulator,
}
use ai_wallet.Simulator.Laws.{simulate_answer, simulate-prepare_transfer}
use ai_wallet.Intent.{simulate_transaction}
use ai_wallet.Intent.Simulation.{logged}
use ai_wallet.Examples.Sample.{sample, sample_ethers, sample_hex}

abbrev move : PrepareTransferRequest
move = record {
  chain_id = 1;
  from_address = "0xa1";
  to_address = "0xb2";
  asset = erc20 "0xc3" 6;
  amount = "250";
  gas_limit = none;
  max_fee_per_gas_wei = none;
  max_priority_fee_per_gas_wei = none;
  nonce = some 4;
}

abbrev zero_calldata : String
zero_calldata =
    "0x0000000000000000000000000000000000000000000000000000000000000000000000000000000000000000000000000000000000000000000000000000000000000000"

abbrev prepared : PrepareTransferResponse
prepared = record {
  operation = transfer_erc20;
  transaction = record {
    to = "0xc3";
    value_wei = "0";
    data_hex = zero_calldata;
    gas_limit = 65_000;
    max_fee_per_gas_wei = "30000000000";
    max_priority_fee_per_gas_wei = "1000000000";
    nonce = 4;
  };
}

prepare_move : prepare_transfer sample move ≡ ok prepared
unfolding prepare_transfer transfer_parts calldata parse_address parse_u256
prepare_move = refl

prepare_transfer-eq-ok_iff_example :
    (r : PrepareTransferResponse) × (prepare_transfer sample move ≡ ok r)
prepare_transfer-eq-ok_iff_example = (prepare_transfer-eq-ok_iff sample move).1 (record {
  chain = omega arith;
  sender = ("0xa1", refl);
  recipient = ("0xb2", refl);
  amount = (move.amount, refl);
  token = ("0xc3", refl);
})

abbrev no_key : LocalDevSigner sample
no_key = record { private_key = none }

abbrev key_error : AppError
key_error = signer_unavailable "AI_WALLET_DEV_PRIVATE_KEY is required for local-dev signer mode"

abbrev envelope : SignerEnvelope sample
envelope = record {
  request_id = 3;
  tenant_id = "acme";
  wallet_id = "hot";
  chain_id = 1;
  from_address = "0xa1";
  payload = SignPayload.transaction "0xc3" "0" zero_calldata 65_000 "30000000000" "1000000000" 4;
}

unsigned : local_sign sample no_key envelope ≡ err key_error
unfolding local_sign wallet
unsigned = refl

local_sign-prepare_transfer_example : status_code key_error ≡ 503
local_sign-prepare_transfer_example =
    local_sign-prepare_transfer sample sample_ethers sample_hex no_key envelope move prepared
      key_error prepare_move refl refl unsigned

abbrev offline : StaticSimulator
offline = record { rpc_url = none }

simulate-prepare_transfer_example :
    simulate sample offline (record {
      chain_id = 1;
      from_address = "0xa1";
      to = "0xc3";
      value_wei = "0";
      data_hex = zero_calldata;
      gas_limit = 65_000;
    })
    ≡ ok (record {
      mode = static;
      success = true;
      estimated_gas = 22_088;
      warnings = no_rpc_url ∷ [];
    })
simulate-prepare_transfer_example =
    simulate-prepare_transfer sample sample_ethers sample_hex offline move prepared 1 prepare_move
      refl

abbrev call : SimulateTransactionRequest
call = record {
  chain_id = 1;
  from_address = "0xa1";
  to = "0xb2";
  value_wei = "0";
  data_hex = "0xff00";
  gas_limit = 21_031;
}

abbrev refused : SimulateTransactionResponse
refused = record {
  mode = rpc;
  success = false;
  estimated_gas = 21_032;
  warnings = low_call_gas ∷ [];
}

abbrev online : StaticSimulator
online = record { rpc_url = some "http://rpc" }

read_call : parse_bytes_hex sample "data_hex" "0xff00" ≡ ok (255 ∷ 0 ∷ [])
unfolding parse_bytes_hex strip_0x
read_call = refl

simulate_call : simulate sample online call ≡ ok refused
unfolding simulate parse_address parse_u256 parse_bytes_hex strip_0x estimate_gas warnings_for
simulate_call = refl

simulate_answer_example : (false ≡ true) ↔ (21_032 ≤ 21_031)
simulate_answer_example =
    (simulate_answer sample online call refused (255 ∷ 0 ∷ []) simulate_call read_call
      (omega arith)).1

abbrev keep : Result SimulateTransactionResponse AppError × Memory sample
keep =
    simulate_transaction sample (memory_repository sample) (static_simulator sample online) 5
      (pos 1700) call []

abbrev log : SimulateTransactionResponse → Result (AuditEvent sample) AppError × Memory sample
log = logged sample (memory_repository sample) (static_simulator sample online) 5 (pos 1700) call []
