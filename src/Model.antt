-- ===== src/Model.antt =====
-- src/model.rs: the requests, responses and records of the API. A `u64` and a `u8` are native
-- numbers, and `serde_json::Value`, `Uuid` and `DateTime` are the crates' types.
use ai_wallet.Prelude.{ℕ, String, Bool, List, Option}
use ai_wallet.Crates.{Crates}

pub data MessageEncoding : Type 0 where
  eip191 eip712 : MessageEncoding

pub data OperationKind : Type 0 where
  transfer_native transfer_erc20 contract_call typed_data raw_message : OperationKind

pub data PolicyDecision : Type 0 where
  approved denied requires_review : PolicyDecision

pub data ExecutionMode : Type 0 where
  mock isolated_signer : ExecutionMode

pub data SimulationMode : Type 0 where
  static rpc : SimulationMode

pub data BroadcastState : Type 0 where
  queued submitted failed : BroadcastState

pub data TransferAsset : Type 0 where
  native : TransferAsset
  erc20 : (token_address : String) (decimals : ℕ) → TransferAsset

pub record ApiInfo : Type 0 where
  pub service : String
  pub version : String
  pub supported_chains : List String
  pub isolation_model : String
  pub auth_mode : String
  pub audit_backend : String
  pub signer_mode : String

pub record VerifyMessageRequest : Type 0 where
  pub chain_id : ℕ
  pub expected_address : String
  pub message : String
  pub signature_hex : String
  pub encoding : MessageEncoding

pub record VerifyMessageResponse : Type 0 where
  pub valid : Bool
  pub recovered_address : String
  pub chain_id : ℕ
  pub encoding : MessageEncoding

pub record VerifyTypedDataResponse : Type 0 where
  pub valid : Bool
  pub recovered_address : String
  pub chain_id : ℕ
  pub encoding : MessageEncoding
  pub digest_hex : String

pub record PolicyContext : Type 0 where
  pub actor : String
  pub purpose : String
  pub source_ip : String
  pub idempotency_key : String
  pub max_value_wei : String

pub record SignedArtifact : Type 0 where
  pub signature_hex : String
  pub digest_hex : String

pub record SignerRpcSignResponse : Type 0 where
  pub signed_artifact : SignedArtifact

pub record PrepareTransferRequest : Type 0 where
  pub chain_id : ℕ
  pub from_address : String
  pub to_address : String
  pub asset : TransferAsset
  pub amount : String
  pub gas_limit : Option ℕ
  pub max_fee_per_gas_wei : Option String
  pub max_priority_fee_per_gas_wei : Option String
  pub nonce : Option ℕ

pub record PreparedTransaction : Type 0 where
  pub to : String
  pub value_wei : String
  pub data_hex : String
  pub gas_limit : ℕ
  pub max_fee_per_gas_wei : String
  pub max_priority_fee_per_gas_wei : String
  pub nonce : ℕ

pub record PrepareTransferResponse : Type 0 where
  pub operation : OperationKind
  pub transaction : PreparedTransaction

pub record SimulateTransactionRequest : Type 0 where
  pub chain_id : ℕ
  pub from_address : String
  pub to : String
  pub value_wei : String
  pub data_hex : String
  pub gas_limit : ℕ

pub record SimulateTransactionResponse : Type 0 where
  pub mode : SimulationMode
  pub success : Bool
  pub estimated_gas : ℕ
  pub warnings : List String

pub record ListAuditEventsQuery : Type 0 where
  pub limit : Option ℕ

module _ (K : Crates) where
  open K use {Uuid, DateTime, Value}

  pub record VerifyTypedDataRequest : Type 0 where
    pub chain_id : ℕ
    pub expected_address : String
    pub typed_data : Value
    pub signature_hex : String

  pub data SignPayload : Type 0 where
    raw_message : (message : String) → SignPayload
    typed_data : (typed_data : Value) → SignPayload
    transaction :
        (to value_wei data_hex : String) (gas_limit : ℕ)
        (max_fee_per_gas_wei max_priority_fee_per_gas_wei : String) (nonce : ℕ)
        → SignPayload

  pub record SignIntentRequest : Type 0 where
    pub tenant_id : String
    pub wallet_id : String
    pub chain_id : ℕ
    pub from_address : String
    pub operation : OperationKind
    pub payload : SignPayload
    pub policy_context : PolicyContext

  pub record SignIntentResponse : Type 0 where
    pub request_id : Uuid
    pub decision : PolicyDecision
    pub execution_mode : ExecutionMode
    pub signed_artifact : Option SignedArtifact
    pub created_at : DateTime

  pub record SignerRpcSignRequest : Type 0 where
    pub request_id : Uuid
    pub tenant_id : String
    pub wallet_id : String
    pub chain_id : ℕ
    pub from_address : String
    pub payload : SignPayload

  pub record BroadcastTransactionRequest : Type 0 where
    pub request_id : Option Uuid
    pub chain_id : ℕ
    pub raw_transaction_hex : String

  pub record BroadcastTransactionResponse : Type 0 where
    pub broadcast_id : Uuid
    pub status : BroadcastState
    pub created_at : DateTime

  pub record BroadcastStatusResponse : Type 0 where
    pub broadcast_id : Uuid
    pub request_id : Option Uuid
    pub chain_id : ℕ
    pub status : BroadcastState
    pub tx_hash : Option String
    pub error : Option String
    pub created_at : DateTime
    pub updated_at : DateTime

  pub record AuditEvent : Type 0 where
    pub id : Uuid
    pub request_id : Option Uuid
    pub tenant_id : Option String
    pub wallet_id : Option String
    pub actor : Option String
    pub action : String
    pub status : String
    pub metadata : Value
    pub created_at : DateTime

  pub record AuditEventInput : Type 0 where
    pub request_id : Option Uuid
    pub tenant_id : Option String
    pub wallet_id : Option String
    pub actor : Option String
    pub action : String
    pub status : String
    pub metadata : Value

  pub record ListAuditEventsResponse : Type 0 where
    pub events : List AuditEvent

-- What `#[serde(default)]` puts in for a missing `encoding`.
unfoldable pub default_message_encoding : MessageEncoding
default_message_encoding = eip191
