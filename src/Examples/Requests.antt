-- ===== src/Examples/Requests.antt =====
-- The HMAC check and the routes at concrete inputs.
use ai_wallet.Prelude.{
  ℕ, ◌+◌, ◌≡◌, refl, inr, arith, String, List, [], ◌∷◌, none, ok, err, false, pos, as_bytes, ◌-ℤ◌,
}
use ai_wallet.Number.{show_ℤ, parse_i64}
use ai_wallet.Crates.{Bytes}
use ai_wallet.Audit.{memory_repository, Memory}
use ai_wallet.Auth.{
  HmacAuthVerifier, ApiAuth, HttpRequest, verify, get_header, canonical, expected_signature,
  is_stale, wrap_i64, abs_i64,
}
use ai_wallet.Auth.Freshness.{overflowing, fresh_iff}
use ai_wallet.Auth.Guard.{IsAuthentic, verify_iff, Passes}
use ai_wallet.Api.Types.{Endpoint, Call, AppState, Store, Draws, Extract}
use ai_wallet.Broadcast.{new}
use ai_wallet.Signer.{mock_signer}
use ai_wallet.Simulator.{static_simulator}
use ai_wallet.Examples.Sample.{sample}

abbrev pub guard : HmacAuthVerifier
guard = record { api_key = "key"; api_secret = "s"; max_skew_seconds = pos 300 }

abbrev pub body : Bytes
body = 123 ∷ 125 ∷ []

-- The sample's HMAC of a text is the key and the text, in hex.
abbrev stamp : String
stamp = "sha256=73313730300a504f53540a2f76312f696e74656e74730a37623764"

abbrev pub headers : List (String × String)
headers =
    ("x-ai-wallet-key", "key")
    ∷ ("x-ai-wallet-timestamp", "1700")
    ∷ ("x-ai-wallet-signature", stamp)
    ∷ []

pub verified_sample : verify sample guard (pos 1800) headers "POST" "/v1/intents" body ≡ ok tt
unfolding verify get_header canonical expected_signature is_stale wrap_i64 abs_i64 parse_i64
    as_bytes ◌-ℤ◌ show_ℤ
verified_sample = refl

verify_iff_example : IsAuthentic sample guard (pos 1800) headers "POST" "/v1/intents" body
verify_iff_example =
    (verify_iff sample guard (pos 1800) headers "POST" "/v1/intents" body).0 verified_sample

fresh_iff_example : is_stale (pos 1800) (overflowing 1800) (pos 300) ≡ false
fresh_iff_example = (fresh_iff 1800 300 (overflowing 1800) (omega arith) (omega arith)).1 (inr refl)

abbrev pub request : List (String × String) → HttpRequest sample
request headers = record {
  headers = headers;
  method = "POST";
  path = "/v1/intents";
  query = none;
  to_bytes = λ limit. ok body;
}

abbrev echo : HttpRequest sample → ℕ → String × ℕ
echo request n = (request.path, n + 1)

abbrev pub app : ApiAuth → AppState sample (Memory sample)
app auth = record {
  api_auth = auth;
  signer = mock_signer sample;
  simulator = static_simulator sample (record { rpc_url = none });
  audit = memory_repository sample;
  broadcast_rpc_url = none;
}

abbrev pub store : Store sample (Memory sample)
store = record { audited = []; service = new sample; spawned = [] }

abbrev pub draws : Draws sample
draws = record { id = 1; now = pos 1800; event_id = 2; event_now = pos 1801; sent = ok tt }

abbrev pub extract : Extract sample
extract Endpoint.healthz request = ok Call.healthz
extract Endpoint.info request = ok Call.info
extract _ request = err 422

pub keyless : ¬ Passes sample guard (pos 1800) (request [])
unfolding get_header
keyless = λ (bytes, read, authentic). cc (authentic.key)

authentic : IsAuthentic sample guard (pos 1800) headers "POST" "/v1/intents" body
authentic = (verify_iff sample guard (pos 1800) headers "POST" "/v1/intents" body).0 verified_sample
