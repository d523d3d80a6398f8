-- ===== src/Examples/Clients.antt =====
-- A client that signs its request, at a concrete input.
use ai_wallet.Prelude.{
  none, ◌≡◌, ◌≢◌, refl, arith, String, List, ◌∷◌, [], some, ok, pos, eq_refl, as_bytes,
}
use ai_wallet.Number.{show_ℤ}
use ai_wallet.Auth.{ApiAuth, HttpRequest}
use ai_wallet.Auth.Client.{
  Name, key, timestamp, signature, header_name, Headers, HeaderLaws, signed_headers,
}
use ai_wallet.Api.Types.{Endpoint}
use ai_wallet.Api.{run_handler, serve}
use ai_wallet.Api.Admits.{serve-signed_headers}
use ai_wallet.Examples.Sample.{sample, look}
use ai_wallet.Examples.Requests.{guard, body, app, extract, draws, store}

abbrev client : Headers sample
client = record {
  empty = [];
  insert = λ m name value. (name, value) ∷ m;
  from_str = λ text. ok text;
}

look-inserted :
    (m : List (String × String)) (name value : String) → look name ((name, value) ∷ m) ≡ some value
look-inserted m name value = ground (arith, eq_refl name)

look-other :
    (m : List (String × String)) (n n' : Name) (value : String)
    → n ≢ n'
    → look (header_name n') ((header_name n, value) ∷ m) ≡ look (header_name n') m
look-other m key key value h = absurd (h refl)
look-other m key timestamp value h = refl
look-other m key signature value h = refl
look-other m timestamp key value h = refl
look-other m timestamp timestamp value h = absurd (h refl)
look-other m timestamp signature value h = refl
look-other m signature key value h = refl
look-other m signature timestamp value h = refl
look-other m signature signature value h = absurd (h refl)

client-HeaderLaws : HeaderLaws sample client
client-HeaderLaws = record {
  get_inserted = look-inserted;
  get_other = look-other;
  to_str_from = λ text value made. ground arith;
}

-- The HMAC of the sample is the key and the text, in hex.
abbrev sent : List (String × String)
sent =
    ("x-ai-wallet-signature", "sha256=73313730300a504f53540a2f76312f696e74656e74730a37623764")
    ∷ ("x-ai-wallet-timestamp", "1700")
    ∷ ("x-ai-wallet-key", "key")
    ∷ []

abbrev call : HttpRequest sample
call = record {
  headers = sent;
  method = "POST";
  path = "/v1/intents";
  query = none;
  to_bytes = λ limit. ok body;
}

sends : signed_headers sample client guard (pos 1700) "POST" "/v1/intents" body ≡ ok sent
unfolding signed_headers show_ℤ as_bytes
sends = refl

serve-signed_headers_example :
    serve sample (app (ApiAuth.hmac guard)) extract (pos 1800) draws Endpoint.sign_intent call store
    ≡ run_handler sample
        (app (ApiAuth.hmac guard))
        extract
        draws
        Endpoint.sign_intent
        (record call { to_bytes = λ _. ok body })
        store
serve-signed_headers_example =
    serve-signed_headers sample client client-HeaderLaws (app (ApiAuth.hmac guard)) extract draws
      store guard Endpoint.sign_intent call body 1800 300 (pos 1700) refl refl (omega arith)
      (omega arith) (omega arith) refl refl sends
