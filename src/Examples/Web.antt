-- ===== src/Examples/Web.antt =====
-- A small web framework: a route fits the path that is its pattern, and a preflight is answered by the
-- layer.
use mathlib.Core.List.{Memᴰ}
use ai_wallet.Prelude.{
  ◌≡◌, refl, arith, String, List, [], ◌∷◌, Option, none, some, Result, ok, err, inl, inr,
  Bool-cases, eq_iff, str_eq, if◌then◌else◌,
}
use ai_wallet.Api.Types.{Outcome, rejected}
use ai_wallet.Api.Router.{Route, Axum}
use ai_wallet.Api.Closed.{IsReply, AxumLaws}
use ai_wallet.Boot.App.{Handler, Web}
use ai_wallet.Boot.App.Guarded.{Forwards, WebLaws}
use ai_wallet.Examples.Sample.{sample}
use ai_wallet.Examples.Requests.{request}
use ai_wallet.Examples.Front.{extract, extract-Routes}

abbrev pub find_row : List Route → String → Option Route
find_row [] path = none
find_row (row ∷ rows) path =
    let rest = find_row rows path in if str_eq path row.pattern then some row else rest

find_row-Fits :
    (rows : List Route) (path : String) (row : Route)
    → find_row rows path ≡ some row
    → Memᴰ row rows × (path ≡ row.pattern)
find_row-Fits [] path row h = absurd (cc h)
find_row-Fits (r ∷ rows) path row h = elim (Bool-cases (str_eq path r.pattern)) [
  | inl here ↦
      let same : row ≡ r = ground arith in
      (Memᴰ.head same, rw same ((eq_iff path r.pattern).0 here))
  | inr other ↦ let (m, fits) = find_row-Fits rows path row (rw other at h) in (Memᴰ.tail m, fits)
]

abbrev pub or_404 : Option Route → Result Route (Outcome sample)
or_404 none = err (rejected 404)
or_404 (some row) = ok row

abbrev pub axum : Axum sample
axum = record { find = λ table request. or_404 (find_row table request.path); extract = extract }

or_404-found : (o : Option Route) (row : Route) → or_404 o ≡ ok row → o ≡ some row
or_404-found none row h = absurd (cc h)
or_404-found (some r) row h = ground arith

or_404-missed :
    (o : Option Route) (outcome : Outcome sample)
    → or_404 o ≡ err outcome
    → ¬ IsReply sample outcome
or_404-missed none outcome h =
    let same : rejected 404 ≡ outcome = ground arith in rw⁻¹ same (λ b. b)
or_404-missed (some r) outcome h = absurd (cc h)

axum-AxumLaws : AxumLaws sample axum
axum-AxumLaws = record {
  Fits = λ pattern path. path ≡ pattern;
  found = λ table request row h.
      find_row-Fits table request.path row (or_404-found (find_row table request.path) row h);
  literal = λ pattern path plain fits. fits;
  missed = λ table request outcome h. or_404-missed (find_row table request.path) outcome h;
  own = extract-Routes;
}

abbrev pub preflight : (S : Type 0) → Handler sample S → Handler sample S
preflight S inner request s =
    if str_eq request.method "OPTIONS" then (rejected 200, s) else inner request s

preflight-Forwards : Forwards sample preflight
preflight-Forwards S inner request s = elim (Bool-cases (str_eq request.method "OPTIONS")) [
  | inl asks ↦ inr (rejected 200, rw asks refl, λ reply. reply)
  | inr other ↦ inl (rw other refl)
]

abbrev pub web : Web sample
web = record { axum = axum; permissive_cors = preflight; http_trace = λ S inner. inner }

pub web-WebLaws : WebLaws sample web
web-WebLaws = record {
  axum_laws = axum-AxumLaws;
  cors = preflight-Forwards;
  trace = λ S inner request s. inl refl;
}
