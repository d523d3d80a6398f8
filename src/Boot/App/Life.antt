-- ===== src/Boot/App/Life.antt =====
-- The life of a service that was built: requests at its app, rounds of its broadcast worker and spawned
-- audit tasks, in any order.
pub mod Seen
use ai_wallet.Prelude.{
  Option, ◌≡◌, refl, ap, ◌∙◌, List, [], ◌∷◌, ◌++◌, none, some, ok, err, inl, inr, ℤ, String, Result,
  length, ◌<◌,
}
use ai_wallet.Crates.{Crates}
use ai_wallet.Error.{AppError}
use ai_wallet.Audit.{Postgres}
use ai_wallet.Model.{
  AuditEventInput, BroadcastStatusResponse, BroadcastTransactionRequest,
  BroadcastTransactionResponse,
}
use ai_wallet.Broadcast.Table.{get}
use ai_wallet.Signer.Tls.{Host}
use ai_wallet.Broadcast.{BroadcastJob, receive, capacity, register, place}
use ai_wallet.Broadcast.Traced.{Answer}
use ai_wallet.Api.Types.{Call, Reply, AppState, Draws, Store, Outcome, answered, rejected}
use ai_wallet.Api.{run_spawned}
use ai_wallet.Api.Router.{Route, routes}
use ai_wallet.Api.Closed.{IsReply}
use ai_wallet.System.{
  Happened, Server, begin, round, submission, settlement, Run, Run-trans, next, queued_answer,
  placed, remember,
}
use ai_wallet.System as System
use ai_wallet.System.Requests.{IsPromptAt, IsServed, unanswered, router-IsServed}
use ai_wallet.Boot.{Built}
use ai_wallet.Boot.App.{Handler, Web, build_app}
use ai_wallet.Boot.App.Guarded.{Forwards, WebLaws}
use ai_wallet.Auth.{HttpRequest, auth_middleware}
use ai_wallet.System.Departures as Departures
use ai_wallet.System.Departures.{Pending, Change, steps, Visit, stays, goes, Run-Visit, Visit-trans}

module _ (K : Crates) where
  -- The replies that were given, the newest first.
  abbrev pub with_reply : Outcome K → List (Reply K) → List (Reply K)
  with_reply (answered (ok reply)) replies = reply ∷ replies
  with_reply (answered (err e)) replies = replies
  with_reply (rejected code) replies = replies

  -- The requests that were given a reply, each with its reply, the newest first.
  abbrev pub with_exchange :
      HttpRequest K → Outcome K → List (HttpRequest K × Reply K) → List (HttpRequest K × Reply K)
  with_exchange request (answered (ok reply)) exchanges = (request, reply) ∷ exchanges
  with_exchange request (answered (err e)) exchanges = exchanges
  with_exchange request (rejected code) exchanges = exchanges

  abbrev pub replies_of : List (Happened K) → List (Reply K)
  replies_of [] = []
  replies_of (Happened.answered call reply ∷ history) = reply ∷ replies_of history
  replies_of (Happened.settled outcome status ∷ history) = replies_of history

  module _ (H : Host K) (P : Postgres K) (web : Web K) (built : Built K H P) where
    open built use {Journal, app, store}

    -- What the app answers to a request.
    abbrev pub respond : ℤ → Draws K → Handler K Journal
    respond = (build_app K H P web built).respond

    -- A request that axum routes to the broadcast endpoint draws a new id and finds a place at once.
    abbrev pub IsReady : HttpRequest K → Draws K → Store K Journal → Type 0
    IsReady request draws s =
        (route : Route)
        → web.axum.find routes request ≡ ok route
        → IsPromptAt K app route.endpoint draws s

    -- A request that is routed to a handler, through the layer of authentication, with these arguments.
    abbrev pub Admits : ℤ → HttpRequest K → Call K → Type 0
    Admits now request call =
        (route : Route) × (web.axum.find routes request ≡ ok route)
        × (seen : HttpRequest K) × (auth_middleware K app.api_auth now (λ r t. (r, t)) request tt
            ≡ (ok seen, tt))
        × (web.axum.extract route.endpoint seen ≡ ok call)

    -- The store, the callers who have their place and wait for their record, and the replies that a
    -- service comes to. A request is answered at once, or, if it is a broadcast, waits after it is
    -- registered, for its place and for its record, and its caller may leave meanwhile.
    pub data Life : Store K Journal → Pending K app → List (Reply K) → Type 0 where
      begins : Life store [] []
      serves :
          {s : Store K Journal} {waiting : Pending K app} {replies : List (Reply K)} (now : ℤ)
          (draws : Draws K) (request : HttpRequest K)
          → Life s waiting replies
          → IsReady request draws s
          → Life
              (respond now draws request s).1
              waiting
              (with_reply (respond now draws request s).0 replies)
      waits :
          {s : Store K Journal} {waiting : Pending K app} {replies : List (Reply K)} (now : ℤ)
          (http : HttpRequest K) (id : K.Uuid) (created_at : K.DateTime)
          (request : BroadcastTransactionRequest K)
          → Life s waiting replies
          → Admits now http (Call.broadcast_transaction request)
          → get K id s.service.statuses ≡ none
          → Life (record s { service = register K id created_at request s.service }) waiting replies
      places :
          {s : Store K Journal} {waiting : Pending K app} {replies : List (Reply K)}
          (before : List (BroadcastJob K)) (job : BroadcastJob K) (after : List (BroadcastJob K))
          (status : BroadcastStatusResponse K)
          → Life s waiting replies
          → s.service.sending ≡ before ++ job ∷ after
          → length s.service.channel < capacity
          → get K job.broadcast_id s.service.statuses ≡ some status
          → Life
              (record s { service = place K before job after s.service })
              (waiting ++ (job.request, queued_answer K status) ∷ [])
              replies
      records :
          {s : Store K Journal} {waiting : Pending K app} {replies : List (Reply K)}
          (before : Pending K app) (request : BroadcastTransactionRequest K)
          (response : BroadcastTransactionResponse K) (after : Pending K app) (id : K.Uuid)
          (now : K.DateTime)
          → Life s waiting replies
          → waiting ≡ before ++ (request, response) ∷ after
          → Life
              (record s { audited = (placed K app id now request response s.audited).1 })
              (before ++ after)
              (with_reply (answered (placed K app id now request response s.audited).0) replies)
      leaves_channel :
          {s : Store K Journal} {waiting : Pending K app} {replies : List (Reply K)}
          (before : List (BroadcastJob K)) (job : BroadcastJob K) (after : List (BroadcastJob K))
          → Life s waiting replies
          → s.service.sending ≡ before ++ job ∷ after
          → Life
              (record s { service = record s.service { sending = before ++ after } })
              waiting
              replies
      leaves_record :
          {s : Store K Journal} {waiting : Pending K app} {replies : List (Reply K)}
          (before : Pending K app)
          (call : BroadcastTransactionRequest K × BroadcastTransactionResponse K)
          (after : Pending K app)
          → Life s waiting replies
          → waiting ≡ before ++ call ∷ after
          → Life s (before ++ after) replies
      receives :
          {s : Store K Journal} {waiting : Pending K app} {replies : List (Reply K)}
          (job : BroadcastJob K) (rest : List (BroadcastJob K))
          → Life s waiting replies
          → s.service.running ≡ none
          → s.service.channel ≡ job ∷ rest
          → Life (record s { service = receive K job rest s.service }) waiting replies
      finishes :
          {s : Store K Journal} {waiting : Pending K app} {replies : List (Reply K)} (id : K.Uuid)
          (event_now now : K.DateTime) (answer : Answer K) (job : BroadcastJob K)
          → Life s waiting replies
          → s.service.running ≡ some job
          → Life (round K app id event_now now (submission K app answer job) job s) waiting replies
      runs :
          {s : Store K Journal} {waiting : Pending K app} {replies : List (Reply K)}
          (before : List (AuditEventInput K)) (event : AuditEventInput K)
          (after : List (AuditEventInput K)) (id : K.Uuid) (now : K.DateTime)
          → Life s waiting replies
          → s.spawned ≡ before ++ event ∷ after
          → Life (run_spawned K app before event after id now s) waiting replies

    -- The requests that the app has answered at once with a reply, each with that reply.
    abbrev pub exchanges :
        {s : Store K Journal} {waiting : Pending K app} {replies : List (Reply K)}
        → Life s waiting replies
        → List (HttpRequest K × Reply K)
    exchanges begins = []
    exchanges (serves {s} now draws request life prompt) =
        with_exchange request (respond now draws request s).0 (exchanges life)
    exchanges (waits now http id created_at request life admitted fresh) = exchanges life
    exchanges (places before job after status life split room found) = exchanges life
    exchanges (records before request response after id now life split) = exchanges life
    exchanges (leaves_channel before job after life split) = exchanges life
    exchanges (leaves_record before call after life split) = exchanges life
    exchanges (receives job rest life idle first) = exchanges life
    exchanges (finishes id event_now now answer job life busy) = exchanges life
    exchanges (runs before event after id now life split) = exchanges life
