-- ===== src/Boot/App/Vouched.antt =====
-- What the replies of a service that was built are worth.
use mathlib.Core.List.{Mem, Memᴰ, Perm}
use ai_wallet.Prelude.{◌≢◌, none, ap, sym, All, ◌∷◌, ◌≡◌, subst, List, [], ◌++◌, map, ok}
use ai_wallet.Crates.{Crates}
use ai_wallet.Config.{AppConfig}
use ai_wallet.Audit.{Postgres}
use ai_wallet.Audit.Journal.{IsReliable}
use ai_wallet.Model.{
  approved, BroadcastTransactionRequest, BroadcastTransactionResponse, AuditEvent,
  SignIntentRequest, SignIntentResponse,
}
use ai_wallet.Policy.{evaluate}
use ai_wallet.Intent.{intent_event, recorded}
use ai_wallet.Api.{queued_event}
use ai_wallet.Signer.Tls.{Host}
use ai_wallet.Api.Types.{Call, Reply, AppState, Store}
use ai_wallet.Api.Front.{IsIntent, IsIntent-eq, IsSigned, replied-IsSigned, handle-IsIntent}
use ai_wallet.System.{Happened, Server, begin, placed, Run}
use ai_wallet.System.History.{All-middle, Run-All}
use ai_wallet.System.Signed.{signed-on_record}
use ai_wallet.System.Owed.{input_of, trail}
use ai_wallet.System.Trail.{Run-trail}
use ai_wallet.Boot.{Built, build_state}
use ai_wallet.Boot.Secured.{build_state-store}
use ai_wallet.Boot.App.{Web}
use ai_wallet.Boot.App.Guarded.{WebLaws}
use ai_wallet.System.Requests.{Carries}
use ai_wallet.Auth.{HttpRequest}
use ai_wallet.Boot.App.Life.{exchanges, replies_of, Life}
use ai_wallet.Boot.App.Life.Seen.{IsLife, Life-IsLife}
use ai_wallet.System.Departures.{Pending, Visit, Companion, Visit-Companion}

module _ (K : Crates) where
  -- A reply to a sign intent is given to a sign intent.
  abbrev IsMatched : Happened K → Type 0
  IsMatched (Happened.answered call reply) = IsSigned K (ok reply) → IsIntent K call
  IsMatched (Happened.settled outcome status) = Unit

  placed-unsigned :
      {S : Type 0} (app : AppState K S) (id : K.Uuid) (now : K.DateTime)
      (request : BroadcastTransactionRequest K) (response : BroadcastTransactionResponse K)
      (audited : S)
      → ¬ IsSigned K (placed K app id now request response audited).0
  unfolding placed recorded
  placed-unsigned app id now request response audited =
      replied-IsSigned K Reply.broadcast
        (recorded K app.audit id now (queued_event K request response) response audited).0
        (λ a n. n)

  Run-IsMatched :
      {S : Type 0} (app : AppState K S) {audited : S} {w : Server K app}
      → Run K app (begin K app audited) w
      → All IsMatched w.history
  Run-IsMatched app =
      Run-All K IsMatched app
        (λ draws call s reply e signed. handle-IsIntent K app draws s call (rw e signed))
        (λ id now request response audited reply e signed.
          let shown : IsSigned K (placed K app id now request response audited).0 = rw e signed in
          absurd (placed-unsigned app id now request response audited shown))
        (λ outcome status. tt)

  -- What is in the history has happened at some time.
  at_time :
      (x : Happened K) (history : List (Happened K))
      → Memᴰ x history
      → (before : List (Happened K)) × (after : List (Happened K)) × (history ≡ before ++ x ∷ after)
  at_time x [] m = elim m [ ]
  at_time x (y ∷ history) (Memᴰ.head e) = ([], history, ap (λ z. z ∷ history) (sym e))
  at_time x (y ∷ history) (Memᴰ.tail m) =
      let (before, after, same) = at_time x history m in (y ∷ before, after, ap (λ h. y ∷ h) same)

module _ (K : Crates) (H : Host K) (P : Postgres K) (web : Web K) (laws : WebLaws K web)
    (config : AppConfig) (built : Built K H P) (made : build_state K H P config ≡ ok built) where
  -- The visit of a life is one from the beginning of a server, and has its companion.
  life-Companion :
      {s : Store K built.Journal} {waiting : Pending K built.app} {replies : List (Reply K)}
      {served : List (HttpRequest K × Reply K)}
      (l : IsLife K H P web built s waiting replies served)
      → Companion K built.app built.store.audited
          (record { store = s; pending = waiting; history = l.history })
  life-Companion {s} {waiting} l = Visit-Companion K built.app (
      subst
        (λ first.
          Visit K built.app (record { store = first; pending = []; history = [] })
            (record { store = s; pending = waiting; history = l.history }))
        (build_state-store K H P config built made) l.visit)

  -- The audit of a service that was built is complete, from the HTTP request to the journal: whatever
  -- requests its app has answered, whoever waits or has left, and whatever its worker and its audit
  -- tasks have done, there is a history of the running server, callers who leave included, that comes
  -- from the state that was built to this one, with these replies in this order; and the events of the
  -- journal with those that spawned tasks still have to record are, up to their order, those that are
  -- owed to it. The repository takes every event and has started from an empty journal.
  pub Life-trail :
      {s : Store K built.Journal} {waiting : Pending K built.app} {replies : List (Reply K)}
      (journal : built.Journal → List (AuditEvent K))
      → IsReliable K built.app.audit journal
      → journal built.store.audited ≡ []
      → Life K H P web built s waiting replies
      → (history : List (Happened K)) × (replies_of K history ≡ replies)
        × Visit K built.app
            (record { store = built.store; pending = []; history = [] })
            (record { store = s; pending = waiting; history = history })
        × Perm (map (input_of K) (journal s.audited) ++ s.spawned) (trail K history)
  Life-trail journal reliable empty life =
      let l = Life-IsLife K H P web built laws life in
      (
        l.history,
        l.same,
        l.visit,
        Run-trail K built.app journal reliable empty (life-Companion l).run,
      )

  -- Every signature that a service that was built has ever given out is approved and on record: if its
  -- app has answered an HTTP request with a reply that bears one, then that request carries, on its
  -- route, a sign intent that the policy approves, and the event of that intent and reply is in the
  -- journal or among the spawned tasks that still have to record theirs, whatever else was asked and
  -- whoever has left. The repository takes every event and has started from an empty journal.
  pub Life-signed :
      {s : Store K built.Journal} {waiting : Pending K built.app} {replies : List (Reply K)}
      (journal : built.Journal → List (AuditEvent K)) (request : HttpRequest K)
      (response : SignIntentResponse K)
      → IsReliable K built.app.audit journal
      → journal built.store.audited ≡ []
      → (life : Life K H P web built s waiting replies)
      → Memᴰ (request, Reply.signed response) (exchanges K H P web built life)
      → response.signed_artifact ≢ none
      → (req : SignIntentRequest K) × Carries K web.axum request (Call.sign_intent req)
        × (evaluate K req ≡ ok approved)
        × Mem (intent_event K req response) (map (input_of K) (journal s.audited) ++ s.spawned)
  Life-signed journal request response reliable empty life m some_ =
      let l = Life-IsLife K H P web built laws life in
      let run = (life-Companion l).run in
      let (call, own, given) = l.bears request (Reply.signed response) m in
      let (before, after, e) =
        at_time K (Happened.answered call (Reply.signed response)) l.history given in
      let matched =
        All-middle K (IsMatched K) before (Happened.answered call (Reply.signed response)) after
          (rw e at (Run-IsMatched K built.app run)) tt in
      let (req, intent) = IsIntent-eq K call matched in
      let (approves, event) =
        signed-on_record K built.app journal before after req response reliable empty run
          (rw intent at e) some_ in
      (req, subst (Carries K web.axum request) intent own, approves, event)
