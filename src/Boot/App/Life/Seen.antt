-- ===== src/Boot/App/Life/Seen.antt =====
-- The life of a service that was built, as a visit of the running server.
use mathlib.Core.List.{Memᴰ}
use ai_wallet.Prelude.{
  sym, subst, Option, ◌≡◌, refl, ap, ◌∙◌, List, [], ◌∷◌, none, some, ok, err, inl, inr, ℤ, String,
  Result,
}
use ai_wallet.Crates.{Crates}
use ai_wallet.Error.{AppError}
use ai_wallet.Audit.{Postgres}
use ai_wallet.Model.{BroadcastStatusResponse}
use ai_wallet.Broadcast.Table.{get}
use ai_wallet.Signer.Tls.{Host}
use ai_wallet.Api.Types.{Call, Reply, AppState, Draws, Store, Outcome, answered, rejected}
use ai_wallet.Api.Closed.{IsReply}
use ai_wallet.System.{
  Happened, Server, begin, round, submission, settlement, Run, Run-trans, next, queued_answer,
  placed, remember,
}
use ai_wallet.System as System
use ai_wallet.System.Requests.{Carries, IsServed, unanswered, router-IsServed}
use ai_wallet.Boot.{Built}
use ai_wallet.Boot.App.{Handler, Web}
use ai_wallet.Boot.App.Guarded.{Forwards, WebLaws}
use ai_wallet.Auth.{HttpRequest}
use ai_wallet.System.Departures as Departures
use ai_wallet.System.Departures.{Pending, Change, steps, Visit, stays, goes, Run-Visit, Visit-trans}
use ai_wallet.Boot.App.Life.{
  with_exchange, exchanges, with_reply, replies_of, respond, IsReady, Life, begins, serves, waits,
  places, records, leaves_channel, leaves_record, receives, finishes, runs,
}

module _ (K : Crates) where
  -- A layer above hands the request on, or answers it by itself.
  layer-IsServed :
      {S : Type 0} {Own : Call K → Type 0} (app : AppState K S)
      (layer : (S : Type 0) → Handler K S → Handler K S) (inner : Handler K S)
      (request : HttpRequest K) (w : Server K app)
      → Forwards K layer
      → IsServed K app Own w (inner request w.store).0 (inner request w.store).1
      → IsServed K app Own w (layer S inner request w.store).0 (layer S inner request w.store).1
  layer-IsServed {S} app layer inner request w forwards served =
      elim (forwards S inner request w.store) [
        | inl same ↦ rw same served
        | inr (outcome, same, silent) ↦ rw same (unanswered K app w outcome silent)
      ]

  module _ (H : Host K) (P : Postgres K) (web : Web K) (built : Built K H P) where
    open built use {Journal, app, store}

    respond-IsServed :
        (laws : WebLaws K web) (now : ℤ) (draws : Draws K) (request : HttpRequest K)
        (w : Server K app)
        → IsReady K H P web built request draws w.store
        → IsServed K app
            (Carries K web.axum request)
            w
            (respond K H P web built now draws request w.store).0
            (respond K H P web built now draws request w.store).1
    respond-IsServed laws now draws request w h =
        layer-IsServed app web.http_trace _ request w laws.trace (
          layer-IsServed app web.permissive_cors _ request w laws.cors
            (router-IsServed K app web.axum laws.axum_laws now draws request w h))

    replies-told :
        (request : HttpRequest K) (outcome : Outcome K) (history before : List (Happened K))
        → ((reply : Reply K)
            → outcome ≡ answered (ok reply)
            → (call : Call K) × Carries K web.axum request call
              × (history ≡ Happened.answered call reply ∷ before))
        → (¬ IsReply K outcome → history ≡ before)
        → replies_of K history ≡ with_reply K outcome (replies_of K before)
    replies-told request (answered (ok reply)) history before told quiet =
        let (call, own, same) = told reply refl in ap (replies_of K) same
    replies-told request (answered (err e)) history before told quiet =
        ap (replies_of K) (quiet (λ b. b))
    replies-told request (rejected code) history before told quiet =
        ap (replies_of K) (quiet (λ b. b))

    -- Each of these replies was given, to a call that the request carries.
    abbrev pub Bears : List (HttpRequest K × Reply K) → List (Happened K) → Type 0
    Bears served history =
        (request : HttpRequest K) (reply : Reply K)
        → Memᴰ (request, reply) served
        → (call : Call K) × Carries K web.axum request call
          × Memᴰ (Happened.answered call reply) history

    Bears-later :
        (served : List (HttpRequest K × Reply K)) {history history' : List (Happened K)}
        → Bears served history
        → ((x : Happened K) → Memᴰ x history → Memᴰ x history')
        → Bears served history'
    Bears-later served h kept request reply m =
        let (call, own, given) = h request reply m in (call, own, kept _ given)

    Bears-told :
        (request : HttpRequest K) (outcome : Outcome K) (history before : List (Happened K))
        (served : List (HttpRequest K × Reply K))
        → ((reply : Reply K)
            → outcome ≡ answered (ok reply)
            → (call : Call K) × Carries K web.axum request call
              × (history ≡ Happened.answered call reply ∷ before))
        → (¬ IsReply K outcome → history ≡ before)
        → Bears served before
        → Bears (with_exchange K request outcome served) history
    Bears-told request (answered (ok reply)) history before served told quiet h r p m =
        let (call, own, same) = told reply refl in
        elim m [
          | Memᴰ.head e ↦ (
            call,
            subst (λ (x : HttpRequest K × Reply K). Carries K web.axum x.0 call) (sym e) own,
            subst (λ l. Memᴰ (Happened.answered call p) l) (sym same)
                (Memᴰ.head (ap (λ (x : HttpRequest K × Reply K). Happened.answered call x.1) e)),
          )
          | Memᴰ.tail m' ↦ let (c, its, given) = h r p m' in (c, its, rw same (Memᴰ.tail given))
        ]
    Bears-told request (answered (err e)) history before served told quiet h r p m =
        Bears-later served h (λ x m'. rw (quiet (λ b. b)) m') r p m
    Bears-told request (rejected code) history before served told quiet h r p m =
        Bears-later served h (λ x m'. rw (quiet (λ b. b)) m') r p m

    mem-settlement :
        (now : K.DateTime) (outcome : Result String AppError)
        (found : Option (BroadcastStatusResponse K)) (history : List (Happened K)) (x : Happened K)
        → Memᴰ x history
        → Memᴰ x (settlement K now outcome found history)
    mem-settlement now outcome none history x m = m
    mem-settlement now outcome (some status) history x m = Memᴰ.tail m

    mem-remember :
        (call : Call K) (r : Result (Reply K) AppError) (history : List (Happened K))
        (x : Happened K)
        → Memᴰ x history
        → Memᴰ x (remember K call r history)
    mem-remember call (ok reply) history x m = Memᴰ.tail m
    mem-remember call (err e) history x m = m

    -- A visit of the server to the store, whose history has these replies, and to these requests these.
    pub record IsLife (s : Store K Journal) (waiting : Pending K app) (replies : List (Reply K))
        (served : List (HttpRequest K × Reply K)) : Type 0 where
      pub history : List (Happened K)
      pub visit :
          Visit K app
            (record { store = store; pending = []; history = [] })
            (record { store = s; pending = waiting; history = history })
      pub same : replies_of K history ≡ replies
      pub bears : Bears served history

    replies_of-settlement :
        (now : K.DateTime) (outcome : Result String AppError)
        (found : Option (BroadcastStatusResponse K)) (history : List (Happened K))
        → replies_of K (settlement K now outcome found history) ≡ replies_of K history
    replies_of-settlement now outcome none history = refl
    replies_of-settlement now outcome (some status) history = refl

    replies_of-remember :
        (call : Call K) (r : Result (Reply K) AppError) (history : List (Happened K))
        → replies_of K (remember K call r history)
          ≡ with_reply K (answered r) (replies_of K history)
    replies_of-remember call (ok reply) history = refl
    replies_of-remember call (err e) history = refl

    -- A change that is no reply.
    silently :
        {s s' : Store K Journal} {p p' : Pending K app} {replies : List (Reply K)}
        {served : List (HttpRequest K × Reply K)} (l : IsLife s p replies served)
        → Change K app
            (record { store = s; pending = p; history = l.history })
            (record { store = s'; pending = p'; history = l.history })
        → IsLife s' p' replies served
    silently l change = record {
      history = l.history;
      visit = goes l.visit change;
      same = l.same;
      bears = l.bears;
    }

    pub Life-IsLife :
        WebLaws K web
        → {s : Store K Journal} {waiting : Pending K app} {replies : List (Reply K)}
        → (life : Life K H P web built s waiting replies)
        → IsLife s waiting replies (exchanges K H P web built life)
    Life-IsLife laws begins = record {
      history = [];
      visit = stays;
      same = refl;
      bears = λ request reply m. elim m [ ];
    }
    Life-IsLife laws (serves {s} {waiting} now draws request life prompt) =
        let l = Life-IsLife laws life in
        let w : Server K app = record { store = s; pending = waiting; history = l.history } in
        let c = respond-IsServed laws now draws request w prompt in
        record {
          history = c.history;
          visit = Visit-trans K app l.visit (Run-Visit K app c.run);
          same =
              replies-told request (respond K H P web built now draws request s).0 c.history
                l.history c.told c.quiet
              ∙ ap (with_reply K (respond K H P web built now draws request s).0) l.same;
          bears =
              Bears-told request (respond K H P web built now draws request s).0 c.history l.history
                (exchanges K H P web built life) c.told c.quiet l.bears;
        }
    Life-IsLife laws (waits now http id created_at request life admitted fresh) =
        silently (Life-IsLife laws life) (steps (System.registers id created_at request fresh))
    Life-IsLife laws (places before job after status life split room found) =
        silently (Life-IsLife laws life)
          (steps (System.places before job after status split room found))
    Life-IsLife laws (records {s} before request response after id now life split) =
        let l = Life-IsLife laws life in
        let r = (placed K app id now request response s.audited).0 in
        record {
          history = remember K (Call.broadcast_transaction request) r l.history;
          visit = goes l.visit (steps (System.records before request response after id now split));
          same =
              replies_of-remember (Call.broadcast_transaction request) r l.history
              ∙ ap (with_reply K (answered r)) l.same;
          bears =
              Bears-later (exchanges K H P web built life) l.bears
                (mem-remember (Call.broadcast_transaction request) r l.history);
        }
    Life-IsLife laws (leaves_channel before job after life split) =
        silently (Life-IsLife laws life) (Departures.leaves_channel before job after split)
    Life-IsLife laws (leaves_record before call after life split) =
        silently (Life-IsLife laws life) (Departures.leaves_record before call after split)
    Life-IsLife laws (receives job rest life idle first) =
        silently (Life-IsLife laws life) (steps (System.receives job rest idle first))
    Life-IsLife laws (finishes {s} id event_now now answer job life busy) =
        let l = Life-IsLife laws life in
        let found = get K job.broadcast_id s.service.statuses in
        record {
          history = settlement K now (submission K app answer job) found l.history;
          visit = goes l.visit (steps (System.finishes id event_now now answer job busy));
          same = replies_of-settlement now (submission K app answer job) found l.history ∙ l.same;
          bears =
              Bears-later (exchanges K H P web built life) l.bears
                (mem-settlement now (submission K app answer job) found l.history);
        }
    Life-IsLife laws (runs before event after id now life split) =
        silently (Life-IsLife laws life) (steps (System.runs before event after id now split))
