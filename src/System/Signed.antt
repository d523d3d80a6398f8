-- ===== src/System/Signed.antt =====
-- Signatures, approvals and audit events of a running server.
use mathlib.Core.List.{Mem, mem-append_left, mem-append_right, mem-cons_self}
use mathlib.Core.List.Perm
use ai_wallet.Prelude.{
  ◌≡◌, ◌≢◌, refl, List, [], ◌∷◌, ◌++◌, map, Option, none, ok, arith, Result-cases, inl, inr, All,
}
use ai_wallet.Crates.{Crates}
use ai_wallet.Audit.Journal.{IsReliable}
use ai_wallet.Model.{
  approved, denied, requires_review, PolicyDecision, AuditEvent, AuditEventInput, SignedArtifact,
  SignIntentRequest, SignIntentResponse,
}
use ai_wallet.Policy.{evaluate}
use ai_wallet.Signer.{SignerGateway}
use ai_wallet.Intent.{handle_sign_intent, intent_event}
use ai_wallet.Intent.Approval.{Signed, handle_sign_intent_ok}
use ai_wallet.Api.Types.{Call, Reply, Draws, AppState, Store}
use ai_wallet.Api.{handle, sign_intent_handler}
use ai_wallet.System.{Happened, Server, begin, Run}
use ai_wallet.System.History.{All-middle, Run-All}
use ai_wallet.System.Owed.{input_of, owed, trail}
use ai_wallet.System.Trail.{Run-trail}

module _ (K : Crates) where
  -- An answer with a signature is to an intent that the policy approves.
  abbrev IsApproved : Happened K → Type 0
  IsApproved (Happened.answered (Call.sign_intent req) (Reply.signed response)) =
      response.signed_artifact ≢ none → evaluate K req ≡ ok approved
  IsApproved _ = Unit

  Signed-approved :
      (signer : SignerGateway K) (id : K.Uuid) (now : K.DateTime) (req : SignIntentRequest K)
      (d : PolicyDecision) (artifact : Option SignedArtifact)
      → Signed K signer id now req d artifact
      → artifact ≢ none
      → d ≡ approved
  Signed-approved signer id now req approved artifact s some_ = refl
  Signed-approved signer id now req denied artifact s some_ = absurd (some_ s)
  Signed-approved signer id now req requires_review artifact s some_ = absurd (some_ s)

  mem-trail :
      (before : List (Happened K)) (h : Happened K) (after : List (Happened K))
      (event : AuditEventInput K)
      → Mem event (owed K h)
      → Mem event (trail K (before ++ h ∷ after))
  mem-trail [] h after event m = mem-append_left (trail K after) m
  mem-trail (x ∷ before) h after event m =
      mem-append_right (owed K x) (mem-trail before h after event m)

  module _ {S : Type 0} (app : AppState K S) where
    sign-IsApproved :
        (draws : Draws K) (req : SignIntentRequest K) (s : Store K S)
        (response : SignIntentResponse K)
        → (handle K app draws (Call.sign_intent req) s).0 ≡ ok (Reply.signed response)
        → response.signed_artifact ≢ none
        → evaluate K req ≡ ok approved
    unfolding handle sign_intent_handler
    sign-IsApproved draws req s response e some_ =
        elim (Result-cases (handle_sign_intent K app.signer draws.id draws.now req)) [
          | inr (x, failed) ↦ absurd (ground arith)
          | inl ((r, event), made) ↦
              let facts = handle_sign_intent_ok K app.signer draws.id draws.now req r event made in
              let same : r ≡ response = ground arith in
              let decision =
                Signed-approved app.signer draws.id draws.now req r.decision r.signed_artifact
                  facts.1 (rw same some_) in
              rw decision at facts.0
        ]

    handle-IsApproved :
        (draws : Draws K) (call : Call K) (s : Store K S) (reply : Reply K)
        → (handle K app draws call s).0 ≡ ok reply
        → IsApproved (Happened.answered call reply)
    handle-IsApproved draws (Call.sign_intent req) s (Reply.signed response) e =
        sign-IsApproved draws req s response e
    handle-IsApproved draws call s reply e = tt

    Run-IsApproved :
        {audited : S} {w : Server K app}
        → Run K app (begin K app audited) w
        → All IsApproved w.history
    Run-IsApproved =
        Run-All K IsApproved app handle-IsApproved (λ id now request response audited reply e. tt)
          (λ outcome status. tt)

    -- No signature leaves the server without an approval and a trace: if an answer to a sign intent
    -- bears a signature, then the policy approves that intent, and the event of that answer is in the
    -- journal or among the spawned tasks that still have to record theirs. The repository takes every
    -- event, and the server has started from an empty journal.
    pub signed-on_record :
        (journal : S → List (AuditEvent K)) {audited : S} {w : Server K app}
        (before after : List (Happened K)) (req : SignIntentRequest K)
        (response : SignIntentResponse K)
        → IsReliable K app.audit journal
        → journal audited ≡ []
        → Run K app (begin K app audited) w
        → w.history
          ≡ before ++ Happened.answered (Call.sign_intent req) (Reply.signed response) ∷ after
        → response.signed_artifact ≢ none
        → (evaluate K req ≡ ok approved)
          × Mem
              (intent_event K req response)
              (map (input_of K) (journal w.store.audited) ++ w.store.spawned)
    signed-on_record journal {w} before after req response reliable empty r e some_ =
        let all : All IsApproved w.history = Run-IsApproved r in
        (
          All-middle K IsApproved before
              (Happened.answered (Call.sign_intent req) (Reply.signed response)) after (rw e at all)
              some_,
          (Perm.mem_iff (Run-trail K app journal reliable empty r)).1 (
              rw e (
                mem-trail before (Happened.answered (Call.sign_intent req) (Reply.signed response))
                  after (intent_event K req response) mem-cons_self)),
        )
