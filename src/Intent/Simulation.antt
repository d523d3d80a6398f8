-- ===== src/Intent/Simulation.antt =====
-- What a simulation answers, and what it leaves in the audit.
use native.Mathlib.Decide.{ℕ_discrete}
use ai_wallet.Prelude.{◌≡◌, ◌≢◌, ◌⊎◌, inl, inr, Result, Result-cases, ok, err, arith, refl}
use ai_wallet.Crates.{Crates}
use ai_wallet.Error.{AppError, status_code, bad_request}
use ai_wallet.Audit.{AuditRepository}
use ai_wallet.Model.{AuditEvent, SimulateTransactionRequest, SimulateTransactionResponse}
use ai_wallet.Simulator.{TransactionSimulator}
use ai_wallet.Intent.{simulation_event, simulate_transaction}

module _ (K : Crates) {S : Type 0} (audit : AuditRepository K S) (simulator : TransactionSimulator)
    (id : K.Uuid) (now : K.DateTime) (req : SimulateTransactionRequest) (s : S) where
  -- What the audit answers to the event of a result, and the state that it leaves.
  abbrev pub logged : SimulateTransactionResponse → Result (AuditEvent K) AppError × S
  logged result = audit.record_event id now (simulation_event K req result) s

  -- A simulation on chain 0 is a 400, and one that the simulator fails has the simulator's error; in
  -- both cases the audit is as before. Otherwise the result's event is recorded, once, and the answer
  -- is the simulator's result if the audit takes it, else the audit's error.
  pub simulate_transaction_cases :
      ((e : AppError) × (simulate_transaction K audit simulator id now req s ≡ (err e, s))
        × (((req.chain_id ≡ 0) × (status_code e ≡ 400))
            ⊎ ((req.chain_id ≢ 0) × (simulator.simulate req ≡ err e))))
      ⊎ ((result : SimulateTransactionResponse) × (req.chain_id ≢ 0)
          × (simulator.simulate req ≡ ok result)
          × (((event : AuditEvent K) × ((logged result).0 ≡ ok event)
                × (simulate_transaction K audit simulator id now req s
                    ≡ (ok result, (logged result).1)))
              ⊎ ((e : AppError) × ((logged result).0 ≡ err e)
                  × (simulate_transaction K audit simulator id now req s
                      ≡ (err e, (logged result).1)))))
  unfolding simulate_transaction
  simulate_transaction_cases = elim (ℕ_discrete req.chain_id 0) [
    | yes z ↦ inl (bad_request "chain_id must be non-zero", ground arith, inl (z, refl))
    | no nz ↦ elim (Result-cases (simulator.simulate req)) [
      | inr (e, failed) ↦ inl (e, ground arith, inr (nz, failed))
      | inl (result, simulated) ↦ elim (Result-cases (logged result).0) [
        | inl (event, kept) ↦ inr (result, nz, simulated, inl (event, kept, ground arith))
        | inr (e, lost) ↦ inr (result, nz, simulated, inr (e, lost, ground arith))
      ]
    ]
  ]
