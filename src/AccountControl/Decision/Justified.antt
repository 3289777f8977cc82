-- ===== src/AccountControl/Decision/Justified.antt =====
-- internal/accountcontrol/service.go: what the status that `submissionDecision` returns says of the
-- arbitration.
use sub2api_account_schedule.Base.{
  ℕ, ◌≡◌, Bool, true, false, none, some, List, ◌∷◌, Text, text_eq, All,
}
use sub2api_account_schedule.ControlPlane.Types.{ConflictKey}
use sub2api_account_schedule.ControlPlane.Intent.{Intent, conflict_key, expired}
use sub2api_account_schedule.ControlPlane.Arbiter.{
  expired_reason, CandidateOutcome, ArbitrationResult,
}
use sub2api_account_schedule.ControlPlane.Arbiter.Reasons.{IsCandidate}
use sub2api_account_schedule.AccountControl.Types.{prepared, superseded, expired as expired_status}
use sub2api_account_schedule.AccountControl.Decision.{Decision}

-- A result of the arbitration on the conflict key of the submission.
pub data IsAbout (s : Intent) (r : ArbitrationResult) : List ArbitrationResult → Type 0 where
  first : (l : List ArbitrationResult) → r.conflict_key ≡ conflict_key s → IsAbout s r (r ∷ l)
  later : (t : ArbitrationResult) (l : List ArbitrationResult) → IsAbout s r l → IsAbout s r (t ∷ l)

-- The intent with this ID was ignored for being expired.
abbrev pub IsLate : Text → CandidateOutcome → Type 0
IsLate id o = (o.intent.id ≡ id) × (o.reason_code ≡ expired_reason)

-- Nothing of a result concerns the submission's ID: there is no winner, and no intent with the ID was
-- ignored for being expired.
abbrev pub IsSilent : Intent → ArbitrationResult → Type 0
IsSilent s r =
    r.conflict_key ≡ conflict_key s → (r.winner ≡ none) × All (λ o. IsLate s.id o → ⊥) r.ignored

-- Why a submission is carried out, superseded or expired, by the results of the arbitration.
pub data Justified (now : ℕ) (s : Intent) (results : List ArbitrationResult)
    : Decision → Type 0 where
  -- The winner of a result on the submission's key is live and has the submission's ID.
  wins :
      (w : Intent) (r : ArbitrationResult)
      → IsAbout s r results
      → r.winner ≡ some w
      → IsCandidate now (conflict_key s) w
      → w.id ≡ s.id
      → Justified now s results (some w, prepared)
  -- It is live and has another ID.
  loses :
      (w : Intent) (r : ArbitrationResult)
      → IsAbout s r results
      → r.winner ≡ some w
      → IsCandidate now (conflict_key s) w
      → text_eq w.id s.id ≡ false
      → Justified now s results (some w, superseded)
  -- A result on the key has no winner, and an intent with the key and the ID has expired.
  late :
      (i : Intent) (r : ArbitrationResult)
      → IsAbout s r results
      → r.winner ≡ none
      → conflict_key i ≡ conflict_key s
      → i.id ≡ s.id
      → expired i now ≡ true
      → Justified now s results (none, expired_status)
  absent : All (IsSilent s) results → Justified now s results (none, superseded)

-- An intent of the key that was ignored as expired.
Late : ℕ → ConflictKey → Text → Type 0
Late now k id = (i : Intent) × (conflict_key i ≡ k) × (i.id ≡ id) × (expired i now ≡ true)
