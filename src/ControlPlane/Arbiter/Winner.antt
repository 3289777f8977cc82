-- ===== src/ControlPlane/Arbiter/Winner.antt =====
-- internal/controlplane/arbiter.go: what the winner, the superseded and the ignored of a result are.
use sub2api_account_schedule.Base.{ℕ, ◌≡◌, Bool, false, none, some, List, [], All}
use sub2api_account_schedule.ControlPlane.Intent.{Intent}
use sub2api_account_schedule.ControlPlane.Arbiter.{
  ArbitrationResult, candidate_wins, superseded_reason,
}
use sub2api_account_schedule.ControlPlane.Arbiter.Reasons.{IsChosen, IsIgnored}

-- What holds of the result of one conflict key.
pub record IsDecided (p : ℕ → Bool) (input : List Intent) (now : ℕ) (r : ArbitrationResult)
    : Type 0 where
  -- The winner is live, belongs to the key and agrees with the live intents of its idempotency key,
  -- and no superseded intent wins against it.
  pub winner_live : (i : Intent) → r.winner ≡ some i → IsChosen p input now r.conflict_key i
  pub winner_first :
      (i : Intent) → r.winner ≡ some i → All (λ o. candidate_wins p o.intent i ≡ false) r.superseded
  -- Each superseded intent could have won too, and its reason compares it with the winner.
  pub losers :
      (i : Intent)
      → r.winner ≡ some i
      → All
          (λ o.
            IsChosen p input now r.conflict_key o.intent
            × (o.reason_code ≡ superseded_reason i o.intent))
          r.superseded
  -- Without a winner nothing is superseded.
  pub no_winner : r.winner ≡ none → r.superseded ≡ []
  pub ignored_reasoned : All (IsIgnored p input now r.conflict_key) r.ignored
