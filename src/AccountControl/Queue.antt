-- ===== src/AccountControl/Queue.antt =====
-- internal/accountcontrol/lock.go: the candidate queue, which lets submissions that overlap see each
-- other while they wait for the lock of their account.
pub mod Tidy
use sub2api_account_schedule.Base.{
  ℕ, ◌+◌, ◌%◌, ◌^◌, Bool, true, false, not, ◌&&◌, ◌||◌, List, [], ◌∷◌, ◌++◌, Text, text_eq, trim,
  is_blank, any, all, if◌then◌else◌, ◌==◌,
}
use sub2api_account_schedule.Base.Int.{ℤ, eq_ℤ}
use sub2api_account_schedule.ControlPlane.Types.{Operation, same_operation, account_id_of}
use sub2api_account_schedule.ControlPlane.Intent.{Intent}
use sub2api_account_schedule.AccountControl.Types.{OverrideKind}
use sub2api_account_schedule.AccountControl.Records.{Submission}
use sub2api_account_schedule.AccountControl.Overrides.{override_kind_for_submission}

pub record QueuedCandidate : Type 0 where
  pub token : ℕ
  pub request_key : Text
  pub intent : Intent
  pub kind : OverrideKind
  pub completed : Bool

pub record CandidateKey : Type 0 where
  pub account_id : ℤ
  pub operation : Operation

-- The map is an association list; a key that is missing has no candidates.
pub record CandidateQueue : Type 0 where
  pub next : ℕ
  pub entries : List (CandidateKey × List QueuedCandidate)

abbrev pub new_candidate_queue : CandidateQueue
new_candidate_queue = record { next = 0; entries = [] }

unfoldable pub same_candidate_key : CandidateKey → CandidateKey → Bool
same_candidate_key k l = eq_ℤ k.account_id l.account_id && same_operation k.operation l.operation

abbrev pub key_of : Intent → CandidateKey
key_of i = record { account_id = (account_id_of i.resource).0; operation = i.operation }

abbrev candidate_request_key : Submission → Text
candidate_request_key s =
    if is_blank s.request_idempotency_key
    then trim s.intent.idempotency_key
    else trim s.request_idempotency_key

-- `q.entries[key]`, an assignment to it, and `delete`.
unfoldable pub items_of :
    CandidateKey → List (CandidateKey × List QueuedCandidate) → List QueuedCandidate
items_of key [] = []
items_of key ((k, items) ∷ l) = elim (same_candidate_key k key) [
  | true ↦ items
  | false ↦ items_of key l
]

unfoldable pub delete :
    CandidateKey
    → List (CandidateKey × List QueuedCandidate)
    → List (CandidateKey × List QueuedCandidate)
delete key [] = []
delete key ((k, items) ∷ l) =
    let rest = delete key l in if same_candidate_key k key then rest else (k, items) ∷ rest

abbrev pub assign :
    CandidateKey
    → List QueuedCandidate
    → List (CandidateKey × List QueuedCandidate)
    → List (CandidateKey × List QueuedCandidate)
assign key items l = (key, items) ∷ delete key l

-- `q.next++` on a uint64.
abbrev pub next_token : CandidateQueue → ℕ
next_token q = (q.next + 1) % 2 ^ 64

unfoldable pub add : Submission → CandidateQueue → QueuedCandidate × CandidateQueue
unfolding delete items_of override_kind_for_submission
add s q =
    let key = key_of s.intent in
    let entry : QueuedCandidate = record {
      token = next_token q;
      request_key = candidate_request_key s;
      intent = s.intent;
      kind = override_kind_for_submission s;
      completed = false;
    } in
    (
      entry,
      record {
        next = next_token q;
        entries = assign key (items_of key q.entries ++ (entry ∷ [])) q.entries;
      },
    )

abbrev is_open_other : ℕ → QueuedCandidate → Bool
is_open_other except c = not (c.token == except) && not c.completed

abbrev pub has_incomplete_candidate : List QueuedCandidate → ℕ → Bool
has_incomplete_candidate items except = any (is_open_other except) items

abbrev pub all_candidates_completed : List QueuedCandidate → Bool
all_candidates_completed items = all (λ c. c.completed) items

-- The first candidate with the token is marked as completed.
unfoldable pub complete_first : ℕ → List QueuedCandidate → List QueuedCandidate
complete_first token [] = []
complete_first token (c ∷ l) =
    let rest = complete_first token l in
    if c.token == token then record c { completed = true } ∷ l else c ∷ rest

-- The first candidate with the token is taken out.
unfoldable pub remove_first : ℕ → List QueuedCandidate → List QueuedCandidate
remove_first token [] = []
remove_first token (c ∷ l) =
    let rest = remove_first token l in if c.token == token then l else c ∷ rest

abbrev pub kept :
    CandidateKey
    → List QueuedCandidate
    → List (CandidateKey × List QueuedCandidate)
    → List (CandidateKey × List QueuedCandidate)
kept key items l = if all_candidates_completed items then delete key l else assign key items l

-- An empty list is one whose candidates are all completed.
unfoldable pub finish : CandidateKey → ℕ → Bool → CandidateQueue → CandidateQueue
unfolding items_of complete_first remove_first delete
finish key token retain q =
    let items = items_of key q.entries in
    if not (any (λ c. c.token == token) items)
    then q
    else if retain && has_incomplete_candidate items token
    then record q { entries = assign key (complete_first token items) q.entries }
    else record q { entries = kept key (remove_first token items) q.entries }

-- The candidates that another submission of the same resource sees.
abbrev is_competing : QueuedCandidate → QueuedCandidate → Bool
is_competing entry c = not (c.token == entry.token) && not (text_eq c.request_key entry.request_key)

unfoldable pub keep_competing : QueuedCandidate → List QueuedCandidate → List QueuedCandidate
keep_competing entry [] = []
keep_competing entry (c ∷ l) =
    let rest = keep_competing entry l in if is_competing entry c then c ∷ rest else rest

unfoldable pub competing_candidates : QueuedCandidate → CandidateQueue → List QueuedCandidate
unfolding keep_competing items_of
competing_candidates entry q = keep_competing entry (items_of (key_of entry.intent) q.entries)

-- What submissions do to the queue, one after the other under its mutex.
pub data QueueEvent : Type 0 where
  added : Submission → QueueEvent
  finished_one : CandidateKey → ℕ → Bool → QueueEvent

unfoldable pub run_queue : List QueueEvent → CandidateQueue → CandidateQueue
unfolding add finish
run_queue [] q = q
run_queue (added s ∷ l) q = run_queue l (add s q).1
run_queue (finished_one key token retain ∷ l) q = run_queue l (finish key token retain q)
