-- ===== src/AccountControl/Queue/Tidy.antt =====
-- internal/accountcontrol/lock.go: the queue keeps no candidates that nobody waits beside.
use sub2api_account_schedule.Base.{
  ℕ, ◌≡◌, refl, Bool, true, false, not, ◌&&◌, List, [], ◌∷◌, ◌++◌, any, arith, All, if◌then◌else◌,
  ◌==◌,
}
use sub2api_account_schedule.AccountControl.Records.{Submission}
use sub2api_account_schedule.AccountControl.Queue.{
  QueuedCandidate, CandidateKey, CandidateQueue, new_candidate_queue, same_candidate_key, items_of,
  delete, assign, add, finish, has_incomplete_candidate, all_candidates_completed, complete_first,
  remove_first, kept, QueueEvent, added, finished_one, run_queue,
}

-- Some candidate of the key is not completed.
abbrev pub is_waiting : List QueuedCandidate → Bool
is_waiting = any (λ c. not c.completed)

abbrev pub Tidy : CandidateKey × List QueuedCandidate → Type 0
Tidy e = is_waiting e.1 ≡ true

delete-Tidy :
    (key : CandidateKey) (l : List (CandidateKey × List QueuedCandidate))
    → All Tidy l
    → All Tidy (delete key l)
unfolding delete
delete-Tidy key [] h = h
delete-Tidy key ((k, items) ∷ l) h = go (same_candidate_key k key) (delete-Tidy key l h.1)
  where
    go :
        (b : Bool)
        → All Tidy (delete key l)
        → All Tidy (if b then delete key l else (k, items) ∷ delete key l)
    go true rest = rest
    go false rest = (h.0, rest)

is_waiting-append :
    (l : List QueuedCandidate) (c : QueuedCandidate)
    → c.completed ≡ false
    → is_waiting (l ++ (c ∷ [])) ≡ true
is_waiting-append [] c h = ground arith
is_waiting-append (d ∷ l) c h = ground (arith, is_waiting-append l c h)

incomplete-is_waiting :
    (token : ℕ) (l : List QueuedCandidate)
    → has_incomplete_candidate l token ≡ true
    → is_waiting l ≡ true
incomplete-is_waiting token [] h = cc
incomplete-is_waiting token (c ∷ l) h = ground (arith, incomplete-is_waiting token l)

-- Completing one candidate leaves the others as they are.
is_waiting-complete_first :
    (token : ℕ) (l : List QueuedCandidate)
    → has_incomplete_candidate l token ≡ true
    → is_waiting (complete_first token l) ≡ true
unfolding complete_first
is_waiting-complete_first token [] h = cc
is_waiting-complete_first token (c ∷ l) h =
    ground (arith, incomplete-is_waiting token l, is_waiting-complete_first token l)

not_all_completed :
    (l : List QueuedCandidate) → all_candidates_completed l ≡ false → is_waiting l ≡ true
not_all_completed [] h = cc
not_all_completed (c ∷ l) h = ground (arith, not_all_completed l)

kept-Tidy :
    (key : CandidateKey) (items : List QueuedCandidate)
    (l : List (CandidateKey × List QueuedCandidate))
    → All Tidy l
    → All Tidy (kept key items l)
kept-Tidy key items l h = go (all_candidates_completed items) refl
  where
    go :
        (b : Bool)
        → all_candidates_completed items ≡ b
        → All Tidy (if b then delete key l else assign key items l)
    go true e = delete-Tidy key l h
    go false e = (not_all_completed items e, delete-Tidy key l h)

add-Tidy : (s : Submission) (q : CandidateQueue) → All Tidy q.entries → All Tidy (add s q).1.entries
unfolding add
add-Tidy s q h = (is_waiting-append (items_of _ q.entries) _ refl, delete-Tidy _ q.entries h)

finish-Tidy :
    (key : CandidateKey) (token : ℕ) (retain : Bool) (q : CandidateQueue)
    → All Tidy q.entries
    → All Tidy (finish key token retain q).entries
unfolding finish
finish-Tidy key token retain q h = found (any (λ c. c.token == token) (items_of key q.entries))
  where
    retained :
        (b : Bool)
        → (retain && has_incomplete_candidate (items_of key q.entries) token) ≡ b
        → All Tidy
            (if b
              then record q {
                entries = assign key (complete_first token (items_of key q.entries)) q.entries;
              }
              else record q {
                entries = kept key (remove_first token (items_of key q.entries)) q.entries;
              }).entries
    retained true e = (
      is_waiting-complete_first token (items_of key q.entries) (ground arith),
      delete-Tidy key q.entries h,
    )
    retained false e = kept-Tidy key (remove_first token (items_of key q.entries)) q.entries h

    found :
        (b : Bool)
        → All Tidy
            (if not b
              then q
              else if retain && has_incomplete_candidate (items_of key q.entries) token
              then record q {
                entries = assign key (complete_first token (items_of key q.entries)) q.entries;
              }
              else record q {
                entries = kept key (remove_first token (items_of key q.entries)) q.entries;
              }).entries
    found false = h
    found true = retained _ refl

run_queue-Tidy :
    (es : List QueueEvent) (q : CandidateQueue)
    → All Tidy q.entries
    → All Tidy (run_queue es q).entries
unfolding run_queue
run_queue-Tidy [] q h = h
run_queue-Tidy (added s ∷ es) q h = run_queue-Tidy es (add s q).1 (add-Tidy s q h)
run_queue-Tidy (finished_one key token retain ∷ es) q h =
    run_queue-Tidy es (finish key token retain q) (finish-Tidy key token retain q h)

-- Completed candidates are not kept on their own: after any additions and ends, retained or not, each
-- resource and operation that the queue still holds has a candidate that is not completed.
pub queue_stays_waiting :
    (es : List QueueEvent) → All Tidy (run_queue es new_candidate_queue).entries
queue_stays_waiting es = run_queue-Tidy es new_candidate_queue tt
