-- ===== src/AccountControl/Locks.antt =====
-- internal/accountcontrol/lock.go: accountLocks. The store of entries is explicit, since a caller keeps
-- a pointer to its entry while the map may change.
pub mod Steps
pub mod Exclusive
mod Examples
use sub2api_account_schedule.Base.{
  ℕ, suc, ◌+◌, ◌-◌, ◌==◌, Bool, true, false, ◌&&◌, Option, none, some, if◌then◌else◌,
}
use sub2api_account_schedule.Base.Int.{ℤ, eq_ℤ}

-- `lockEntry`: the channel of capacity 1 holds a token or not.
pub record LockEntry : Type 0 where
  pub token : Bool
  pub refs : ℕ

-- `accountLocks` with its entries at addresses, and the next address that is free.
pub record AccountLocks : Type 0 where
  pub heap : ℕ → LockEntry
  pub next : ℕ
  pub entries : ℤ → Option ℕ

abbrev pub new_account_locks : AccountLocks
new_account_locks = record {
  heap = λ p. record { token = false; refs = 0 };
  next = 0;
  entries = λ k. none;
}

-- Where a caller stands: outside, in the select, inside, and between the two steps of its release.
pub data LockCaller : Type 0 where
  idle : LockCaller
  waiting holding releasing : ℤ → ℕ → LockCaller

pub data LockEvent : Type 0 where
  request : ℤ → LockEvent
  obtain cancel give_back drop_ref : LockEvent

abbrev pub set_entry : ℕ → LockEntry → AccountLocks → AccountLocks
set_entry p e l = record l { heap = λ q. if q == p then e else l.heap q }

abbrev pub set_key : ℤ → Option ℕ → AccountLocks → AccountLocks
set_key k o l = record l { entries = λ j. if eq_ℤ j k then o else l.entries j }

abbrev pub set_token : ℕ → Bool → AccountLocks → AccountLocks
set_token p b l = set_entry p (record (l.heap p) { token = b }) l

-- `l.entries[accountID] == entry`
abbrev pub is_entry : Option ℕ → ℕ → Bool
is_entry none p = false
is_entry (some q) p = q == p

-- `releaseRef`
abbrev pub release_ref : ℤ → ℕ → AccountLocks → AccountLocks
release_ref k p l =
    let refs = (l.heap p).refs - 1 in
    let lowered = set_entry p (record (l.heap p) { refs = refs }) l in
    if refs == 0 && (l.heap p).token && is_entry (l.entries k) p
    then set_key k none lowered
    else lowered

-- The first part of `acquire`, under the mutex.
abbrev pub add_ref : ℤ → AccountLocks → Option ℕ → LockCaller × AccountLocks
add_ref k l (some p) =
    (waiting k p, set_entry p (record (l.heap p) { refs = suc (l.heap p).refs }) l)
add_ref k l none = (
  waiting k l.next,
  set_key k (some l.next)
      (set_entry l.next (record { token = true; refs = 1 }) (record l { next = suc l.next })),
)

-- One step of a caller; none where it is not possible. A send to a full channel waits.
unfoldable pub lock_step :
    LockEvent → LockCaller → AccountLocks → Option (LockCaller × AccountLocks)
lock_step (request k) idle l = some (add_ref k l (l.entries k))
lock_step obtain (waiting k p) l =
    if (l.heap p).token then some (holding k p, set_token p false l) else none
lock_step cancel (waiting k p) l = some (idle, release_ref k p l)
lock_step give_back (holding k p) l =
    if (l.heap p).token then none else some (releasing k p, set_token p true l)
lock_step drop_ref (releasing k p) l = some (idle, release_ref k p l)
lock_step _ _ l = none
