-- ===== src/AccountControl/Recovery/Discipline.antt =====
-- internal/accountcontrol/recovery.go: what `recoverOne` keeps to against every environment.
use sub2api_account_schedule.Base.{
  ℕ, zero, suc, ◌≡◌, refl, Bool, true, false, Option, none, some, arith,
}
use sub2api_account_schedule.Base.Int.{eq_ℤ-self}
use sub2api_account_schedule.AccountControl.Records.{Mutation}
use sub2api_account_schedule.AccountControl.Projection.{ExternalError}
use sub2api_account_schedule.AccountControl.Program.{
  ret, call, release_slot, release_lock, acquire_slot, acquire_lock, Keeps, is_inner, is_truthful,
  Command,
}
use sub2api_account_schedule.AccountControl.Program.Laws.{Keeps-after, Keeps-weaken}
use sub2api_account_schedule.AccountControl.Overrides.{ServiceError, external}
use sub2api_account_schedule.AccountControl.Submit.Quiet.{Any}
use sub2api_account_schedule.AccountControl.Submit.Watched.{Observes}
use sub2api_account_schedule.AccountControl.Recovery.Observed.{recover_one-Watches}
use sub2api_account_schedule.AccountControl.Recovery.{
  recover_locked, after_slot, after_lock, recover_one,
}
use sub2api_account_schedule.AccountControl.Submit.Balance.{
  Held, nothing_held, held_after, Balanced, Balanced-inner,
}
use sub2api_account_schedule.AccountControl.Recovery.Inside.{recover_locked-Keeps}

inner-truthful : (c : Command) → is_inner c ≡ true → is_truthful c ≡ true
inner-truthful c e = grind arith

give_back-Keeps :
    (m : Mutation) (r : Option ServiceError) (n : ℕ) (j : Bool)
    → Keeps is_truthful Any n j
        (call release_slot (λ _. call (release_lock m.account_id) (λ _. ret r)))
give_back-Keeps m r zero j = (refl, refl, λ a. (refl, refl, λ b. tt))
give_back-Keeps m r (suc n) j = (refl, refl, λ a. (refl, refl, λ b. tt))

after_slot-Keeps :
    (m : Mutation) (e : Option ExternalError) → Keeps is_truthful Any 1 false (after_slot m e)
after_slot-Keeps m (some e) = (refl, refl, λ a. tt)
after_slot-Keeps m none =
    Keeps-after is_truthful Any Any
      (λ r. call release_slot (λ _. call (release_lock m.account_id) (λ _. ret r))) 1 false
      (recover_locked m) (λ r n j u. give_back-Keeps m r n j)
      (Keeps-weaken is_inner is_truthful Any inner-truthful 1 false (recover_locked m)
        (recover_locked-Keeps m))

after_lock-Keeps :
    (m : Mutation) (e : Option ExternalError) → Keeps is_truthful Any 1 false (after_lock m e)
after_lock-Keeps m (some e) = tt
after_lock-Keeps m none = (refl, refl, after_slot-Keeps m)

-- Recovery writes an account at most once, directly after a call that stored the mutation as
-- executing, and it commits a mutation as applied only with an account state that is what the stored
-- winner wants, and that is the one its account had in the last listing of the accounts, with no
-- write and no failed listing since.
pub recover_is_disciplined :
    (m : Mutation) → Keeps is_truthful Any 1 false (recover_one m) × Observes none (recover_one m)
unfolding recover_one
recover_is_disciplined m = ((refl, refl, after_lock-Keeps m), recover_one-Watches m none)

module _ (m : Mutation) where
  abbrev in_lock : Held
  in_lock = record nothing_held { locked = some m.account_id }

  unlock-Balanced :
      (r : Option ServiceError) → Balanced in_lock (call (release_lock m.account_id) (λ _. ret r))
  unlock-Balanced r = (rw (eq_ℤ-self m.account_id), λ a. refl)

  after_slot-Balanced :
      (e : Option ExternalError) → Balanced (held_after in_lock acquire_slot e) (after_slot m e)
  after_slot-Balanced (some e) = unlock-Balanced (some (external e))
  after_slot-Balanced none =
      Balanced-inner Any
        (λ r. call release_slot (λ _. call (release_lock m.account_id) (λ _. ret r)))
        (record in_lock { slot = true }) (λ r. (refl, λ a. unlock-Balanced r)) 1 false
        (recover_locked m) (recover_locked-Keeps m)

  after_lock-Balanced :
      (e : Option ExternalError)
      → Balanced (held_after nothing_held (acquire_lock m.account_id) e) (after_lock m e)
  after_lock-Balanced (some e) = refl
  after_lock-Balanced none = (refl, after_slot-Balanced)

  -- Recovery gives back the lock of the account and its slot, however it ends.
  pub recover_gives_back : Balanced nothing_held (recover_one m)
  unfolding recover_one
  recover_gives_back = (refl, after_lock-Balanced)
