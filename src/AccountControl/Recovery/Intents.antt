-- ===== src/AccountControl/Recovery/Intents.antt =====
-- internal/accountcontrol/recovery.go: the intent of a stored winner wants what the winner wanted.
use mathlib.Core.Path.{subst}
use sub2api_account_schedule.Base.{
  ◌≡◌, refl, sym, Bool, true, false, Option, none, some, arith, if◌then◌else◌,
}
use sub2api_account_schedule.Base.Int.{ℤ}
use sub2api_account_schedule.ControlPlane.Types
use sub2api_account_schedule.ControlPlane.Types.{
  DesiredState, schedulable_state, load_factor_state, new_account_resource, Result,
}
use sub2api_account_schedule.ControlPlane.Intent.{
  Intent, IntentMetadata, is_none, new_intent, new_account_schedulable_intent,
  new_account_load_factor_intent,
}
use sub2api_account_schedule.AccountControl.Types.{same_int}
use sub2api_account_schedule.AccountControl.Records.{Account, Mutation, Winning}
use sub2api_account_schedule.AccountControl.Projection.{
  account_matches_intent, account_matches_state, state_from_account,
}
use sub2api_account_schedule.AccountControl.Program.{matches_requested}
use sub2api_account_schedule.AccountControl.Overrides.{good, from_result}
use sub2api_account_schedule.AccountControl.Closing.{
  winning_value, winning_metadata, intent_from_winning_mutation,
}

schedulable_made :
    (m : IntentMetadata) (account : ℤ) (b : Bool) (i : Intent)
    → from_result (new_account_schedulable_intent m account b) ≡ good i
    → schedulable_state b ≡ i.desired_state
unfolding new_account_schedulable_intent new_account_resource new_intent
schedulable_made m account b i h = ground arith

load_factor_made :
    (m : IntentMetadata) (account : ℤ) (v : Option ℤ) (i : Intent)
    → from_result (new_account_load_factor_intent m account v) ≡ good i
    → load_factor_state v ≡ Types.ok i.desired_state
unfolding new_account_load_factor_intent new_account_resource new_intent
load_factor_made m account v i h = ground arith

matches_load_factor :
    (v : Option ℤ) (d : DesiredState) (a : Account)
    → load_factor_state v ≡ Types.ok d
    → account_matches_state a.schedulable a.load_factor d ≡ true
    → same_int a.load_factor v ≡ true
unfolding load_factor_state account_matches_state
matches_load_factor v d a e h = ground arith

same_int-none : (v : Option ℤ) → same_int v none ≡ true → is_none v ≡ true
same_int-none none h = refl
same_int-none (some a) h = cc

matches_winning :
    (account : ℤ) (w : Winning) (s : Option Bool) (i : Intent) (a : Account)
    → winning_value account w s ≡ good i
    → account_matches_intent a i ≡ true
    → matches_requested (record (w.desired) { schedulable = s }) (some (state_from_account a))
      ≡ true
unfolding account_matches_state
matches_winning account w (some b) i a made h =
    let same = schedulable_made (winning_metadata w) account b i made in
    subst (λ d. account_matches_state a.schedulable a.load_factor d ≡ true) (sym same) h
matches_winning account w none i a made h = go w.desired.load_set made
  where
    go :
        (set : Bool)
        → from_result (
            new_account_load_factor_intent
              (winning_metadata w)
              account
              (if set then w.desired.load_factor else none))
          ≡ good i
        → matches_requested
            (record { schedulable = none; load_factor = w.desired.load_factor; load_set = set })
            (some (state_from_account a))
          ≡ true
    go true e =
        matches_load_factor w.desired.load_factor i.desired_state a
          (load_factor_made (winning_metadata w) account w.desired.load_factor i e) h
    go false e = same_int-none a.load_factor (
        matches_load_factor none i.desired_state a
          (load_factor_made (winning_metadata w) account none i e) h)

-- An account that matches the intent of a stored winner is as the winner wants it.
pub winning_intent_matches :
    (m : Mutation) (i : Intent) (a : Account)
    → intent_from_winning_mutation m ≡ good i
    → account_matches_intent a i ≡ true
    → matches_requested m.winning.desired (some (state_from_account a)) ≡ true
unfolding intent_from_winning_mutation
winning_intent_matches m i a =
    matches_winning m.account_id m.winning m.winning.desired.schedulable i a
