-- ===== src/Reconcile/Matcher/Examples.antt =====
-- Two accounts of one upstream: the first names its monitor, the second finds it by its endpoint.
use sub2api_account_schedule.Base.{
  ◌≡◌, true, false, not, ◌&&◌, Option, none, some, List, [], ◌∷◌, ◌++◌, codes, All, any, text_eq,
  if◌then◌else◌,
}
use sub2api_account_schedule.Base.Int.{ℤ, pos, eq_ℤ}
use sub2api_account_schedule.Reconcile.Matcher.{
  UrlLibrary, Monitor, Account, Policy, resolve_bindings,
}
use sub2api_account_schedule.Reconcile.Matcher.Sound.{Sound, HasPolicy, resolve_bindings-Sound}
use sub2api_account_schedule.Reconcile.Matcher.Unmatched.{has_id, is_bound_to, unmatched_are_unused}

-- A library that takes every text for a host.
abbrev plain_library : UrlLibrary
plain_library = record {
  parse = λ raw. some (record { scheme = codes "https"; hostname = raw; port = codes "443" });
  join_host_port = λ host port. host ++ (codes ":" ++ port);
  lower = λ s. s;
  equal_fold = text_eq;
}

abbrev main_monitor : Monitor
main_monitor = record { id = pos 4; provider = codes "openai"; endpoint = codes "upstream.example" }

abbrev spare_monitor : Monitor
spare_monitor = record { id = pos 5; provider = codes "openai"; endpoint = codes "spare.example" }

abbrev two_monitors : List Monitor
two_monitors = main_monitor ∷ spare_monitor ∷ []

abbrev two_accounts : List Account
two_accounts =
    record { id = pos 8; platform = codes "openai"; base_url = codes "upstream.example" }
    ∷ record { id = pos 7; platform = codes "openai"; base_url = codes "upstream.example" }
    ∷ []

abbrev named_policy : ℤ → Option Policy
named_policy id =
    if eq_ℤ id (pos 7)
    then some (record { monitor_id = some (pos 4); excluded = false; enabled = true })
    else none

resolve_bindings-Sound_example :
    All
      (λ b. HasPolicy named_policy b × Sound plain_library two_monitors b)
      (resolve_bindings plain_library two_monitors two_accounts named_policy).0
resolve_bindings-Sound_example =
    resolve_bindings-Sound plain_library two_monitors named_policy two_accounts

unmatched_are_unused_example :
    any (has_id (pos 5)) (resolve_bindings plain_library two_monitors two_accounts named_policy).1.0
    ≡ (any (has_id (pos 5)) two_monitors
        && not (
            any
              (is_bound_to (pos 5))
              (resolve_bindings plain_library two_monitors two_accounts named_policy).0))
unmatched_are_unused_example =
    unmatched_are_unused plain_library two_monitors named_policy two_accounts (pos 5)
