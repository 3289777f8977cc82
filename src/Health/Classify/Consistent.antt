-- ===== src/Health/Classify/Consistent.antt =====
-- internal/health/v3.go: a class and the flags that the decisions read.
use sub2api_account_schedule.Base.{
  ◌≡◌, refl, Bool, true, false, Text, if◌then◌else◌, to_lower, trim,
}
use sub2api_account_schedule.Health.Classify.{
  SignalClass, operational, performance_slow, credential_failure, infrastructure_failure,
  capacity_limited, semantic_mismatch, client_error, model_unsupported, unknown, Check,
  ClassifiedCheck, finish, is_slow, is_normal, is_failed, is_rejected, is_unsupported, is_mismatch,
  is_client_message, is_limited, is_unreachable, is_server_error, is_client_status, classify_status,
  classify_message, classify_check,
}

-- The upstream answered the request.
abbrev pub is_success : SignalClass → Bool
is_success operational = true
is_success performance_slow = true
is_success semantic_mismatch = true
is_success _ = false

-- The upstream cannot be used.
abbrev pub is_hard : SignalClass → Bool
is_hard credential_failure = true
is_hard infrastructure_failure = true
is_hard _ = false

-- The result says something of the upstream.
abbrev pub is_counted : SignalClass → Bool
is_counted client_error = false
is_counted model_unsupported = false
is_counted unknown = false
is_counted _ = true

-- The flags are those of the class.
pub record IsConsistent (r : ClassifiedCheck) : Type 0 where
  pub hard : r.hard_failure ≡ is_hard r.class
  pub counted : r.counted_in_availability ≡ is_counted r.class
  pub success : r.availability_success ≡ is_success r.class

if-IsConsistent :
    (b : Bool) {r s : ClassifiedCheck}
    → IsConsistent r
    → IsConsistent s
    → IsConsistent (if b then r else s)
if-IsConsistent true h k = h
if-IsConsistent false h k = k

finish-IsConsistent :
    (c : Check) (k : SignalClass) (code why : Text)
    → IsConsistent (finish c k code why (is_hard k) (is_counted k) (is_success k))
finish-IsConsistent c k code why = record { hard = refl; counted = refl; success = refl }

module _ (c : Check) where
  status-IsConsistent : (s : Text) → IsConsistent (classify_status c s)
  unfolding classify_status
  status-IsConsistent s =
      if-IsConsistent (is_slow c s) (finish-IsConsistent c performance_slow _ _) (
        if-IsConsistent (is_normal s) (finish-IsConsistent c operational _ _) (
          if-IsConsistent (is_failed s) (finish-IsConsistent c infrastructure_failure _ _)
            (finish-IsConsistent c unknown _ _)))

  message-IsConsistent : (s m : Text) → IsConsistent (classify_message c s m)
  unfolding classify_message
  message-IsConsistent s m =
      if-IsConsistent (is_rejected c m) (finish-IsConsistent c credential_failure _ _) (
        if-IsConsistent (is_unsupported m) (finish-IsConsistent c model_unsupported _ _) (
          if-IsConsistent (is_mismatch m) (finish-IsConsistent c semantic_mismatch _ _) (
            if-IsConsistent (is_client_message m) (finish-IsConsistent c client_error _ _) (
              if-IsConsistent (is_limited c m) (finish-IsConsistent c capacity_limited _ _) (
                if-IsConsistent (is_unreachable c m)
                  (finish-IsConsistent c infrastructure_failure _ _)
                  (if-IsConsistent (is_server_error c)
                    (finish-IsConsistent c infrastructure_failure _ _)
                    (if-IsConsistent (is_client_status c s) (finish-IsConsistent c client_error _ _)
                      (status-IsConsistent s))))))))

-- Whatever the monitor reports, the three flags of the classified check are those of its class:
-- only rejected credentials and infrastructure failures are hard failures, only answered requests
-- are successes, and only the client's own errors, unsupported models and unknown results are not
-- counted.
pub classify_check-IsConsistent : (c : Check) → IsConsistent (classify_check c)
unfolding classify_check
classify_check-IsConsistent c =
    if-IsConsistent c.decrypt_failed (finish-IsConsistent c credential_failure _ _)
      (message-IsConsistent c (to_lower (trim c.status)) (to_lower (trim c.message)))
