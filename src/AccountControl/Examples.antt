-- ===== src/AccountControl/Examples.antt =====
-- The service with a command of an administrator that puts account 7 back to work.
use sub2api_account_schedule.Base.{
  ◌≡◌, List, All, trim, sort, ◌++◌, is_blank, ◌∷◌, refl, true, false, ◌&&◌, none, some, [], codes,
  leb, ltb,
}
use sub2api_account_schedule.Base.Int.{pos}
use sub2api_account_schedule.ControlPlane.Types
use sub2api_account_schedule.ControlPlane.Types.{
  new_account_resource, validate_resource, validate_for, admin_ui, manual_hold,
  administrator_command, set_account_schedulable, account_resource_of, schedulable_state,
}
use sub2api_account_schedule.ControlPlane.Intent.{
  Intent, IntentMetadata, normalize_metadata, canonical_evidence_refs, unique, new_intent,
  new_account_schedulable_intent, validate,
}
use sub2api_account_schedule.ControlPlane.Canonical.{semantic_signature}
use sub2api_account_schedule.AccountControl.Types.{unset_kind, temporary, pending, read_only}
use sub2api_account_schedule.AccountControl.Records.{
  Submission, Override, Event, CommandContext, Account, Control, FreezeState,
}
use sub2api_account_schedule.AccountControl.Projection.{ExternalError}
use sub2api_account_schedule.AccountControl.Program.{
  Command, Reply, run, value, failure, now, new_id, competing, get_freeze_state, list_accounts,
  find_mutation, list_overrides, prepare_mutation, update_mutation, finalize_mutation, get_control,
  get_balance_lock, get_cost_lock, set_schedulable, update_load_factor, enqueue, acquire_slot,
  release_slot, finish_candidate, acquire_lock, release_lock,
}
use sub2api_account_schedule.AccountControl.Guard.{check_safety}
use sub2api_account_schedule.AccountControl.Guard.Exact.{passes, is_permitted, check_safety-exact}
use sub2api_account_schedule.AccountControl.Overrides.{
  Go, good, override_from_intent, override_intent, checked_signature,
}
use sub2api_account_schedule.AccountControl.Overrides.RoundTrip.{
  override_intent-override_from_intent,
}
use sub2api_account_schedule.AccountControl.Submit.Balance.{
  Balanced, nothing_held, submit_gives_back,
}
use sub2api_account_schedule.AccountControl.Queue.{
  QueueEvent, added, finished_one, key_of, run_queue, new_candidate_queue,
}
use sub2api_account_schedule.AccountControl.Queue.Tidy.{Tidy, queue_stays_waiting}
use sub2api_account_schedule.AccountControl.Decision.Justified.{Justified}
use sub2api_account_schedule.AccountControl.Submit.{submit}
use sub2api_account_schedule.AccountControl.Submit.Fair.{Fair}

-- Runes of ASCII are printable, and a text is its own digest.
abbrev plain_go : Go
plain_go = record { is_print = λ c. leb 32 c && ltb c 127; sha256_hex = λ s. s }

abbrev resume : Intent
resume = record {
  id = codes "command";
  idempotency_key = codes "command-1";
  producer = admin_ui;
  authority = administrator_command;
  resource = account_resource_of (pos 7);
  operation = set_account_schedulable;
  desired_state = schedulable_state true;
  actor = codes "ops";
  reason = codes "maintenance is over";
  evidence_refs = [];
  policy_version = [];
  snapshot_version = [];
  created_at = 1000;
  expires_at = some 3000;
}

abbrev no_event : Event
no_event = record {
  id = pos 0;
  kind = [];
  severity = [];
  monitor_id = none;
  account_id = none;
  goal_id = pos 0;
  step_id = pos 0;
  message = [];
  actor = [];
  created_at = 0;
  before_state = none;
  after_state = none;
  details = none;
}

abbrev resume_submission : Submission
resume_submission = record {
  command_id = codes "cmd-1";
  intent = resume;
  request_idempotency_key = [];
  request_semantic_signature = [];
  persist_override = false;
  override_kind = unset_kind;
  revoke_override_id = [];
  safety = record { telemetry_fresh = true; cooldown_active = false };
  event = no_event;
  flap_policy = none;
}

abbrev no_command : CommandContext
no_command = record { run_id = pos 0; goal_id = pos 0; step_id = pos 0 }

abbrev thawed : FreezeState
thawed = record { mode = read_only; expires_at = some 1500 }

abbrev paused_account : Account
paused_account = record {
  id = pos 7;
  status = codes "active";
  schedulable = false;
  error_message = [];
  expires_at = none;
  load_factor = none;
  credential_status = codes "ok";
  rate_limit_reset_at = some 1800;
  overload_until = none;
  temp_unschedulable_until = none;
}

abbrev no_control : Control
no_control = record {
  account_id = pos 7;
  monitor_id = none;
  owns_pause = false;
  owner = [];
  expected_schedulable = none;
  manual_override_until = none;
  last_observed = none;
  last_decision = [];
  last_action_at = none;
  flap_active = false;
  flap_triggered_at = none;
  flap_recovery_required = pos 0;
  recent_automatic_pauses = pos 0;
  health_locked = false;
  manual_locked = false;
  balance_locked = false;
  balance_source_id = none;
  cost_locked = false;
  cost_source_id = none;
  cost_pool = [];
  owns_load_factor = false;
  original_load_factor = none;
  expected_load_factor = none;
  load_stage = [];
  load_override_until = none;
  load_pin_value = none;
  load_pin_until = none;
  load_pin_owner = [];
  load_pin_reason = [];
  recovery_step = pos 0;
  recovery_started_at = none;
  updated_at = 0;
}

abbrev silent : ExternalError
silent = record {
  is_network = true;
  is_deadline_exceeded = false;
  is_eof = false;
  is_unexpected_eof = false;
  message = codes "no answer";
}

-- The clock shows 2000, the freeze and the locks are stored, and nothing else answers.
abbrev quiet_store : (c : Command) → Reply c
quiet_store now = 2000
quiet_store new_id = failure silent
quiet_store competing = []
quiet_store get_freeze_state = value thawed
quiet_store list_accounts = failure silent
quiet_store (find_mutation key) = failure silent
quiet_store (list_overrides id operation at) = failure silent
quiet_store (prepare_mutation m o) = failure silent
quiet_store (update_mutation m) = some silent
quiet_store (finalize_mutation f) = some silent
quiet_store (get_control id) = failure silent
quiet_store (get_balance_lock id) = value none
quiet_store (get_cost_lock id) = value none
quiet_store (set_schedulable id b) = failure silent
quiet_store (update_load_factor id v) = failure silent
quiet_store enqueue = tt
quiet_store acquire_slot = none
quiet_store release_slot = tt
quiet_store (finish_candidate retain) = tt
quiet_store (acquire_lock id) = none
quiet_store (release_lock id) = tt

check_safety-exact_example :
    passes
      (run quiet_store (check_safety resume paused_account no_control resume_submission.safety))
    ≡ is_permitted resume paused_account no_control resume_submission.safety thawed none none 2000
check_safety-exact_example =
    check_safety-exact quiet_store resume paused_account no_control resume_submission.safety thawed
      none none refl refl refl

abbrev resume_events : List QueueEvent
resume_events =
    added resume_submission ∷ added resume_submission ∷ finished_one (key_of resume) 1 true ∷ []

queue_stays_waiting_example : All Tidy (run_queue resume_events new_candidate_queue).entries
queue_stays_waiting_example = queue_stays_waiting resume_events

-- A hold by an operator on the same account, which wins.
abbrev held : Intent
held = record resume {
  id = codes "hold";
  idempotency_key = codes "hold-1";
  authority = manual_hold;
  desired_state = schedulable_state false;
  expires_at = none;
}

abbrev resume_metadata : IntentMetadata
resume_metadata = record {
  id = codes "command";
  idempotency_key = codes "command-1";
  producer = admin_ui;
  authority = administrator_command;
  actor = codes "ops";
  reason = codes "maintenance is over";
  evidence_refs = [];
  policy_version = [];
  snapshot_version = [];
  created_at = 1000;
  expires_at = some 3000;
}

resume-normal : normalize_metadata resume_metadata ≡ resume_metadata
unfolding normalize_metadata canonical_evidence_refs unique trim sort
resume-normal = refl

resume-made : new_account_schedulable_intent resume_metadata (pos 7) true ≡ Types.ok resume
unfolding new_account_schedulable_intent new_account_resource new_intent normalize_metadata
    canonical_evidence_refs unique trim sort validate is_blank validate_resource validate_for
resume-made = refl

abbrev resume_override : Override
resume_override = record {
  id = codes "override-1";
  command_id = codes "cmd-1";
  intent_id = codes "command";
  idempotency_key = codes "command-1";
  semantic_signature = codes "cp-sem-v1-" ++ semantic_signature plain_go.is_print resume;
  account_id = pos 7;
  operation = set_account_schedulable;
  kind = temporary;
  schedulable = some true;
  load_factor = none;
  load_factor_set = false;
  producer = admin_ui;
  authority = administrator_command;
  actor = codes "ops";
  reason = codes "maintenance is over";
  evidence_refs = [];
  policy_version = [];
  snapshot_version = [];
  created_at = 1000;
  expires_at = some 3000;
  status = pending;
  mutation_id = [];
  revoked_at = none;
  revoked_by = [];
  revoke_reason = [];
  updated_at = 1000;
}

resume-stored :
    override_from_intent plain_go (codes "override-1") (codes "cmd-1") resume ≡ good resume_override
unfolding override_from_intent checked_signature validate is_blank validate_resource validate_for
resume-stored = refl

override_intent-override_from_intent_example : override_intent resume_override ≡ good resume
override_intent-override_from_intent_example =
    override_intent-override_from_intent plain_go (codes "override-1") (codes "cmd-1")
      resume_metadata (pos 7) true resume resume_override resume-normal resume-made resume-stored

submit_gives_back_example : Balanced nothing_held (submit plain_go no_command resume_submission)
submit_gives_back_example = submit_gives_back plain_go no_command resume_submission
