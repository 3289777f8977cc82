-- ===== src/AccountControl/Recovery/Examples.antt =====
-- A mutation that pauses account 7 and was executing when the program stopped.
use sub2api_account_schedule.Base.{true, false, none, some, [], codes}
use sub2api_account_schedule.Base.Int.{pos}
use sub2api_account_schedule.ControlPlane.Types.{
  admin_ui, administrator_command, set_account_schedulable,
}
use sub2api_account_schedule.AccountControl.Types.{executing, temporary}
use sub2api_account_schedule.AccountControl.Records.{Mutation, Requested, Winning}
use sub2api_account_schedule.AccountControl.Program.{Keeps, is_truthful}
use sub2api_account_schedule.AccountControl.Submit.Balance.{Balanced, nothing_held}
use sub2api_account_schedule.AccountControl.Submit.Quiet.{Any}
use sub2api_account_schedule.AccountControl.Submit.Watched.{Observes}
use sub2api_account_schedule.AccountControl.Recovery.{recover_one}
use sub2api_account_schedule.AccountControl.Recovery.Discipline.{
  recover_is_disciplined, recover_gives_back,
}
use sub2api_account_schedule.AccountControl.Recovery.Grouping.{
  batch_of, batch_count, is_of, group_keeps_order,
}
use sub2api_account_schedule.Base.{◌≡◌, ◌≤◌, ◌∷◌, keep}
use sub2api_account_schedule.AccountControl.Recovery.{group_recovery_items}
use sub2api_account_schedule.AccountControl.Recovery.Settled.{unknown, Settles, recover-Settles}

abbrev pause : Requested
pause = record { schedulable = some false; load_factor = none; load_set = false }

abbrev pause_winner : Winning
pause_winner = record {
  intent_id = codes "intent-1";
  idempotency_key = codes "key-1";
  producer = admin_ui;
  authority = administrator_command;
  actor = codes "ops";
  reason = codes "maintenance";
  evidence_refs = [];
  policy_version = [];
  snapshot_version = [];
  created_at = 1000;
  expires_at = none;
  desired = pause;
  override_kind = temporary;
}

abbrev interrupted : Mutation
interrupted = record {
  id = codes "mutation-1";
  command_id = codes "cmd-1";
  intent_id = codes "intent-1";
  idempotency_key = codes "key-1";
  semantic_signature = [];
  account_id = pos 7;
  operation = set_account_schedulable;
  requested = pause;
  winning = pause_winner;
  producer = admin_ui;
  authority = administrator_command;
  actor = codes "ops";
  reason_code = codes "maintenance";
  reason = codes "maintenance";
  policy_version = [];
  snapshot_version = [];
  run_id = pos 0;
  goal_id = pos 0;
  step_id = pos 0;
  expires_at = none;
  status = executing;
  attempt_count = 1;
  before = none;
  after = none;
  last_error_code = [];
  created_at = 1000;
  updated_at = 1000;
  completed_at = none;
  override_id = [];
  revoke_override_id = [];
  telemetry_fresh = true;
  cooldown_active = false;
}

recover_is_disciplined_example :
    Keeps is_truthful Any 1 false (recover_one interrupted)
    × Observes none (recover_one interrupted)
recover_is_disciplined_example = recover_is_disciplined interrupted

recover_gives_back_example : Balanced nothing_held (recover_one interrupted)
recover_gives_back_example = recover_gives_back interrupted

recover-Settles_example : Settles interrupted.idempotency_key unknown (recover_one interrupted)
recover-Settles_example = recover-Settles interrupted

abbrev elsewhere : Mutation
elsewhere = record interrupted { account_id = pos 9 }

group_keeps_order_example :
    (batch_of (pos 7) (group_recovery_items (interrupted ∷ elsewhere ∷ interrupted ∷ []))
      ≡ keep (is_of (pos 7)) (interrupted ∷ elsewhere ∷ interrupted ∷ []))
    × (batch_count (pos 7) (group_recovery_items (interrupted ∷ elsewhere ∷ interrupted ∷ [])) ≤ 1)
group_keeps_order_example = group_keeps_order (pos 7) (interrupted ∷ elsewhere ∷ interrupted ∷ [])
