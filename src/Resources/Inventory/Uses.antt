-- ===== src/Resources/Inventory/Uses.antt =====
-- `ResourceInventoryService.create_use_submission` and `decide_use_submission`.
use grad_sync.Prelude.{Bool, true, false, not, Option, none, some, [], Text, strip, is_blank, put}
use grad_sync.Accounts.{User}
use grad_sync.Resources.Model.{
  ResourceItem, ResourceUseSubmission, SubmissionType, UseStatus, is_consumable, is_retired,
}
use grad_sync.Resources.State.{
  Error, Reason, Result, ok, err, EventType, EventTarget, Subject, Database, Environment,
}
use grad_sync.Resources.Effects.{
  Action, pure, check, atomic, ◌>>=◌, ◌>>◌, raise_if, modify, fresh_id, record_event,
  enqueue_notification,
}
use grad_sync.Resources.Access.{require_manager, require_student}

abbrev pub save_use : ResourceUseSubmission → Database → Database
save_use u db = record db { uses = put (λ r. r.id) u db.uses }

abbrev pub supported : Option SubmissionType → Result SubmissionType
supported none = err (Error.validation Reason.unsupported_submission_type)
supported (some t) = ok t

-- `submission_type` is `none` if it is no supported value.
unfoldable pub create_use_submission :
    User → ResourceItem → Option SubmissionType → Text → Action ResourceUseSubmission
create_use_submission user item submission_type details = atomic do
  require_student user
  raise_if (is_consumable item.kind) (Error.validation Reason.consumable_use)
  raise_if (is_retired item.status) (Error.validation Reason.retired_use)
  kind ← check λ _. supported submission_type
  raise_if (is_blank (strip details)) (Error.validation Reason.details_required)
  pk ← fresh_id
  let submission : ResourceUseSubmission = record {
    id = pk;
    resource_item = item.id;
    student = user.id;
    submission_type = kind;
    details = strip details;
    status = UseStatus.pending;
    reviewer = none;
    decision_note = [];
    decided_at = none;
  }
  modify (save_use submission)
  record_event none (some user.id) EventType.use_submitted (EventTarget.use_target pk)
  pure submission

abbrev pub is_pending_use : UseStatus → Bool
is_pending_use UseStatus.pending = true
is_pending_use _ = false

abbrev pub decision_event : UseStatus → EventType
decision_event UseStatus.confirmed = EventType.use_confirmed
decision_event _ = EventType.use_rejected

-- The caller's object is used as it is; `status` is `pending` for any value but the two decisions.
unfoldable pub decide_use_submission :
    Environment → User → ResourceUseSubmission → UseStatus → Text → Action ResourceUseSubmission
decide_use_submission env user submission status note = atomic do
  require_manager user
  raise_if (not (is_pending_use submission.status)) (Error.validation Reason.only_pending_use)
  raise_if (is_pending_use status) (Error.validation Reason.unsupported_decision)
  let decided : ResourceUseSubmission = record submission {
    status = status;
    reviewer = some user.id;
    decision_note = strip note;
    decided_at = some env.now;
  }
  modify (save_use decided)
  record_event none (some user.id) (decision_event status) (EventTarget.use_target decided.id)
  enqueue_notification decided.student (some user.id) (EventTarget.use_target decided.id)
      (Subject.use_decided status)
  pure decided
