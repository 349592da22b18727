-- ===== src/Lib.antt =====
-- GradSync is a research collaboration platform: a Django backend (backend/apps) with one application
-- per concern and a browser frontend. This library models, function by function, the services of the
-- backend that decide what may happen to the shared resources of a laboratory, to the members, the
-- governance records and the tasks of a project and to the execution of its plan, and proves what
-- they promise.
--
-- How the parts interact. A view calls a service with the signed-in user. The service reads rows,
-- checks the user and the rows, writes rows, an audit event and notifications, and raises for what it
-- refuses. Most methods are one database transaction, so that an exception takes every write back.
-- The user comes from the accounts application, whose part here is what services read of a user.
--
-- Files, by what they model:
--   Accounts: `User` of backend/apps/accounts/models.py, and the tests on an account.
--   Resources/Model: the rows of backend/apps/resources/models.py.
--   Resources/State, Resources/Effects: the tables, errors and events of
--     backend/apps/resources/services.py, and the statements of its methods (`raise`, `save`,
--     `transaction.atomic`, `record_event`, `enqueue_notification`). `Effects/Runs` inverts runs.
--   Resources/Access: `_is_resource_manager`, `_is_active_student` and the `require` methods.
--   Resources/Capacity: `BookingService._assert_capacity`.
--   Resources/Booking: the rest of `BookingService` (`create_booking`, `update_booking`,
--     `cancel_booking`, `return_booking`, `decide_booking`) and `reconcile_completed_bookings`.
--     `Requests` and `Lifecycle` have the operations, `Admission` and `Endings` what a run of one has
--     done, `Safety`, `Traces`, `Statuses` and `Histories` the properties of sequences of calls.
--   Resources/Inventory: `ResourceInventoryService`. `Creation` and `Items` have the operations
--     on resources, `Uses` those on use submissions, `SafeMinimum` the sweep over bookings
--     (`_safe_minimum_quantity`).
--   Resources/Operations: `ResourceOperationsService` (`Maintenance`, `Stock`) and
--     `reconcile_resource_operation_alerts` (`Alerts`).
--   Transactions: the same kind of statements over any state and any type of errors.
--   Projects/Model, Projects/Access: the rows of backend/apps/projects/models.py that are used, and
--     `project_capabilities` of backend/apps/projects/access_services.py.
--   Projects/Governance: backend/apps/projects/decision_risk_services.py. `Decisions`, `Risks` and
--     `Risks/Moves` have the operations.
--   Projects/Execution: backend/apps/projects/execution_services.py. `Milestones`, `Deliverables`,
--     `Updates`, `Evidence`, `Revisions`, `Reviews` and `Reconcile` have the functions. `Plan` is the
--     abstract machine that they refine, on milestones and deliverables alone, `PlanChanges` has what it
--     keeps; `Changes`, `WorkChanges`, `SubmissionChanges` and `ReviewChanges` relate each function to
--     it, `Calls` has sequences of calls. `Derivation`, `Guards`, `Submitting`, `Retries`, `Deciding`, `DecidedOnce`,
--     `Recommending` and `Collisions` have the properties.
--   Projects/Members: backend/apps/projects/{collaboration_services,services}.py. `Collaborators`,
--     `Transfer` and `Services` have the functions, `Owners` the invariant of the owner of a project,
--     `CollaboratorOwners`, `ServiceOwners`, `MemberOwners`, `TransferOwners` and `Calls` which calls
--     keep it, `Handing` and `Losing` what a transfer and a removal do.
--   Submissions: the reviewers of a submission, backend/apps/submissions/review_assignment_services.py.
--   Tasks: `Task.clean` of backend/apps/tasks/models.py, and `create_task`, `update_task` and
--     `_resolve_assignees` of backend/apps/tasks/services.py (`Services`). `Hierarchy` has the loop up
--     the parents of a task.
--   Prelude: what the components share. A `Tests` folder has examples on concrete data.
--
-- How state is modelled. A table is a list of rows with at most one row that can be found for a key;
-- `find`, `put` and `remove` are a lookup, a `save` and a delete by primary key. An operation takes
-- the database to a result or an error and the database after it. `atomic` restores the database when
-- the operation raises. Where a method works on an object that the caller has read, the object is an
-- argument, and may differ from the row. Row locks are not modelled: operations run one after the
-- other, which is what the locks bring about where a method takes them.
--
-- Values. Times are microseconds and dates days, both natural numbers; a time that is read from the
-- database is in UTC. Money is a number of hundredths. Texts are lists of code points, `str.strip`
-- removes what Python takes for white space. A text that names no value of an enumeration is its own
-- case. The loop up the parents of a task runs on as much fuel as there are tasks, and one more,
-- which is enough as it stops at a task that it has seen. Every other loop runs over a list.
--
-- Parameters. An `Environment` gives the time, what Django's `full_clean` derives from the field types
-- of a resource, whether the best-effort notification is stored, and, for governance records, the
-- titles of the rows of other components that a link names.
--
-- Not modelled: views and serializers, column lengths (but for the title of a task), the dispatch of e-mail, pagination, search, and
-- the deletion of tasks and of projects, and the other applications (schedules, submissions, library, repositories,
-- notifications, audit storage, accounts services), which decide nothing of what is modelled.
pub mod Prelude
pub mod Accounts
pub mod Resources
pub mod Transactions
pub mod Submissions
pub mod Projects
pub mod Tasks
