-- ===== src/Submissions.antt =====
-- What students submit for review (backend/apps/submissions): the reviewers of a submission.
pub mod Model
pub mod Reviewers
