-- ===== src/Projects/Execution/Evidence.antt =====
-- `_validate_evidence`: one item of evidence of a revision.
use grad_sync.Prelude.{
  ℕ, ◌+◌, Bool, false, not, ◌&&◌, ◌||◌, Option, none, some, List, [], ◌∷◌, Text, text, is_blank,
  length, take, any, ltb, leb, ◌==◌, if◌then◌else◌,
}
use grad_sync.Accounts.{User}
use grad_sync.Projects.Execution.Model.{EvidenceSource, DeliverableEvidence}
use grad_sync.Projects.Execution.{Reason, Error, SourceKind, Environment}
use grad_sync.Transactions.{Result, ok, err}

-- One element of the argument `evidence`; a text that is missing is empty.
pub record EvidenceItem : Type 0 where
  pub project_material_id : Option ℕ
  pub task_id : Option ℕ
  pub weekly_progress_report_id : Option ℕ
  pub external_url : Text
  pub label : Text

-- What `urlparse` removes: control characters and spaces in front, tabs and newlines anywhere.
abbrev pub without_lead : Text → Text
without_lead [] = []
without_lead (c ∷ s) = let rest = without_lead s in if leb c 32 then rest else c ∷ s

abbrev pub without_breaks : Text → Text
without_breaks [] = []
without_breaks (c ∷ s) =
    let rest = without_breaks s in if c == 9 || c == 10 || c == 13 then rest else c ∷ rest

abbrev pub lower : ℕ → ℕ
lower c = if leb b'A' c && leb c b'Z' then c + 32 else c

-- What follows `https:` in a text, in letters of either case.
abbrev pub after : Text → Text → Option Text
after [] s = some s
after (p ∷ ps) [] = none
after (p ∷ ps) (c ∷ s) = if lower c == p then after ps s else none

-- The network location of what follows the scheme, up to `/`, `?` or `#`.
abbrev pub up_to_path : Text → Text
up_to_path [] = []
up_to_path (c ∷ s) =
    let rest = up_to_path s in if c == b'/' || c == b'?' || c == b'#' then [] else c ∷ rest

abbrev pub netloc : Text → Text
netloc (a ∷ b ∷ s) = if a == b'/' && b == b'/' then up_to_path s else []
netloc _ = []

-- `urlparse` raises for a location with one bracket without the other.
abbrev pub has_char : ℕ → Text → Bool
has_char c s = any (λ d. d == c) s

abbrev pub is_location : Text → Bool
is_location s =
    not (is_blank s) && (if has_char b'[' s then has_char b']' s else not (has_char b']' s))

abbrev pub is_https_of : Option Text → Bool
is_https_of none = false
is_https_of (some rest) = is_location (netloc rest)

unfoldable pub is_https : Text → Bool
is_https url = is_https_of (after (text "https:") (without_breaks (without_lead url)))

-- The sources that are given: a key of 0 counts as none.
abbrev pub by_key : (ℕ → EvidenceSource) → Option ℕ → List EvidenceSource
by_key source none = []
by_key source (some k) = if k == 0 then [] else source k ∷ []

abbrev pub by_url : Text → List EvidenceSource
by_url [] = []
by_url (c ∷ s) = EvidenceSource.external_url (c ∷ s) ∷ []

abbrev pub append_all : List EvidenceSource → List EvidenceSource → List EvidenceSource
append_all [] ys = ys
append_all (x ∷ xs) ys = x ∷ append_all xs ys

unfoldable pub supplied : EvidenceItem → List EvidenceSource
supplied item = append_all (by_key EvidenceSource.project_material item.project_material_id) (
    append_all (by_key EvidenceSource.task item.task_id) (
      append_all (by_key EvidenceSource.weekly_progress_report item.weekly_progress_report_id)
        (by_url item.external_url)))

-- Whether a source may be used: the row is of the project, the address is valid.
unfoldable pub check_source : Environment → ℕ → EvidenceSource → Result Error (Unit {0})
check_source env project (EvidenceSource.project_material k) =
    if env.belongs SourceKind.material project k
    then ok tt
    else err (Error.value Reason.foreign_evidence)
check_source env project (EvidenceSource.task k) =
    if env.belongs SourceKind.task project k
    then ok tt
    else err (Error.value Reason.foreign_evidence)
check_source env project (EvidenceSource.weekly_progress_report k) =
    if env.belongs SourceKind.report project k
    then ok tt
    else err (Error.value Reason.foreign_evidence)
check_source env project (EvidenceSource.external_url url) =
    if not (is_https url) || ltb 2_048 (length url)
    then err (Error.value Reason.url_invalid)
    else ok tt

-- `str(item.get("label") or "Evidence")[:255]`
abbrev pub label_of : Text → Text
label_of [] = text "Evidence"
label_of (c ∷ s) = take 255 (c ∷ s)

-- The row, for the revision with the given key.
abbrev pub evidence_row : ℕ → User → ℕ → EvidenceSource → Text → DeliverableEvidence
evidence_row project actor revision source label = record {
  project = project;
  revision = revision;
  source = source;
  label_snapshot = label_of label;
  added_by = actor.id;
}

unfoldable pub one_source :
    Environment → User → ℕ → ℕ → Text → List EvidenceSource → Result Error DeliverableEvidence
one_source env actor project revision label (source ∷ []) = elim (check_source env project source) [
  | ok u ↦ ok (evidence_row project actor revision source label)
  | err e ↦ err e
]
one_source env actor project revision label _ = err (Error.value Reason.one_source)

unfoldable pub validate_evidence :
    Environment → User → ℕ → ℕ → EvidenceItem → Result Error DeliverableEvidence
validate_evidence env actor project revision item =
    one_source env actor project revision item.label (supplied item)

-- The list of `prepared_evidence`.
unfoldable pub prepare_evidence :
    Environment → User → ℕ → ℕ → List EvidenceItem → Result Error (List DeliverableEvidence)
prepare_evidence env actor project revision [] = ok []
prepare_evidence env actor project revision (item ∷ items) =
    elim (validate_evidence env actor project revision item) [
      | err e ↦ err e
      | ok row ↦ elim (prepare_evidence env actor project revision items) [
        | err e ↦ err e
        | ok rows ↦ ok (row ∷ rows)
      ]
    ]
