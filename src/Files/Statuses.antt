-- ===== src/Files/Statuses.antt =====
-- The status of a file as the listing shows it and as it filters by it: `toFileRow` and
-- `fileStatusWhere` of the API's nacha-files/nacha-files.service.ts.
use achflow.Prelude.{◌≡◌, ◌↔◌, true, some, none, select, arith}
use achflow.Schema.{Db, AchFile}
use achflow.Files.Downloads.{SubmissionStatus, belongs, to_file_row, has_file_status}

-- A file passes the filter of a status exactly where its row shows that status.
shown_status :
    (s : SubmissionStatus) (db : Db) (f : AchFile)
    → (has_file_status (some s) db f ≡ true)
      ↔ ((to_file_row f (select (belongs none f.id) db.payments)).submission_status ≡ s)
unfolding has_file_status to_file_row
shown_status SubmissionStatus.failed db f = (λ h. ground arith, λ h. ground arith)
shown_status SubmissionStatus.pending db f = (λ h. ground arith, λ h. ground arith)
shown_status SubmissionStatus.submitted db f = (λ h. ground arith, λ h. ground arith)
