-- ===== src/GuidChange/Tests.antt =====
-- Runs of the GUID changes (src/api.rs, src/db.rs).
use stophammer.Common.{◌≡◌, refl, Option, none, some, List, [], ◌∷◌, String, if◌then◌else◌}
use stophammer.Common.Int.{pos}
use stophammer.Common.Keyed.{find, update, put}
use stophammer.GuidChange.Table.{GuidChangeRow, get_guid_change}
use stophammer.GuidChange.Record.{
  rejected, pending, is_rejected, record_guid_change_pending_for_ingest,
}
use stophammer.GuidChange.Stored.{record_guid_change_pending-again}
use stophammer.GuidChange.Followed.{Request, submits, decides, run, IsInStep, run-IsInStep}

abbrev url : String
url = "https://a.example/feed"

abbrev held : String → String
held u = "old"

abbrev no_rows : List (String × GuidChangeRow)
no_rows = []

abbrev requests : List Request
requests =
    submits url "new" (pos 1)
    ∷ decides "old" "reject" " tool error " (pos 2)
    ∷ submits url "new" (pos 3)
    ∷ submits url "other" (pos 4)
    ∷ []

run-IsInStep_example : IsInStep held (run held requests (no_rows, no_rows))
unfolding find
run-IsInStep_example = run-IsInStep held requests (no_rows, no_rows) (λ k. refl, λ k. tt)

abbrev reason_of : Option GuidChangeRow → Option String
reason_of none = none
reason_of (some row) = row.decision_reason

reason-trimmed :
    reason_of (
      find url
        (run held
          (submits url "new" (pos 1) ∷ decides "old" "reject" " error " (pos 2) ∷ [])
          (no_rows, no_rows)).1)
    ≡ some "error"
unfolding run find update put
reason-trimmed = refl

record_guid_change_pending-again_example :
    (record_guid_change_pending_for_ingest url "old" "new"
      (pos 2)
      (record_guid_change_pending_for_ingest url "old" "new" (pos 1) no_rows).0).1
    ≡ (if is_rejected "new" (get_guid_change no_rows url) then rejected else pending [])
record_guid_change_pending-again_example =
    record_guid_change_pending-again url "old" "new" (pos 1) (pos 2) no_rows
