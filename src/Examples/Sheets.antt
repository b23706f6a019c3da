-- ===== src/Examples/Sheets.antt =====
-- The theorems on moves of sheets, worklists and indicators at one sheet.
use senet.Prelude.{
  ℕ, ◌*◌, ◌≤◌, none, List, [], ◌∷◌, ◌≡◌, ◌≢◌, ◌↔◌, refl, arith, Member, inl, here, map, All, filter,
  length, count, ltb,
}
use senet.Prelude.Text.{text, strip}
use senet.Prelude.Int.{pos}
use senet.Exec.{ok, not_found}
use senet.Assessments.{AssessmentItem, Kind}
use senet.Assessments.Items.{create_item, ca_weight_used}
use senet.Assessments.Items.Weights.{create_item-within}
use senet.Results.{CourseResult, result_published}
use senet.Results.Status.{
  draft, submitted_to_hod, approved_by_hod, approved_by_dean, ratified_by_senate, returned,
}
use senet.Results.Rows.{result_key}
use senet.Results.Pipeline.{transition_result, batch_ratify, approve_result, moved, scored}
use senet.Results.Pipeline.Authority.{IsAllowed, IsMoved}
use senet.Results.Pipeline.Allowed.{transition-IsMoved, transition-iff-IsAllowed}
use senet.Results.Pipeline.Chain.{Officers, run_chain, run_chain-ratifies}
use senet.Results.Worklist.{pending_results_for}
use senet.Results.Worklist.Inbox.{pending_iff_approvable}
use senet.Results.Anomaly.{compute_anomaly_stats}
use senet.Results.Anomaly.Tallies.{fails}
use senet.Results.Anomaly.Indicators.{failure_flag_lem}
use senet.Results.Steps.Batch.{batch_ratify_ok, batch_ratify_error}
use senet.Examples.{course, session, semester, lecturer, head, dean, senate, sheet, score, tables}

-- the head returns the sheet with a reason
transition-IsMoved_example :
    (found : CourseResult) × IsAllowed head 7 returned
      (strip (text " Recount "))
      (tables submitted_to_hod)
      found
    × IsMoved head returned
        (strip (text " Recount "))
        found
        (record (sheet returned) { returned_reason = text "Recount" })
        (tables submitted_to_hod)
        (transition_result head 7 returned (text " Recount ") (tables submitted_to_hod)).1
unfolding transition_result
transition-IsMoved_example =
    transition-IsMoved head 7 returned (text " Recount ") (tables submitted_to_hod) refl

transition-iff-IsAllowed_example :
    ((row : CourseResult) × ((transition_result lecturer 7 submitted_to_hod [] (tables draft)).0
        ≡ ok row))
    ↔ ((found : CourseResult) × IsAllowed lecturer 7 submitted_to_hod
          (strip [])
          (tables draft)
          found)
transition-iff-IsAllowed_example =
    transition-iff-IsAllowed lecturer 7 submitted_to_hod [] (tables draft) (λ k. ground arith)

abbrev officers : Officers
officers = record { author = lecturer; head = head; dean = dean; senator = senate }

run_chain-ratifies_example :
    ((run_chain officers 7 (tables draft)).0 ≡ ok (sheet ratified_by_senate))
    × Member (sheet ratified_by_senate) (run_chain officers 7 (tables draft)).1.results
    × ((run_chain officers 7 (tables draft)).1.scores ≡ score ∷ [])
    × ((run_chain officers 7 (tables draft)).1.outbox ≡ result_published 7 ∷ [])
run_chain-ratifies_example =
    run_chain-ratifies officers (sheet draft) score (tables draft) (λ k. ground arith) here
      (inl refl)
      (record {
        teaches = (refl, refl);
        heads = (refl, refl);
        is_dean = (refl, refl);
        is_senate = refl;
        author_own = refl;
        head_own = refl;
        dean_own = refl;
        senator_own = refl;
      })
      here refl refl

abbrev one_sheet : List ℕ
one_sheet = 7 ∷ []

batch_ratify_ok_example :
    (one_sheet ≢ [])
    × (map result_key (sheet ratified_by_senate ∷ []) ≡ one_sheet)
    × All
        (λ r.
          (r.status ≡ ratified_by_senate)
          × Member r (batch_ratify senate one_sheet [] (tables approved_by_dean)).1.results)
        (sheet ratified_by_senate ∷ [])
unfolding batch_ratify transition_result
batch_ratify_ok_example = batch_ratify_ok senate one_sheet [] (tables approved_by_dean) refl

-- the second sheet is missing, so the first is not ratified either
batch_ratify_error_example :
    (batch_ratify senate (7 ∷ 6 ∷ []) [] (tables approved_by_dean)).1 ≡ tables approved_by_dean
unfolding batch_ratify transition_result
batch_ratify_error_example =
    batch_ratify_error senate (7 ∷ 6 ∷ []) [] (tables approved_by_dean)
      {e = not_found "Result not found."} refl

pending_iff_approvable_example :
    Member (sheet submitted_to_hod) (pending_results_for (tables submitted_to_hod) head) ↔ (
      (approve_result head 7 (tables submitted_to_hod)).0
      ≡ ok (moved (sheet submitted_to_hod) approved_by_hod []))
pending_iff_approvable_example =
    pending_iff_approvable (tables submitted_to_hod) head (λ k. ground arith) refl approved_by_hod
      refl (sheet submitted_to_hod) here

failure_flag_lem_example :
    (compute_anomaly_stats (tables draft) (sheet draft)).high_failure_rate
    ≡ ltb
        (101 * length (filter (scored 7) (tables draft).scores))
        (200 * count (fails 4000) (filter (scored 7) (tables draft).scores))
failure_flag_lem_example = failure_flag_lem (tables draft) (sheet draft)

abbrev first_test : AssessmentItem
first_test = record {
  id = 9;
  institution_id = 1;
  course = course;
  session_id = 200;
  semester_id = 300;
  created_by = 1;
  title = text "Test 1";
  kind = Kind.test;
  max_score = 2000;
  weight = 1500;
  due_date = 10;
}

create_item-within_example :
    ca_weight_used
      (create_item lecturer course session semester
        (text "Test 1")
        Kind.test
        (pos 2000)
        (pos 1500)
        10
        (tables draft)).1
      100
      200
      300
      none
    ≤ 4000
unfolding create_item
create_item-within_example =
    create_item-within lecturer course session semester (text "Test 1") Kind.test (pos 2000)
      (pos 1500) 10 (tables draft) first_test refl
