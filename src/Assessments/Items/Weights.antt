-- ===== src/Assessments/Items/Weights.antt =====
-- The weights of the items of a course in a term, against the CA portion of the course.
use senet.Prelude.{
  ℕ, ◌+◌, ◌*◌, ◌≤◌, Bool, false, not, ◌&&◌, none, some, [], ◌∷◌, ◌++◌, ◌≡◌, arith, tests, filter,
  sum_by, sum_by-append, filter-append, same_key, sym, ap, ◌∙◌, ltb,
}
use mathlib.Core.Path.{subst}
use senet.Prelude.Text.{Text}
use senet.Prelude.Int.{ℤ, pos_part}
use senet.Exec.{ok}
use senet.Accounts.{User, Course, Session, Semester, effective_ca_weight}
use senet.Assessments.{AssessmentItem, Kind}
use senet.Assessments.Items.{of_term, ca_weight_used, weight_errors, insert_item, create_item}
use senet.Database.{Db}

-- what one more item adds at most
used-append :
    (db : Db) (item : AssessmentItem) (course session semester n : ℕ)
    → ca_weight_used
        (record db { items = db.items ++ item ∷ []; next_id = n })
        course
        session
        semester
        none
      ≤ ca_weight_used db course session semester none + item.weight
unfolding ca_weight_used
used-append db item course session semester n =
    let p : AssessmentItem → Bool =
      λ i. of_term course session semester i && not (same_key none (some i.id)) in
    let w : AssessmentItem → ℕ = λ i. i.weight in
    let last : sum_by w (filter p (item ∷ [])) ≤ item.weight = ground arith in
    let total : sum_by w (filter p (db.items ++ item ∷ []))
        ≡ sum_by w (filter p db.items) + sum_by w (filter p (item ∷ [])) =
      ap (sum_by w) (filter-append p db.items (item ∷ []))
      ∙ sum_by-append w (filter p db.items) (filter p (item ∷ [])) in
    omega arith

create_item_ok :
    (lecturer : User) (course : Course) (session : Session) (semester : Semester) (title : Text)
    (kind : Kind) (max_score weight : ℤ) (due_date : ℕ) (db : Db) (row : AssessmentItem)
    → (create_item lecturer course session semester title kind max_score weight due_date db).0
      ≡ ok row
    → (row.weight ≡ pos_part weight)
      × (ltb
            (effective_ca_weight course * 100)
            (ca_weight_used db course.id session.id semester.id none + pos_part weight)
          ≡ false)
      × ((create_item lecturer course session semester title kind max_score weight due_date db).1
          ≡ record db { items = db.items ++ row ∷ []; next_id = db.next_id + 1 })
unfolding create_item weight_errors insert_item
create_item_ok lecturer course session semester title kind max_score weight due_date db row h =
    ground arith

-- An item that is created leaves the weights of its course in its term within the CA portion of
-- the course.
pub create_item-within :
    (lecturer : User) (course : Course) (session : Session) (semester : Semester) (title : Text)
    (kind : Kind) (max_score weight : ℤ) (due_date : ℕ) (db : Db) (row : AssessmentItem)
    → (create_item lecturer course session semester title kind max_score weight due_date db).0
      ≡ ok row
    → ca_weight_used
        (create_item lecturer course session semester title kind max_score weight due_date db).1
        course.id
        session.id
        semester.id
        none
      ≤ effective_ca_weight course * 100
create_item-within lecturer course session semester title kind max_score weight due_date db row h =
    let (w, fits, after) =
      create_item_ok lecturer course session semester title kind max_score weight due_date db row
        h in
    subst
      (λ d.
        ca_weight_used d course.id session.id semester.id none ≤ effective_ca_weight course * 100)
      (sym after)
      (let grown = used-append db row course.id session.id semester.id (db.next_id + 1) in
        omega tests)
