-- ===== src/Cbt/Authoring/Scheduled.antt =====
-- What `create_exam` of backend/cbt/services.py leaves where the banks are too small.
use senet.Prelude.{ℕ, ◌+◌, ◌<◌, true, some, List, [], ◌∷◌, ◌++◌, ◌≡◌, arith, length}
use senet.Exec.{err, validation}
use senet.Accounts.{User, Course, Session, Semester, institution_id}
use senet.Cbt.{QuestionBank}
use senet.Cbt.Access.{can_manage_exam}
use senet.Cbt.Assembly.{bank_question_pool}
use senet.Cbt.Authoring.{ExamRequest, exam_errors, exam_row, insert_exam, create_exam}
use senet.Database.{Db}

-- A request for an exam that passes every check but the last one, that the banks hold as many
-- questions as the exam needs, is refused by an error on `num_questions`, and yet the exam is
-- stored: the tables differ by the new row, and by its key being used up.
pub create_exam_short :
    (actor : User) (course : Course) (session : Session) (semester : Semester)
    (banks : List QuestionBank) (r : ExamRequest) (institution : ℕ) (db : Db)
    → semester.session_id ≡ session.id
    → can_manage_exam db.academic actor course session.id semester.id ≡ true
    → exam_errors course banks r ≡ []
    → institution_id actor ≡ some institution
    → length (
        bank_question_pool
          (exam_row actor course session semester banks r db.next_id institution)
          db)
      < (exam_row actor course session semester banks r db.next_id institution).num_questions
    → create_exam actor course session semester banks r db ≡ (
      err (validation ("num_questions" ∷ [])),
      record db {
        exams =
            db.exams ++ exam_row actor course session semester banks r db.next_id institution ∷ [];
        next_id = db.next_id + 1;
      },
    )
unfolding create_exam insert_exam
create_exam_short actor course session semester banks r institution db same may none_wrong own
      short =
    ground (arith, same, may, none_wrong, own, short)
