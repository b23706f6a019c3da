-- ===== src/Examples/Discussions.antt =====
-- The theorem on moderation at a thread of a student that the lecturer removes, while others hold
-- old copies of it.
use senet.Prelude.{true, false, none, some, [], ◌∷◌, ◌≢◌, arith, refl, List, All, here}
use senet.Prelude.Text.{text}
use senet.Results.Status.{draft}
use senet.Accounts.Access.{can_manage_course}
use senet.Discussions.{Thread, Forum}
use senet.Discussions.Threads.{remove_thread, visible_threads}
use senet.Discussions.Moderation.{ForumCall, posts, edits, answers, perform_calls, removed_unseen}
use senet.Examples.{course, lecturer, student, tables}

abbrev thread : Thread
thread = record {
  id = 4;
  institution_id = 1;
  course = course;
  session_id = 200;
  semester_id = 300;
  author_id = 5;
  title = text "T";
  body = text "B";
  is_pinned = false;
  is_locked = false;
  last_activity_at = 1;
  is_removed = false;
  removed_by = none;
  removed_at = none;
}

abbrev forum : Forum
forum = record { tables = tables draft; threads = thread ∷ []; replies = [] }

-- an edit and an answer by those who hold the thread as it was, and a new thread
abbrev calls : List ForumCall
calls =
    edits student thread (record {
      new_title = some (text "U");
      new_body = none;
      new_pinned = none;
      new_locked = none;
    })
    ∷ answers student thread (text "R")
    ∷ posts student course 200 300 (text "V") (text "W") true
    ∷ []

removed_unseen_example :
    All
      (λ shown. shown.0.id ≢ 4)
      (visible_threads student
        (some 100)
        (some 200)
        (some 300)
        (perform_calls calls (remove_thread lecturer thread forum).1))
unfolding remove_thread can_manage_course
removed_unseen_example =
    removed_unseen lecturer thread calls forum student (some 100) (some 200) (some 300)
      (λ k. ground arith) (omega arith, tt) here refl
