-- ===== src/Discussions/Threads.antt =====
-- The board of threads: backend/discussions/services.py.
use senet.Prelude.{
  ℕ, Bool, true, false, not, ◌&&◌, ◌||◌, Option, none, some, List, [], ◌∷◌, ◌++◌, map, ◌==◌,
  same_key, filter, count, if◌then◌else◌,
}
use senet.Prelude.Text.{Text, strip, is_empty}
use senet.Exec.{Exec, pure, modify, check, validation, permission_denied, ◌>>◌}
use senet.Accounts.{User, Course}
use senet.Accounts.Access.{can_manage_course, scope_to_accessible_courses}
use senet.Results.Worklist.{in_tenant}
use senet.Discussions.{
  Thread, Reply, Forum, update_row, take_key, require_participant, require_body, can_moderate,
}

-- `filter(course=course, session=session, semester=semester)`, where a course is is_named
abbrev pub of_board : Option ℕ → Option ℕ → Option ℕ → Thread → Bool
of_board none session semester t = true
of_board (some course) session semester t =
    same_key (some course) (some t.course.id)
    && same_key session (some t.session_id)
    && same_key semester (some t.semester_id)

abbrev pub is_live_reply_of : ℕ → Reply → Bool
is_live_reply_of thread r = r.thread_id == thread && not r.is_removed

-- Each thread comes with `reply_count`. Grouping by the count leaves the order open: the rows stand
-- as they are stored.
unfoldable pub visible_threads : User → Option ℕ → Option ℕ → Option ℕ → Forum → List (Thread × ℕ)
visible_threads user course session semester forum =
    map (λ (t : Thread). (t, count (is_live_reply_of t.id) forum.replies))
      (filter (of_board course session semester) (
        scope_to_accessible_courses (λ (t : Thread). t.course) (λ t. t.session_id)
          (λ t. t.semester_id) forum.tables.academic user
          (filter (λ t. in_tenant forum.tables t.institution_id && not t.is_removed)
            forum.threads)))

abbrev pub thread_row : User → Course → ℕ → ℕ → Text → Text → Bool → Forum → Thread
thread_row actor course session semester title body pinned forum = record {
  id = forum.tables.next_id;
  institution_id = course.institution.id;
  course = course;
  session_id = session;
  semester_id = semester;
  author_id = actor.id;
  title = title;
  body = body;
  is_pinned = pinned;
  is_locked = false;
  last_activity_at = forum.tables.now;
  is_removed = false;
  removed_by = none;
  removed_at = none;
}

abbrev pub insert_thread : Thread → Exec Forum Thread
insert_thread thread forum =
    pure thread
      record forum { tables = take_key forum.tables; threads = forum.threads ++ thread ∷ [] }

unfoldable pub create_thread : User → Course → ℕ → ℕ → Text → Text → Bool → Exec Forum Thread
create_thread actor course session semester title body is_pinned forum =
    let pinned : Bool =
      is_pinned && can_manage_course forum.tables.academic actor course session semester in
    (require_participant actor course session semester
        >> require_body body
        >> insert_thread (thread_row actor course session semester title body pinned forum))
      forum

-- the changes of a thread that a request gives, `None` where it gives none
pub record Changes : Type 0 where
  pub new_title : Option Text
  pub new_body : Option Text
  pub new_pinned : Option Bool
  pub new_locked : Option Bool

abbrev is_named : {A : Type 0} → Option A → Bool
is_named none = false
is_named (some a) = true

abbrev changed : {A : Type 0} → Option A → A → A
changed none old = old
changed (some new) old = new

abbrev has_body : Option Text → Bool
has_body none = true
has_body (some body) = not (is_empty (strip body))

-- the `setattr` of each change
abbrev pub set_changes : Changes → Thread → Thread
set_changes c t = record t {
  title = changed c.new_title t.title;
  body = changed c.new_body t.body;
  is_pinned = changed c.new_pinned t.is_pinned;
  is_locked = changed c.new_locked t.is_locked;
}

abbrev pub update_threads : ℕ → (Thread → Thread) → Forum → Forum
update_threads id change forum = record forum {
  threads = update_row (λ t. t.id) id change forum.threads;
}

-- whether `fields` holds any
abbrev changes_any : Changes → Bool
changes_any c =
    is_named c.new_title || is_named c.new_body || is_named c.new_pinned || is_named c.new_locked

unfoldable pub update_thread : User → Thread → Changes → Exec Forum Thread
update_thread actor thread changes forum =
    let moderator : Bool = can_moderate actor thread forum in
    (check (not thread.is_removed) (validation ("thread" ∷ []))
        >> check (thread.author_id == actor.id || moderator)
            (permission_denied "You can only edit your own thread.")
        >> check (has_body changes.new_body) (validation ("body" ∷ []))
        >> check (moderator || not (is_named changes.new_pinned || is_named changes.new_locked))
            (permission_denied "Only this course's teaching staff can do that.")
        >> modify
            (if changes_any changes then update_threads thread.id (set_changes changes) else λ f. f)
        >> pure (set_changes changes thread))
      forum

abbrev pub removed_thread : User → ℕ → Thread → Thread
removed_thread actor now t = record t {
  is_removed = true;
  removed_by = some actor.id;
  removed_at = some now;
}

unfoldable pub remove_thread : User → Thread → Exec Forum Thread
remove_thread actor thread forum =
    (check (thread.author_id == actor.id || can_moderate actor thread forum)
          (permission_denied "You can only remove your own thread.")
        >> (if thread.is_removed
            then pure thread
            else modify (update_threads thread.id (removed_thread actor forum.tables.now))
              >> pure (removed_thread actor forum.tables.now thread)))
      forum
