-- ===== src/Discussions.antt =====
-- backend/discussions/models.py: the threads and replies of a course in a term. Their tables stand
-- beside the others.
pub mod Threads
pub mod Replies
pub mod Writes
pub mod Moderation
use senet.Prelude.{ℕ, ◌+◌, Bool, false, not, Option, none, List, [], ◌∷◌, map, ◌==◌, if◌then◌else◌}
use senet.Prelude.Text.{Text, strip, is_empty}
use senet.Exec.{Exec, check, validation, permission_denied}
use senet.Accounts.{User, Course}
use senet.Accounts.Access.{can_access_course, can_manage_course}
use senet.Database.{Db}

pub record Thread : Type 0 where
  pub id : ℕ
  pub institution_id : ℕ
  pub course : Course
  pub session_id : ℕ
  pub semester_id : ℕ
  pub author_id : ℕ
  pub title : Text
  pub body : Text
  pub is_pinned : Bool
  pub is_locked : Bool
  pub last_activity_at : ℕ
  pub is_removed : Bool
  pub removed_by : Option ℕ
  pub removed_at : Option ℕ

pub record Reply : Type 0 where
  pub id : ℕ
  pub institution_id : ℕ
  pub thread_id : ℕ
  pub author_id : ℕ
  pub body : Text
  pub created_at : ℕ
  pub is_removed : Bool
  pub removed_by : Option ℕ
  pub removed_at : Option ℕ

pub record Forum : Type 0 where
  pub tables : Db
  pub threads : List Thread
  pub replies : List Reply

-- `row.save(update_fields=[…])` writes the named fields of the row that has the key, and leaves
-- its other fields as they are stored.
module _ {A : Type 0} (key : A → ℕ) where
  abbrev pub update_row : ℕ → (A → A) → List A → List A
  update_row id change = map (λ row. if key row == id then change row else row)

abbrev pub take_key : Db → Db
take_key db = record db { next_id = db.next_id + 1 }

-- `_require_participant`
abbrev pub require_participant : User → Course → ℕ → ℕ → Exec Forum (Unit {0})
require_participant user course session semester forum =
    check (can_access_course forum.tables.academic user course session semester)
      (permission_denied "You do not take part in this course for this term.") forum

abbrev pub can_moderate : User → Thread → Forum → Bool
can_moderate user thread forum =
    can_manage_course forum.tables.academic user thread.course thread.session_id thread.semester_id

-- `if not body.strip(): raise ValidationError({"body": …})`
abbrev pub require_body : Text → Exec Forum (Unit {0})
require_body body = check (not (is_empty (strip body))) (validation ("body" ∷ []))
