-- ===== src/Discussions/Writes.antt =====
-- What a call on a board leaves in the tables.
use senet.Prelude.{ℕ, Bool, true, ◌&&◌, ◌≡◌, arith, Bool-cases, inl, inr, ◌⊎◌, refl}
use senet.Prelude.Text.{Text, strip, is_empty}
use senet.Exec.{ok}
use senet.Accounts.{User, Course}
use senet.Accounts.Access.{can_access_course, can_manage_course}
use senet.Discussions.{Thread, Reply, Forum}
use senet.Discussions.Threads.{
  Changes, create_thread, update_thread, remove_thread, update_threads, removed_thread,
  insert_thread, thread_row, set_changes,
}
use senet.Discussions.Replies.{
  create_reply, update_reply, remove_reply, touch_thread, insert_reply, reply_row,
}

-- the tables after a call: as they were, or with the one write
pub create_thread_state :
    (actor : User) (course : Course) (session semester : ℕ) (title body : Text) (pinned : Bool)
    (f : Forum)
    → ((create_thread actor course session semester title body pinned f).1 ≡ f)
      ⊎ ((t : Thread) × (t.id ≡ f.tables.next_id)
          × ((create_thread actor course session semester title body pinned f).1
              ≡ (insert_thread t f).1))
unfolding create_thread
create_thread_state actor course session semester title body pinned f =
    let row =
      thread_row actor course session semester title body
        (pinned && can_manage_course f.tables.academic actor course session semester) f in
    elim (Bool-cases (can_access_course f.tables.academic actor course session semester)) [
      | inl a ↦ elim (Bool-cases (is_empty (strip body))) [
        | inl b ↦ inl (rw (a, b) refl)
        | inr b ↦ inr (row, refl, rw (a, b) refl)
      ]
      | inr a ↦ inl (rw a refl)
    ]

pub update_thread_state :
    (actor : User) (thread : Thread) (changes : Changes) (f : Forum)
    → ((update_thread actor thread changes f).1 ≡ f)
      ⊎ ((update_thread actor thread changes f).1
          ≡ update_threads thread.id (set_changes changes) f)
unfolding update_thread
update_thread_state actor thread changes f = ground arith

pub remove_thread_state :
    (actor : User) (thread : Thread) (f : Forum)
    → ((remove_thread actor thread f).1 ≡ f)
      ⊎ ((remove_thread actor thread f).1
          ≡ update_threads thread.id (removed_thread actor f.tables.now) f)
unfolding remove_thread
remove_thread_state actor thread f = ground arith

pub create_reply_state :
    (actor : User) (thread : Thread) (body : Text) (f : Forum)
    → ((create_reply actor thread body f).1 ≡ f)
      ⊎ ((create_reply actor thread body f).1
          ≡ touch_thread thread.id f.tables.now (insert_reply (reply_row actor thread body f) f))
unfolding create_reply
create_reply_state actor thread body f = ground arith

pub update_reply_threads :
    (actor : User) (reply : Reply) (body : Text) (f : Forum)
    → ((update_reply actor reply body f).1.threads ≡ f.threads)
      × ((update_reply actor reply body f).1.tables ≡ f.tables)
unfolding update_reply
update_reply_threads actor reply body f = ground arith

pub remove_reply_threads :
    (actor : User) (reply : Reply) (f : Forum)
    → ((remove_reply actor reply f).1.threads ≡ f.threads)
      × ((remove_reply actor reply f).1.tables ≡ f.tables)
unfolding remove_reply
remove_reply_threads actor reply f = ground arith

pub remove_thread_ok :
    (actor : User) (thread : Thread) (f : Forum) {row : Thread}
    → (remove_thread actor thread f).0 ≡ ok row
    → ((thread.is_removed ≡ true) × ((remove_thread actor thread f).1 ≡ f))
      ⊎ ((remove_thread actor thread f).1
          ≡ update_threads thread.id (removed_thread actor f.tables.now) f)
unfolding remove_thread
remove_thread_ok actor thread f h = ground arith
