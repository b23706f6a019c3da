-- ===== src/Discussions/Replies.antt =====
-- The replies to a thread: backend/discussions/services.py.
use senet.Prelude.{
  ℕ, Bool, true, false, not, ◌&&◌, ◌||◌, none, some, List, [], ◌∷◌, ◌++◌, ◌==◌, leb, filter, first,
  if◌then◌else◌,
}
use senet.Prelude.Text.{Text}
use senet.Prelude.Sorting.{sort_by}
use senet.Exec.{
  Exec, pure, gets, or_raise, modify, check, validation, permission_denied, does_not_exist, ◌>>=◌,
  ◌>>◌,
}
use senet.Accounts.{User}
use senet.Discussions.{
  Thread, Reply, Forum, update_row, take_key, require_participant, require_body, can_moderate,
}
use senet.Discussions.Threads.{is_live_reply_of, update_threads}

-- The live replies of the thread, oldest first.
unfoldable pub visible_replies : User → Thread → Exec Forum (List Reply)
visible_replies user thread =
    require_participant user thread.course thread.session_id thread.semester_id
    >> gets λ forum.
      sort_by (λ (a : Reply) (b : Reply). leb a.created_at b.created_at)
        (filter (λ r. is_live_reply_of thread.id r && r.institution_id == thread.institution_id)
          forum.replies)

abbrev pub reply_row : User → Thread → Text → Forum → Reply
reply_row actor thread body forum = record {
  id = forum.tables.next_id;
  institution_id = thread.institution_id;
  thread_id = thread.id;
  author_id = actor.id;
  body = body;
  created_at = forum.tables.now;
  is_removed = false;
  removed_by = none;
  removed_at = none;
}

abbrev pub insert_reply : Reply → Forum → Forum
insert_reply reply forum = record forum {
  tables = take_key forum.tables;
  replies = forum.replies ++ reply ∷ [];
}

-- `thread.save(update_fields=["last_activity_at", "updated_at"])`
abbrev pub touch_thread : ℕ → ℕ → Forum → Forum
touch_thread thread time = update_threads thread λ t. record t { last_activity_at = time }

unfoldable pub create_reply : User → Thread → Text → Exec Forum Reply
create_reply actor thread body forum =
    let reply : Reply = reply_row actor thread body forum in
    (check (not thread.is_removed) (validation ("thread" ∷ []))
        >> require_participant actor thread.course thread.session_id thread.semester_id
        >> check (not thread.is_locked || can_moderate actor thread forum)
            (permission_denied "This thread is locked.")
        >> require_body body
        >> modify (insert_reply reply)
        >> modify (touch_thread thread.id reply.created_at)
        >> pure reply)
      forum

abbrev pub update_replies : ℕ → (Reply → Reply) → Forum → Forum
update_replies id change forum = record forum {
  replies = update_row (λ r. r.id) id change forum.replies;
}

abbrev pub with_body : Text → Reply → Reply
with_body body r = record r { body = body }

unfoldable pub update_reply : User → Reply → Text → Exec Forum Reply
update_reply actor reply body =
    check (not reply.is_removed) (validation ("reply" ∷ []))
    >> check (reply.author_id == actor.id) (permission_denied "You can only edit your own reply.")
    >> require_body body
    >> modify (update_replies reply.id (with_body body))
    >> pure (with_body body reply)

abbrev pub removed_reply : User → ℕ → Reply → Reply
removed_reply actor now r = record r {
  is_removed = true;
  removed_by = some actor.id;
  removed_at = some now;
}

-- `reply.author_id != actor.id and not can_moderate(actor, reply.thread)`, which reads the thread
-- only for another's reply
abbrev pub may_remove_reply : User → Reply → Exec Forum Bool
may_remove_reply actor reply forum =
    (if reply.author_id == actor.id
        then pure true
        else or_raise (first (λ (t : Thread). t.id == reply.thread_id) forum.threads) does_not_exist
          >>= λ thread. pure (can_moderate actor thread forum))
      forum

unfoldable pub remove_reply : User → Reply → Exec Forum Reply
remove_reply actor reply forum =
    (may_remove_reply actor reply >>= λ allowed.
    check allowed (permission_denied "You can only remove your own reply.")
    >> (if reply.is_removed
        then pure reply
        else modify (update_replies reply.id (removed_reply actor forum.tables.now))
          >> pure (removed_reply actor forum.tables.now reply)))
      forum
