-- ===== src/Discussions/Moderation.antt =====
-- What moderation takes down stays down: calls on a board, in any order.
use senet.Prelude.{
  ℕ, ◌<◌, Bool, true, false, not, ◌||◌, ◌&&◌, Option, List, [], ◌∷◌, ◌≡◌, ◌≢◌, arith, map, ◌==◌,
  ==→eq, ==_refl, Bool-cases, inl, inr, All, All-append, All-filter, All-member, All_of_member,
  Member, filter, count, if_ind, ap, sym, refl,
}
use mathlib.Core.Path.{subst}
use senet.Prelude.Keys.{IsKeyed, AllBelow, keyed_unique}
use senet.Prelude.Text.{Text}
use senet.Exec.{ok}
use senet.Accounts.{User, Course}
use senet.Accounts.Access.{scope_to_accessible_courses}
use senet.Results.Worklist.{in_tenant}
use senet.Database.{Db}
use senet.Discussions.{Thread, Reply, Forum, update_row}
use senet.Discussions.Threads.{
  Changes, is_live_reply_of, of_board, visible_threads, create_thread, update_thread, remove_thread,
  update_threads, removed_thread, set_changes,
}
use senet.Discussions.Replies.{create_reply, update_reply, remove_reply, insert_reply, reply_row}
use senet.Discussions.Writes.{
  create_thread_state, update_thread_state, remove_thread_state, create_reply_state,
  update_reply_threads, remove_reply_threads, remove_thread_ok,
}

-- One call on the board, with its arguments; threads and replies are the caller's copies, however
-- old.
pub data ForumCall : Type 0 where
  posts : User → Course → ℕ → ℕ → Text → Text → Bool → ForumCall
  edits : User → Thread → Changes → ForumCall
  removes : User → Thread → ForumCall
  answers : User → Thread → Text → ForumCall
  edits_reply : User → Reply → Text → ForumCall
  removes_reply : User → Reply → ForumCall

-- the tables after the call, whether it returned or raised
abbrev pub perform : ForumCall → Forum → Forum
perform (posts actor course session semester title body pinned) f =
    (create_thread actor course session semester title body pinned f).1
perform (edits actor thread changes) f = (update_thread actor thread changes f).1
perform (removes actor thread) f = (remove_thread actor thread f).1
perform (answers actor thread body) f = (create_reply actor thread body f).1
perform (edits_reply actor reply body) f = (update_reply actor reply body f).1
perform (removes_reply actor reply) f = (remove_reply actor reply f).1

abbrev pub perform_calls : List ForumCall → Forum → Forum
perform_calls [] f = f
perform_calls (call ∷ calls) f = perform_calls calls (perform call f)

abbrev gone : ℕ → Thread → Bool
gone id t = not (t.id == id) || t.is_removed

-- every row with the key is removed, and no new row takes the key
record IsGone (id : ℕ) (f : Forum) : Type 0 where
  below : id < f.tables.next_id
  removed : All (λ t. gone id t ≡ true) f.threads

All_of_map :
    {A B : Type 0} (P : B → Type 0) (g : A → B) (xs : List A)
    → All (λ a. P (g a)) xs
    → All P (map g xs)
All_of_map P g [] h = tt
All_of_map P g (x ∷ xs) h = (h.0, All_of_map P g xs h.1)

module _ (id : ℕ) where
  -- an update that names its fields, `is_removed` only to set it
  update-gone :
      (change : Thread → Thread) (at : ℕ)
      → ((t : Thread) → (change t).id ≡ t.id)
      → ((t : Thread) → t.is_removed ≡ true → (change t).is_removed ≡ true)
      → (threads : List Thread) → All (λ t. gone id t ≡ true) threads
      → All (λ t. gone id t ≡ true) (update_row (λ t. t.id) at change threads)
  update-gone change at k r [] h = tt
  update-gone change at k r (t ∷ ts) h =
      (ground (arith, k t, r t, h.0), update-gone change at k r ts h.1)

  update-IsGone :
      (change : Thread → Thread) (at : ℕ) (f : Forum)
      → ((t : Thread) → (change t).id ≡ t.id)
      → ((t : Thread) → t.is_removed ≡ true → (change t).is_removed ≡ true)
      → IsGone id f
      → IsGone id (update_threads at change f)
  update-IsGone change at f k r h = record {
    below = h.below;
    removed = update-gone change at k r f.threads h.removed;
  }

  same-IsGone :
      (f g : Forum)
      → g.threads ≡ f.threads
      → f.tables.next_id ≡ g.tables.next_id
      → IsGone id f
      → IsGone id g
  same-IsGone f g t n h = record {
    below = subst (λ (k : ℕ). id < k) n h.below;
    removed = subst (λ ts. All (λ (r : Thread). gone id r ≡ true) ts) (sym t) h.removed;
  }

  create_thread-IsGone :
      (actor : User) (course : Course) (session semester : ℕ) (title body : Text) (pinned : Bool)
      (f : Forum)
      → IsGone id f
      → IsGone id (create_thread actor course session semester title body pinned f).1
  create_thread-IsGone actor course session semester title body pinned f h =
      elim (create_thread_state actor course session semester title body pinned f) [
        | inl e ↦ subst (IsGone id) (sym e) h
        | inr (t, fresh, e) ↦ subst (IsGone id) (sym e) record {
          below = omega (arith, h.below);
          removed =
              All-append (λ r. gone id r ≡ true) f.threads (t ∷ []) h.removed
                (
                  (let apart : (t.id == id) ≡ false =
                        ground (arith, h.below, fresh, ==→eq t.id id) in
                      ground (arith, apart)),
                  tt,
                );
        }
      ]

  create_reply-IsGone :
      (actor : User) (thread : Thread) (body : Text) (f : Forum)
      → IsGone id f
      → IsGone id (create_reply actor thread body f).1
  create_reply-IsGone actor thread body f h = elim (create_reply_state actor thread body f) [
    | inl e ↦ subst (IsGone id) (sym e) h
    | inr e ↦ subst (IsGone id) (sym e) (
        update-IsGone (λ t. record t { last_activity_at = f.tables.now }) thread.id
          (insert_reply (reply_row actor thread body f) f) (λ t. refl) (λ t r. r)
          (record { below = omega (arith, h.below); removed = h.removed }))
  ]

  perform-IsGone : (call : ForumCall) (f : Forum) → IsGone id f → IsGone id (perform call f)
  perform-IsGone (posts actor course session semester title body pinned) f h =
      create_thread-IsGone actor course session semester title body pinned f h
  perform-IsGone (edits actor thread changes) f h =
      elim (update_thread_state actor thread changes f) [
        | inl e ↦ subst (IsGone id) (sym e) h
        | inr e ↦
            subst (IsGone id) (sym e)
              (update-IsGone (set_changes changes) thread.id f (λ t. refl) (λ t r. r) h)
      ]
  perform-IsGone (removes actor thread) f h = elim (remove_thread_state actor thread f) [
    | inl e ↦ subst (IsGone id) (sym e) h
    | inr e ↦
        subst (IsGone id) (sym e) (
          update-IsGone (removed_thread actor f.tables.now) thread.id f (λ t. refl) (λ t r. refl) h)
  ]
  perform-IsGone (answers actor thread body) f h = create_reply-IsGone actor thread body f h
  perform-IsGone (edits_reply actor reply body) f h =
      let (t, d) = update_reply_threads actor reply body f in
      same-IsGone f _ t (ap (λ (k : Db). k.next_id) (sym d)) h
  perform-IsGone (removes_reply actor reply) f h =
      let (t, d) = remove_reply_threads actor reply f in
      same-IsGone f _ t (ap (λ (k : Db). k.next_id) (sym d)) h

  calls-IsGone :
      (calls : List ForumCall) (f : Forum) → IsGone id f → IsGone id (perform_calls calls f)
  calls-IsGone [] f h = h
  calls-IsGone (call ∷ calls) f h = calls-IsGone calls (perform call f) (perform-IsGone call f h)

  live_apart :
      (p : Thread → Bool)
      → ((t : Thread) → p t ≡ true → t.is_removed ≡ false)
      → (ts : List Thread) → All (λ t. gone id t ≡ true) ts
      → All (λ t. t.id ≢ id) (filter p ts)
  live_apart p live [] h = tt
  live_apart p live (t ∷ ts) h =
      if_ind (All (λ t. t.id ≢ id)) (p t)
        (λ e. ((λ same. ground (arith, live t e, h.0, same, ==_refl id)), live_apart p live ts h.1))
        (λ _. live_apart p live ts h.1)

  -- a thread that is removed is on nobody's board
  gone_unseen :
      (viewer : User) (course session semester : Option ℕ) (f : Forum)
      → IsGone id f
      → All (λ row. row.0.id ≢ id) (visible_threads viewer course session semester f)
  unfolding visible_threads scope_to_accessible_courses
  gone_unseen viewer course session semester f h =
      All_of_map (λ row. row.0.id ≢ id)
        (λ (t : Thread). (t, count (is_live_reply_of t.id) f.replies)) _
        (All-filter (λ t. t.id ≢ id) (of_board course session semester) _
          (All-filter (λ t. t.id ≢ id) _ _
            (live_apart (λ t. in_tenant f.tables t.institution_id && not t.is_removed)
              (λ t e. ground arith) f.threads h.removed)))

-- the row itself, and any row that has its key
keyed_gone :
    (thread : Thread) (ts : List Thread)
    → IsKeyed (λ t. t.id) ts
    → Member thread ts
    → thread.is_removed ≡ true
    → All (λ t. gone thread.id t ≡ true) ts
keyed_gone thread ts keyed m r = All_of_member ts λ t mt. elim (Bool-cases (t.id == thread.id)) [
  | inl e ↦
      let same : t ≡ thread =
        keyed_unique (λ (t : Thread). t.id) ts keyed mt m (==→eq t.id thread.id e) in
      subst (λ (b : Thread). gone thread.id b ≡ true) (sym same) (ground (arith, r))
  | inr e ↦ ground (arith, e)
]

updated_gone :
    (id now : ℕ) (actor : User) (ts : List Thread)
    → All (λ t. gone id t ≡ true) (update_row (λ t. t.id) id (removed_thread actor now) ts)
updated_gone id now actor [] = tt
updated_gone id now actor (t ∷ ts) = (ground arith, updated_gone id now actor ts)

remove_thread-IsGone :
    (actor : User) (thread : Thread) (f : Forum) {row : Thread}
    → IsKeyed (λ t. t.id) f.threads
    → AllBelow (λ t. t.id) f.tables.next_id f.threads
    → Member thread f.threads
    → (remove_thread actor thread f).0 ≡ ok row
    → IsGone thread.id (remove_thread actor thread f).1
remove_thread-IsGone actor thread f keyed below m h =
    let low = All-member (λ t. t.id < f.tables.next_id) m below in
    elim (remove_thread_ok actor thread f h) [
      | inl (r, e) ↦
          subst (IsGone thread.id) (sym e)
            (record { below = low; removed = keyed_gone thread f.threads keyed m r })
      | inr e ↦
          subst (IsGone thread.id) (sym e)
            (record { below = low; removed = updated_gone thread.id f.tables.now actor f.threads })
    ]

-- Where a thread of the board is removed, by a call that returns, whatever calls are then made, in
-- whatever order and with copies of rows however old: the thread is on no board that anybody is
-- shown.
pub removed_unseen :
    (actor : User) (thread : Thread) (calls : List ForumCall) (f : Forum) {row : Thread}
    (viewer : User) (course session semester : Option ℕ)
    → IsKeyed (λ t. t.id) f.threads
    → AllBelow (λ t. t.id) f.tables.next_id f.threads
    → Member thread f.threads
    → (remove_thread actor thread f).0 ≡ ok row
    → All
        (λ shown. shown.0.id ≢ thread.id)
        (visible_threads viewer course session semester
          (perform_calls calls (remove_thread actor thread f).1))
removed_unseen actor thread calls f viewer course session semester keyed below m h =
    gone_unseen thread.id viewer course session semester _
      (calls-IsGone thread.id calls _ (remove_thread-IsGone actor thread f keyed below m h))
