-- ===== src/Cbt/Proctoring/Unreadable.antt =====
-- What an event does whose duration `float` cannot read.
use senet.Prelude.{
  ℕ, Bool, true, false, ◌&&◌, not, Option, none, some, List, [], ◌∷◌, ◌++◌, ◌==◌, ◌≡◌, refl, sym,
  ap, ◌∙◌, arith, Member, Member-exists, exists, filter, first, first-test, save, map, is_some,
  if◌then◌else◌, if_ind, inl, inr, Bool-cases, Option-cases, ==→eq,
}
use mathlib.Core.Path.{subst}
use senet.Exec.{Result, err, value_error, continue_keeps, pure}
use senet.Accounts.{User}
use senet.Cbt.{ExamAttempt}
use senet.Cbt.Proctoring.{
  focus_loss, ProctorEvent, Reason, CheatingFlag, ProctorDb, Floats, Thresholds, of_event_type,
  seconds_of, is_raised,
}
use senet.Cbt.Proctoring.Flagging.{
  tripped_reasons, raise_flag, flag_for, evaluate_attempt_for_cheating, add_event, event_row,
  record_event, add_capture, capture_row, create_webcam_capture, flag_of, flag_key, sum_seconds,
  focus_seconds, new_flag, add_seconds,
}
use senet.Cbt.Proctoring.Review.{require_reviewer, dismiss_flag, escalate_flag, update_flag}
use senet.Cbt.Proctoring.Advisory.{
  ProctorCall, perform, perform_calls, tripped_state, reviewer_state, records, captures_webcam,
  dismisses, escalates,
}

module _ (floats : Floats) (id : ℕ) where
  abbrev pub is_unreadable : ProctorEvent → Bool
  is_unreadable e = of_event_type id focus_loss e && not (is_some (seconds_of floats e.detail))

  sum_none : (es : List ProctorEvent) → sum_seconds floats none es ≡ none
  sum_none [] = refl
  sum_none (e ∷ es) = sum_none es

  add_none : (acc : Option floats.Float) → add_seconds floats acc none ≡ none
  add_none none = refl
  add_none (some x) = refl

  sum_unreadable :
      (acc : Option floats.Float) (es : List ProctorEvent)
      → exists is_unreadable es ≡ true
      → sum_seconds floats acc (filter (of_event_type id focus_loss) es) ≡ none
  sum_unreadable acc [] h = cc
  sum_unreadable acc (e ∷ es) h =
      let rest = filter (of_event_type id focus_loss) es in
      elim (Bool-cases (of_event_type id focus_loss e)) [
        | inl t ↦ elim (Option-cases (seconds_of floats e.detail)) [
          | inl n ↦ rw t (
              ap (λ o. sum_seconds floats (add_seconds floats acc o) rest) n
              ∙ ap (λ o. sum_seconds floats o rest) (add_none acc)
              ∙ sum_none rest)
          | inr (x, n) ↦ rw t (
              sum_unreadable (add_seconds floats acc (seconds_of floats e.detail)) es
                (ground (arith, h, t, n)))
        ]
        | inr f ↦ rw f (sum_unreadable acc es (ground (arith, h, f)))
      ]

  -- an unreadable event of the attempt, and no flag of it
  record IsStuck (db : ProctorDb) : Type 0 where
    unreadable : exists is_unreadable db.events ≡ true
    unflagged : first (flag_of id) db.flags ≡ none

  exists_append :
      (es : List ProctorEvent) (e : ProctorEvent)
      → exists is_unreadable es ≡ true
      → exists is_unreadable (es ++ e ∷ []) ≡ true
  exists_append [] e h = cc
  exists_append (x ∷ es) e h = elim (Bool-cases (is_unreadable x)) [
    | inl t ↦ rw t refl
    | inr f ↦ ground (arith, f, exists_append es e (ground (arith, h, f)))
  ]

  flags_append :
      (fs : List CheatingFlag) (f : CheatingFlag)
      → first (flag_of id) fs ≡ none
      → flag_of id f ≡ false
      → first (flag_of id) (fs ++ f ∷ []) ≡ none
  flags_append [] f h n = rw n refl
  flags_append (x ∷ fs) f h n = ground (arith, h, flags_append fs f (ground (arith, h)) n)

  flags_save :
      (f : CheatingFlag) (fs : List CheatingFlag)
      → first (flag_of id) fs ≡ none
      → flag_of id f ≡ false
      → first (flag_of id) (save flag_key f fs) ≡ none
  flags_save f [] h n = refl
  flags_save f (x ∷ fs) h n = ground (arith, h, n, flags_save f fs (ground (arith, h)) n)

  -- a decision keeps the attempt of each flag
  flags_update :
      (k : ℕ) (change : CheatingFlag → CheatingFlag) (fs : List CheatingFlag)
      → ((f : CheatingFlag) → (change f).attempt_id ≡ f.attempt_id)
      → first (flag_of id) fs ≡ none
      → first (flag_of id) (map (λ f. if f.id == k then change f else f) fs) ≡ none
  flags_update k change [] same h = refl
  flags_update k change (x ∷ fs) same h =
      ground (arith, h, same x, flags_update k change fs same (ground (arith, h)))

  raise-IsStuck :
      (attempt : ExamAttempt) (reasons : List Reason) (o : Option CheatingFlag) (db : ProctorDb)
      → (attempt.id == id) ≡ false
      → first (flag_of attempt.id) db.flags ≡ o
      → IsStuck db
      → IsStuck (raise_flag attempt reasons o db)
  unfolding raise_flag
  raise-IsStuck attempt reasons none db n e h = record {
    unreadable = h.unreadable;
    unflagged =
        flags_append db.flags (new_flag attempt reasons db.tables.next_id db.tables.now) h.unflagged
          n;
  }
  raise-IsStuck attempt reasons (some flag) db n e h =
      let t : flag_of attempt.id flag ≡ true = first-test (flag_of attempt.id) db.flags e in
      let other : (flag.attempt_id == id) ≡ false = ground (arith, t, n) in
      if_ind IsStuck (is_raised flag.flag_status)
        (λ _. record {
          unreadable = h.unreadable;
          unflagged = flags_save (record flag { reasons = reasons }) db.flags h.unflagged other;
        })
        (λ _. h)

module _ (floats : Floats) (limits : Thresholds) (id : ℕ) where
  flag_for-IsStuck :
      (attempt : ExamAttempt) (reasons : List Reason) (db : ProctorDb)
      → (attempt.id == id) ≡ false
      → IsStuck floats id db
      → IsStuck floats id (flag_for attempt reasons db)
  flag_for-IsStuck attempt [] db n h = h
  flag_for-IsStuck attempt (r ∷ rs) db n h = raise-IsStuck floats id attempt (r ∷ rs) _ db n refl h

  -- the evaluation of the attempt itself raises
  evaluate_stuck :
      (attempt : ExamAttempt) (db : ProctorDb)
      → attempt.id ≡ id
      → IsStuck floats id db
      → evaluate_attempt_for_cheating floats limits attempt db ≡ (err value_error, db)
  unfolding evaluate_attempt_for_cheating tripped_reasons
  evaluate_stuck attempt db e h =
      let n : focus_seconds floats attempt.id db ≡ none =
        subst (λ k. focus_seconds floats k db ≡ none) (sym e)
          (sum_unreadable floats id (some floats.zero_float) db.events h.unreadable) in
      rw n refl

  evaluate-IsStuck :
      (attempt : ExamAttempt) (db : ProctorDb)
      → IsStuck floats id db
      → IsStuck floats id (evaluate_attempt_for_cheating floats limits attempt db).1
  unfolding evaluate_attempt_for_cheating
  evaluate-IsStuck attempt db h = elim (Bool-cases (attempt.id == id)) [
    | inl t ↦
        subst (λ (r : Result (Unit {0}) × ProctorDb). IsStuck floats id r.1)
          (sym (evaluate_stuck attempt db (==→eq attempt.id id t) h)) h
    | inr n ↦
        continue_keeps (IsStuck floats id) (tripped_reasons floats limits attempt.id db) _
          (subst (IsStuck floats id) (sym (tripped_state floats limits attempt.id db)) h)
          (λ reasons s k. flag_for-IsStuck attempt reasons s n k)
  ]

  maybe-IsStuck :
      (anomalous : Bool) (attempt : ExamAttempt) (db : ProctorDb)
      → IsStuck floats id db
      → IsStuck floats id
          ((if anomalous then evaluate_attempt_for_cheating floats limits attempt else pure tt)
            db).1
  maybe-IsStuck true attempt db h = evaluate-IsStuck attempt db h
  maybe-IsStuck false attempt db h = h

  add_event-IsStuck :
      (event : ProctorEvent) (db : ProctorDb)
      → IsStuck floats id db
      → IsStuck floats id (add_event event db)
  add_event-IsStuck event db h = record {
    unreadable = exists_append floats id db.events event h.unreadable;
    unflagged = h.unflagged;
  }

  decide-IsStuck :
      (k : ℕ) (change : CheatingFlag → CheatingFlag) (db : ProctorDb)
      → ((f : CheatingFlag) → (change f).attempt_id ≡ f.attempt_id)
      → IsStuck floats id db
      → IsStuck floats id (update_flag k change db)
  decide-IsStuck k change db same h = record {
    unreadable = h.unreadable;
    unflagged = flags_update floats id k change db.flags same h.unflagged;
  }

  reviewed-IsStuck :
      (actor : User) (flag : CheatingFlag) (db : ProctorDb)
      → IsStuck floats id db
      → IsStuck floats id (require_reviewer actor flag db).1
  reviewed-IsStuck actor flag db h =
      subst (IsStuck floats id) (sym (reviewer_state actor flag db)) h

  perform-IsStuck :
      (call : ProctorCall) (db : ProctorDb)
      → IsStuck floats id db
      → IsStuck floats id (perform floats limits call db)
  unfolding record_event create_webcam_capture dismiss_flag escalate_flag
  perform-IsStuck (records attempt kind time detail) db h =
      let after = add_event (event_row attempt kind time detail db.tables.next_id) db in
      continue_keeps (IsStuck floats id) (evaluate_attempt_for_cheating floats limits attempt after)
        _ (evaluate-IsStuck attempt after (add_event-IsStuck _ db h)) (λ _ s k. k)
  perform-IsStuck (captures_webcam days attempt u) db h =
      let after = add_capture (capture_row days attempt u db.tables) db in
      continue_keeps (IsStuck floats id)
        ((if u.anomalous then evaluate_attempt_for_cheating floats limits attempt else pure tt)
          after)
        _
        (maybe-IsStuck u.anomalous attempt after
          (record { unreadable = h.unreadable; unflagged = h.unflagged }))
        (λ _ s k. k)
  perform-IsStuck (dismisses actor flag notes) db h =
      continue_keeps (IsStuck floats id) (require_reviewer actor flag db) _
        (reviewed-IsStuck actor flag db h) (λ exam s k. decide-IsStuck flag.id _ s (λ f. refl) k)
  perform-IsStuck (escalates actor flag notes) db h =
      continue_keeps (IsStuck floats id) (require_reviewer actor flag db) _
        (reviewed-IsStuck actor flag db h)
        (λ exam s k.
          let z = decide-IsStuck flag.id _ s (λ f. refl) k in
          record { unreadable = z.unreadable; unflagged = z.unflagged })

  calls-IsStuck :
      (calls : List ProctorCall) (db : ProctorDb)
      → IsStuck floats id db
      → IsStuck floats id (perform_calls floats limits calls db)
  calls-IsStuck [] db h = h
  calls-IsStuck (call ∷ calls) db h =
      calls-IsStuck calls (perform floats limits call db) (perform-IsStuck call db h)

-- Once an attempt without a flag has a loss of focus recorded whose duration `float` cannot read,
-- no calls of proctoring, whatever they are, ever raise a flag on it.
pub unreadable_never_flagged :
    (floats : Floats) (limits : Thresholds) (id : ℕ) (event : ProctorEvent)
    (calls : List ProctorCall) (db : ProctorDb)
    → Member event db.events
    → of_event_type id focus_loss event ≡ true
    → seconds_of floats event.detail ≡ none
    → first (flag_of id) db.flags ≡ none
    → first (flag_of id) (perform_calls floats limits calls db).flags ≡ none
unreadable_never_flagged floats limits id event calls db m kind bad free =
    let stuck : IsStuck floats id db = record {
      unreadable = Member-exists (is_unreadable floats id) db.events m (ground (arith, kind, bad));
      unflagged = free;
    } in
    (calls-IsStuck floats limits id calls db stuck).unflagged
