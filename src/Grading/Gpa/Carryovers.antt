-- ===== src/Grading/Gpa/Carryovers.antt =====
-- Which courses are outstanding.
use senet.Prelude.{
  ℕ, ◌<◌, ◌≡◌, ◌↔◌, Member, map, filter, Member-filter, filter-Member, Member-map, map-Member,
  ltb→lt, lt→ltb, none, sym, refl, All-member,
}
use mathlib.Core.Path.{subst}
use senet.Prelude.Text.{le_text_total, le_text_trans}
use senet.Prelude.Sorting.{IsSortedBy, sort_by-IsSortedBy, Member-sort_by, sort_by-Member}
use senet.Tenancy.{Institution}
use senet.Database.{Db}
use senet.Grading.Gpa.Official.{IsOfficial, Beats, unbeaten_total}
use senet.Grading.Gpa.Counted.{best-AreBest}
use senet.Grading.Gpa.{
  course_of, TranscriptRow, CourseName, by_code, name_of, failing, best_by_course, official_rows,
  outstanding_carryovers,
}

outstanding-Member :
    (db : Db) (i : Institution) (student : ℕ) (name : CourseName)
    → Member name (outstanding_carryovers db i student) ↔ (
        (row : TranscriptRow) × Member row (best_by_course i (official_rows db i student none))
        × (row.score.total < i.carryover_pass_mark)
        × (name ≡ name_of row))
unfolding outstanding_carryovers
outstanding-Member db i student name =
    let best = best_by_course i (official_rows db i student none) in
    let below = filter (failing i) best in
    (
      λ m.
          let (row, m', e) =
            Member-map name_of below (Member-sort_by by_code (map name_of below) m) in
          let (t, m'') = Member-filter (failing i) best m' in (row, m'', ltb→lt _ _ t, e),
      λ (row, m, t, e).
          subst (λ n. Member n (outstanding_carryovers db i student)) (sym e)
            (sort_by-Member by_code (map name_of below)
              (map-Member name_of below (filter-Member (failing i) best m (lt→ltb _ _ t)))),
    )

-- The outstanding courses are listed in the order of their codes. Each is the course of an official
-- attempt of the student (a current score in the institution on a sheet in the status that counts)
-- that stays below the carryover pass mark and that no official attempt at the course beats by
-- grade points, then total, then time. Each course with such an attempt is listed, under the name
-- that the course has on an official attempt with the same total.
pub outstanding_carryovers-are :
    (db : Db) (i : Institution) (student : ℕ)
    → IsSortedBy by_code (outstanding_carryovers db i student)
      × ((name : CourseName)
          → Member name (outstanding_carryovers db i student)
          → (row : TranscriptRow) × IsOfficial db i student none row
            × (row.score.total < i.carryover_pass_mark)
            × (name ≡ name_of row)
            × ((r : TranscriptRow)
                → IsOfficial db i student none r
                → course_of r ≡ course_of row
                → Beats i r row
                → ⊥))
      × ((row : TranscriptRow)
          → IsOfficial db i student none row
          → row.score.total < i.carryover_pass_mark
          → ((r : TranscriptRow)
              → IsOfficial db i student none r
              → course_of r ≡ course_of row
              → Beats i r row
              → ⊥)
          → (c : TranscriptRow) × IsOfficial db i student none c
            × (course_of c ≡ course_of row)
            × (c.score.total ≡ row.score.total)
            × Member (name_of c) (outstanding_carryovers db i student))
unfolding outstanding_carryovers
outstanding_carryovers-are db i student =
    let best = best_by_course i (official_rows db i student none) in
    let b = best-AreBest db i student none in
    (
      sort_by-IsSortedBy by_code (λ x y. le_text_total x.code y.code)
          (λ x y z. le_text_trans x.code y.code z.code) (map name_of (filter (failing i) best)),
      λ name m.
          let (row, m', low, e) = (outstanding-Member db i student name).0 m in
          (
            row,
            All-member (IsOfficial db i student none) m' b.official,
            low,
            e,
            λ r o same beats. b.unbeaten row r m' o same beats,
          ),
      λ row o low top.
          let (c, m, e) = b.covered row o in
          let oc = All-member (IsOfficial db i student none) m b.official in
          let t : c.score.total ≡ row.score.total =
            unbeaten_total i c row (λ h. b.unbeaten c row m o (sym e) h) (λ h. top c oc e h) in
          (
            c,
            oc,
            e,
            t,
            (outstanding-Member db i student (name_of c)).1
                (c, m, subst (λ (n : ℕ). n < i.carryover_pass_mark) (sym t) low, refl),
          ),
    )
