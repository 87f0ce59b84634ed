-- ===== src/Opendeck/Observe/Filing.antt =====
-- opendeck-broker/opendeck_broker/opencode/observe.py: the state of a directory after its rows were
-- filed.
use home_ailab.Prelude.{
  ℕ, ◌≡◌, refl, ◌∙◌, String, Bool, true, false, ◌||◌, Option, none, some, List, [], ◌∷◌, ◌++◌,
  lookup, lookup-insert, lookup-insert_self, ltb, str_eq, eq_iff, Bool-cases, inl, inr,
  if◌then◌else◌,
}
use mathlib.Core.List.{append_assoc, append-nil}
use home_ailab.Opendeck.Model.{Status}
use home_ailab.Opendeck.Paths.{norm_dir}
use home_ailab.Opendeck.Observe.{
  Row, SessionState, Tally, or_zero, or_blank, new_state, questions_of, permissions_of,
  add_requests, state_or_new, file_row, file_rows, is_recent,
}

-- the row is one of the directory
abbrev pub belongs : String → Row → Bool
belongs d row = str_eq (norm_dir row.directory) d

-- The requests of the directory's rows, in their order.
unfoldable pub gather : (Row → List String) → String → List Row → List String
gather f d [] = []
gather f d (row ∷ rows) =
    let rest = gather f d rows in if belongs d row then f row ++ rest else rest

-- Some row of the directory has a tool at work, or a part that is recent.
unfoldable pub is_working : ℕ → ℕ → String → List Row → Bool
is_working now window d [] = false
is_working now window d (row ∷ rows) =
    let rest = is_working now window d rows in
    if belongs d row
    then (ltb 0 (or_zero row.active) || is_recent now window row.last_part_upd) || rest
    else rest

unfoldable pub first_row : String → List Row → Option Row
first_row d [] = none
first_row d (row ∷ rows) = let rest = first_row d rows in if belongs d row then some row else rest

abbrev pub summary_of : ℕ → ℕ → String → List Row → Option Row → Option SessionState
summary_of now window d rows none = none
summary_of now window d rows (some row) = some (record {
  directory = d;
  has_session = true;
  status = if is_working now window d rows then Status.busy else Status.idle;
  pending_questions = gather questions_of d rows;
  pending_permissions = gather permissions_of d rows;
  session_id = row.id;
  title = or_blank row.title;
})

-- What the rows say of a directory, if it has any.
abbrev pub summary : ℕ → ℕ → String → List Row → Option SessionState
summary now window d rows = summary_of now window d rows (first_row d rows)

-- the state of a directory after a row
abbrev seen : String → Row → Option SessionState → Option SessionState
seen d row o = if belongs d row then some (add_requests row (state_or_new d row o)) else o

file_row-seen :
    (d : String) (row : Row) (t : Tally)
    → lookup d (file_row row t).by_dir ≡ seen d row (lookup d t.by_dir)
unfolding file_row
file_row-seen d row t = elim (Bool-cases (belongs d row)) [
  | inl here ↦ rw here (
      rw ((eq_iff (norm_dir row.directory) d).0 here)
        (lookup-insert_self d (add_requests row (state_or_new d row (lookup d t.by_dir))) t.by_dir))
  | inr away ↦ rw away (lookup-insert (norm_dir row.directory) d _ t.by_dir ∙ rw away refl)
]

abbrev with_requests : SessionState → String → List Row → SessionState
with_requests st d rows = record st {
  pending_questions = st.pending_questions ++ gather questions_of d rows;
  pending_permissions = st.pending_permissions ++ gather permissions_of d rows;
}

filed_some :
    (d : String) (rows : List Row) (t : Tally) (st : SessionState)
    → lookup d t.by_dir ≡ some st
    → lookup d (file_rows rows t).by_dir ≡ some (with_requests st d rows)
unfolding file_rows gather
filed_some d [] t st e =
    rw (e, append-nil st.pending_questions, append-nil st.pending_permissions) refl
filed_some d (row ∷ rows) t st e = elim (Bool-cases (belongs d row)) [
  | inl here ↦ rw here (
      filed_some d rows (file_row row t) (add_requests row st)
        (file_row-seen d row t ∙ rw (here, e) refl)
      ∙ rw
          (
            append_assoc st.pending_questions (questions_of row) (gather questions_of d rows),
            append_assoc st.pending_permissions (permissions_of row) (gather permissions_of d rows),
          )
          refl)
  | inr away ↦ rw away (filed_some d rows (file_row row t) st (file_row-seen d row t ∙ rw away e))
]

-- the state of a directory that no row before has mentioned
abbrev pub filed_new : String → List Row → Option Row → Option SessionState
filed_new d rows none = none
filed_new d rows (some row) = some (record (new_state d row) {
  pending_questions = gather questions_of d rows;
  pending_permissions = gather permissions_of d rows;
})

pub filed_none :
    (d : String) (rows : List Row) (t : Tally)
    → lookup d t.by_dir ≡ none
    → lookup d (file_rows rows t).by_dir ≡ filed_new d rows (first_row d rows)
unfolding file_rows gather first_row
filed_none d [] t e = e
filed_none d (row ∷ rows) t e = elim (Bool-cases (belongs d row)) [
  | inl here ↦ rw here (
      rw here (
        filed_some d rows (file_row row t) (add_requests row (new_state d row))
          (file_row-seen d row t ∙ rw (here, e) refl)))
  | inr away ↦ rw away (
      same away (first_row d rows)
        (filed_none d rows (file_row row t) (file_row-seen d row t ∙ rw away e)))
]
  where
    same :
        belongs d row ≡ false
        → (o : Option Row) → lookup d (file_rows rows (file_row row t)).by_dir ≡ filed_new d rows o
        → lookup d (file_rows rows (file_row row t)).by_dir ≡ filed_new d (row ∷ rows) o
    same away none h = h
    same away (some r) h = h ∙ rw away refl
