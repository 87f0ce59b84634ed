-- ===== src/Opendeck/Observe/Summary.antt =====
-- opendeck-broker/opendeck_broker/opencode/observe.py: the snapshot of a directory is a summary of
-- the rows of that directory.
use home_ailab.Prelude.{
  ℕ, ◌≤◌, ◌≡◌, refl, ◌∙◌, String, Bool, true, false, ◌||◌, Option, none, some, List, [], ◌∷◌, Dict,
  lookup, insert, lookup-insert, ltb, str_eq, arith, eq_iff, Returns, ok, Bool-cases, inl, inr,
  if◌then◌else◌,
}
use mathlib.Core.Option.{map}
use home_ailab.Opendeck.Paths.{norm_dir}
use home_ailab.Opendeck.Observe.{
  Row, SessionState, Tally, or_zero, is_later, max_ℕ, file_row, file_rows, is_recent, get_time,
  decide, decide_all, empty_tally, snapshot_by_directory,
}
use home_ailab.Opendeck.Observe.Filing.{
  belongs, is_working, first_row, summary_of, summary, filed_new, filed_none,
}

-- a tool is at work in the directory, or a part of it is recent, as far as the tally knows
abbrev works : ℕ → ℕ → Option (Option ℕ) → Option ℕ → Bool
works now window latest active = ltb 0 (or_zero active) || is_recent now window (get_time latest)

abbrev row_works : ℕ → ℕ → Row → Bool
row_works now window row = ltb 0 (or_zero row.active) || is_recent now window row.last_part_upd

-- the later of two times is recent if one of them is
later_recent :
    (now window : ℕ) (row : Row) (l : Option (Option ℕ))
    → window ≤ now
    → is_recent now window (get_time (if is_later row l then some row.last_part_upd else l))
      ≡ is_recent now window (get_time l) || is_recent now window row.last_part_upd
later_recent now window row none h = refl
later_recent now window row (some none) h = recent_or (row.last_part_upd)
  where
    recent_or :
        (o : Option ℕ)
        → is_recent now window (get_time (if ltb 0 (or_zero o) then some o else some none))
          ≡ is_recent now window o
    recent_or none = refl
    recent_or (some b) = ground arith
later_recent now window row (some (some a)) h = recent_or (row.last_part_upd)
  where
    recent_or :
        (o : Option ℕ)
        → is_recent now window (get_time (if ltb a (or_zero o) then some o else some (some a)))
          ≡ is_recent now window (some a) || is_recent now window o
    recent_or none = ground arith
    recent_or (some b) = ground arith

max_works : (a b : ℕ) → ltb 0 (max_ℕ a b) ≡ ltb 0 a || ltb 0 b
max_works a b = ground arith

or_swap : (a b c e : Bool) → (a || b) || (c || e) ≡ (a || c) || (b || e)
or_swap true b c e = refl
or_swap false true true e = refl
or_swap false true false e = refl
or_swap false false c e = refl

or_assoc : (a b c : Bool) → (a || b) || c ≡ a || (b || c)
or_assoc true b c = refl
or_assoc false b c = refl

module _ {ℓ} {V : Type ℓ} (k d : String) (v : V) (m : Dict V) where
  insert_if_here :
      (c : Bool)
      → str_eq k d ≡ true
      → lookup d (if c then insert k v m else m) ≡ (if c then some v else lookup d m)
  insert_if_here true here = lookup-insert k d v m ∙ rw here refl
  insert_if_here false here = refl

  insert_if_away :
      (c : Bool) → str_eq k d ≡ false → lookup d (if c then insert k v m else m) ≡ lookup d m
  insert_if_away true away = lookup-insert k d v m ∙ rw away refl
  insert_if_away false away = refl

file_row-works :
    (now window : ℕ) (d : String) (row : Row) (t : Tally)
    → window ≤ now
    → works now window (lookup d (file_row row t).latest) (lookup d (file_row row t).active_tool)
      ≡ (if belongs d row
          then works now window (lookup d t.latest) (lookup d t.active_tool)
            || row_works now window row
          else works now window (lookup d t.latest) (lookup d t.active_tool))
unfolding file_row
file_row-works now window d row t h = elim (Bool-cases (belongs d row)) [
  | inl here ↦
      let same = (eq_iff (norm_dir row.directory) d).0 here in
      rw
        (
          insert_if_here (norm_dir row.directory) d row.last_part_upd t.latest
              (is_later row (lookup (norm_dir row.directory) t.latest)) here,
          insert_if_here (norm_dir row.directory) d
              (max_ℕ (or_zero (lookup (norm_dir row.directory) t.active_tool)) (or_zero row.active))
              t.active_tool true here,
          here,
          same,
          later_recent now window row (lookup d t.latest) h,
          max_works (or_zero (lookup d t.active_tool)) (or_zero row.active),
        )
        (or_swap (ltb 0 (or_zero (lookup d t.active_tool))) _ _ _)
  | inr away ↦
      rw
        (
          insert_if_away (norm_dir row.directory) d row.last_part_upd t.latest
              (is_later row (lookup (norm_dir row.directory) t.latest)) away,
          insert_if_away (norm_dir row.directory) d
              (max_ℕ (or_zero (lookup (norm_dir row.directory) t.active_tool)) (or_zero row.active))
              t.active_tool true away,
          away,
        )
        refl
]

filed_works :
    (now window : ℕ) (d : String) (rows : List Row) (t : Tally)
    → window ≤ now
    → works now window
        (lookup d (file_rows rows t).latest)
        (lookup d (file_rows rows t).active_tool)
      ≡ works now window (lookup d t.latest) (lookup d t.active_tool)
        || is_working now window d rows
unfolding file_rows is_working
filed_works now window d [] t h = ground arith
filed_works now window d (row ∷ rows) t h = elim (Bool-cases (belongs d row)) [
  | inl here ↦
      filed_works now window d rows (file_row row t) h
      ∙ rw (file_row-works now window d row t h, here)
          (or_assoc (works now window (lookup d t.latest) (lookup d t.active_tool)) _ _)
  | inr away ↦
      filed_works now window d rows (file_row row t) h
      ∙ rw (file_row-works now window d row t h, away) refl
]

decided :
    (now window : ℕ) (t : Tally) (d : String) (entries : Dict SessionState)
    → lookup d (decide_all now window t entries)
      ≡ map (decide now window (lookup d t.latest) (lookup d t.active_tool)) (lookup d entries)
unfolding decide_all lookup
decided now window t d [] = refl
decided now window t d ((e, st) ∷ entries) = elim (Bool-cases (str_eq e d)) [
  | inl here ↦ rw here (rw ((eq_iff e d).0 here) refl)
  | inr away ↦ rw away (decided now window t d entries)
]

-- If the clock is past the length of the window, a snapshot of the database has for every directory
-- the summary of its rows: none without a row, and else the pending requests of all its sessions in
-- order, the first session's id and title, and busy exactly if one of its sessions has a tool at
-- work or a recent part.
pub snapshot-summary :
    (now window : ℕ) (rows : List Row) (d : String)
    → window ≤ now
    → Returns
        (λ states. lookup d states ≡ summary now window d rows)
        (snapshot_by_directory true now window (ok rows))
unfolding snapshot_by_directory
snapshot-summary now window rows d h =
    decided now window (file_rows rows empty_tally) d (file_rows rows empty_tally).by_dir
    ∙ rw (filed_none d rows empty_tally (unfold lookup in refl)) (shown (first_row d rows))
  where
    shown :
        (o : Option Row)
        → map
            (decide now window
              (lookup d (file_rows rows empty_tally).latest)
              (lookup d (file_rows rows empty_tally).active_tool))
            (filed_new d rows o)
          ≡ summary_of now window d rows o
    shown none = refl
    shown (some row) = rw (filed_works now window d rows empty_tally h) (unfold lookup in refl)
