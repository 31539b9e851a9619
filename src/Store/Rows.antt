-- ===== src/Store/Rows.antt =====
-- SELECT and UPDATE by the primary key of the table of Runs.
use chaosagent.Base.{
  String, ◌≡◌, Bool, true, Option, none, some, List, [], ◌∷◌, ◌==◌, string_eq, if◌then◌else◌, arith,
  eq_iff,
}
use chaosagent.Store.Tables.{Run, Db}

unfoldable pub find_run : String → List Run → Option Run
find_run id [] = none
find_run id (r ∷ rest) = if r.run_id == id then some r else find_run id rest

unfoldable pub replace_run : Run → List Run → List Run
replace_run r [] = []
replace_run r (x ∷ rest) = if x.run_id == r.run_id then r ∷ rest else x ∷ replace_run r rest

-- UPDATE … WHERE run_id = id AND test RETURNING …; the key is unique, so one row is looked at.
abbrev pub update_found : (Run → Bool) → (Run → Run) → Db → Option Run → Option (Run × Db)
update_found test set db none = none
update_found test set db (some r) =
    if test r then some (set r, record db { runs = replace_run (set r) db.runs }) else none

unfoldable pub update_run : String → (Run → Bool) → (Run → Run) → Db → Option (Run × Db)
update_run id test set db = update_found test set db (find_run id db.runs)

pub find_run_id :
    (id : String) (rows : List Run) {r : Run} → find_run id rows ≡ some r → r.run_id ≡ id
unfolding find_run
find_run_id id [] h = ground arith
find_run_id id (x ∷ rest) {r} h = ground (arith, eq_iff x.run_id id, find_run_id id rest {r = r})

-- A row that is there is the only one that its replacement changes.
pub find-replace :
    (j : String) (r x : Run) (rows : List Run)
    → find_run r.run_id rows ≡ some x
    → find_run j (replace_run r rows) ≡ (if r.run_id == j then some r else find_run j rows)
unfolding find_run replace_run
find-replace j r x [] h = ground arith
find-replace j r x (y ∷ rest) h =
    ground (
      arith,
      eq_iff y.run_id r.run_id,
      eq_iff y.run_id j,
      eq_iff r.run_id j,
      find-replace j r x rest,
    )

-- A row is returned only by an UPDATE whose test the row passed, and it is the row as written.
pub update_run-eq-some :
    (id : String) (test : Run → Bool) (set : Run → Run) (db db' : Db) (r' : Run)
    → update_run id test set db ≡ some (r', db')
    → (r : Run) × (find_run id db.runs ≡ some r)
      × (test r ≡ true)
      × (r' ≡ set r)
      × (db' ≡ record db { runs = replace_run (set r) db.runs })
unfolding update_run
update_run-eq-some id test set db db' r' h = ground arith
