-- ===== src/Policy/Reports.antt =====
-- `analyze_bgp`, `bgp_report` and the functions on the database file of bgp_policy_analyzer.py, and
-- `prepare_bgp_analysis` of app.py, which chooses between them.
pub mod Cached
pub mod Tests
use mini_internet_extention.Prelude.{
  ℕ, String, Bool, true, false, not, ◌&&◌, Option, none, some, List, [], ◌∷◌, if◌then◌else◌, Text,
  Result, ok, err, ◌>>=◌,
}
use mini_internet_extention.Policy.Config.{Error, Config, Side, load_config}
use mini_internet_extention.Policy.LookingGlass.{
  LgError, Lg, Row, Table, opened, load_looking_glass,
}
use mini_internet_extention.Policy.Log.{Entry, get_log, get_simple_as_log}
use mini_internet_extention.Policy.Analysis.{compute_results}

-- What the parsers return.
pub record Input : Type 0 where
  pub as_data : List (ℕ × String)
  pub connection_data : List (Side × Side)
  pub looking_glass_data : List (ℕ × List (String × Lg))

pub data Failure : Type 0 where
  in_analysis : Error → Failure
  in_looking_glass : LgError → Failure

-- The tables of a database file that outlive a run; there is no table `logs` before the first.
pub record File : Type 0 where
  pub looking_glass : List Row
  pub logs : Option (List Entry)

abbrev pub new_file : File
new_file = record { looking_glass = []; logs = none }

-- load_config, load_looking_glass and compute_results, one after the other. Each commits at its
-- end; compute_results makes its table anew before it starts.
pub update_db : Input → File → File × Result Failure (Unit {0})
update_db input file = elim (load_config input.as_data input.connection_data) [
  | err e ↦ (file, err (in_analysis e))
  | ok c ↦
      let loaded : Table × Result LgError (Unit {0}) =
        load_looking_glass input.looking_glass_data (opened file.looking_glass) in
      elim loaded.1 [
        | err e ↦ (record file { looking_glass = loaded.0.committed }, err (in_looking_glass e))
        | ok _ ↦ elim (compute_results c loaded.0.rows) [
          | err e ↦
              (record { looking_glass = loaded.0.committed; logs = some [] }, err (in_analysis e))
          | ok entries ↦ (record { looking_glass = loaded.0.committed; logs = some entries }, ok tt)
        ]
      ]
]

-- A file without the table is a DatabaseError, which gives an empty list.
pub load_analysis : File → ℕ → List Text
load_analysis file asn = elim file.logs [ none ↦ [] | some es ↦ get_simple_as_log es asn ]

pub load_report : File → List Text
load_report file = elim file.logs [ none ↦ [] | some es ↦ get_log es ]

-- The result of a call in a try block without an except.
abbrev pub looking_glass_rows : Table × Result LgError (Unit {0}) → Result Failure (List Row)
looking_glass_rows (table, err e) = err (in_looking_glass e)
looking_glass_rows (table, ok _) = ok table.rows

abbrev pub analysis_result : {A : Type 0} → Result Error A → Result Failure A
analysis_result (ok a) = ok a
analysis_result (err e) = err (in_analysis e)

-- On a database in memory, in which there is nothing before.
pub analyze_bgp : ℕ → Input → Result Failure (List Text)
analyze_bgp asn input = do
  c ← analysis_result (load_config input.as_data input.connection_data)
  rows ← looking_glass_rows (load_looking_glass input.looking_glass_data (opened []))
  entries ← analysis_result (compute_results c rows)
  ok (get_simple_as_log entries asn)

pub bgp_report : Input → Result Failure (List Text)
bgp_report input = do
  c ← analysis_result (load_config input.as_data input.connection_data)
  rows ← looking_glass_rows (load_looking_glass input.looking_glass_data (opened []))
  entries ← analysis_result (compute_results c rows)
  ok (get_log entries)

-- The file, if there is one, and the messages for the page; a worker has none.
pub prepare_bgp_analysis :
    Bool → Option ℕ → Bool → Input → Option File → Option File × Result Failure (List Text)
prepare_bgp_analysis background_workers asn worker input db_file =
    if background_workers && not worker
    then (
      db_file,
      ok (elim db_file [
        | none ↦ []
        | some file ↦ elim asn [ none ↦ load_report file | some nr ↦ load_analysis file nr ]
      ]),
    )
    else if background_workers && worker
    then worked (update_db input (elim db_file [ none ↦ new_file | some file ↦ file ]))
    else (db_file, elim asn [ none ↦ bgp_report input | some nr ↦ analyze_bgp nr input ])
  where
    worked : File × Result Failure (Unit {0}) → Option File × Result Failure (List Text)
    worked (file, r) = (some file, r >>= λ _. ok [])
