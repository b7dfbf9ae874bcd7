-- ===== src/Policy/Reports/Cached.antt =====
-- The cached report against the one that is computed on the fly.
use mini_internet_extention.Prelude.{
  ℕ, ◌≡◌, refl, ap, true, false, inl, inr, Option, none, some, List, [], Text, Result, ok, ◌>>=◌,
  Result-cases, arith,
}
use mini_internet_extention.Policy.Config.{Config, load_config}
use mini_internet_extention.Policy.LookingGlass.{LgError, Table, opened, load_looking_glass}
use mini_internet_extention.Policy.Log.{Entry, get_log, get_simple_as_log}
use mini_internet_extention.Policy.Analysis.{compute_results}
use mini_internet_extention.Policy.Reports.{
  Input, new_file, update_db, looking_glass_rows, analysis_result, load_analysis, load_report,
  analyze_bgp, bgp_report, prepare_bgp_analysis,
}

-- The three steps on an empty file, where the report is made of them.
module _ (input : Input) where
  abbrev loaded : Table × Result LgError (Unit {0})
  loaded = load_looking_glass input.looking_glass_data (opened [])

  -- Where a function on the entries can be computed in memory, the entries are in the file.
  update_db-entries :
      (c : Config) (table : Table) (entries : List Entry)
      → load_config input.as_data input.connection_data ≡ ok c
      → loaded ≡ (table, ok tt)
      → compute_results c table.rows ≡ ok entries
      → update_db input new_file
        ≡ (record { looking_glass = table.committed; logs = some entries }, ok tt)
  unfolding update_db
  update_db-entries c table entries e e' e'' = ground (arith, e, e', e'')

  -- If a report can be computed in memory, its entries are those that a worker leaves in a new file.
  update_db-report :
      (report : List Entry → List Text) (msgs : List Text)
      → (do
        c ← analysis_result (load_config input.as_data input.connection_data)
        rows ← looking_glass_rows loaded
        entries ← analysis_result (compute_results c rows)
        ok (report entries))
        ≡ ok msgs
      → (table : Table) × (entries : List Entry) × (update_db input new_file
          ≡ (record { looking_glass = table.committed; logs = some entries }, ok tt))
        × (report entries ≡ msgs)
  update_db-report report msgs h =
      elim (Result-cases (load_config input.as_data input.connection_data)) [
        | inr (x, e) ↦ absurd (ground (arith, e))
        | inl (c, e) ↦ elim (Result-cases loaded.1) [
          | inr (x, e') ↦ absurd (ground (arith, e, e'))
          | inl (u, e') ↦ elim (Result-cases (compute_results c loaded.0.rows)) [
            | inr (x, e'') ↦ absurd (ground (arith, e, e', e''))
            | inl (entries, e'') ↦ (
              loaded.0,
              entries,
              update_db-entries c loaded.0 entries e (ground (arith, e')) e'',
              ground (arith, e, e', e''),
            )
          ]
        ]
      ]

-- Where the report, or the analysis of one AS, can be computed on the fly without background
-- workers, a worker's first run succeeds, and with workers the page then shows the same messages
-- from the file.
pub prepare_bgp_analysis-cached :
    (input : Input) (asn : Option ℕ) (msgs : List Text)
    → (prepare_bgp_analysis false asn false input none).1 ≡ ok msgs
    → ((prepare_bgp_analysis true none true input none).1 ≡ ok [])
      × ((prepare_bgp_analysis true asn false input
            (prepare_bgp_analysis true none true input none).0).1
          ≡ ok msgs)
unfolding prepare_bgp_analysis bgp_report analyze_bgp load_report load_analysis
prepare_bgp_analysis-cached input none msgs h =
    let (table, entries, run, same) = update_db-report input get_log msgs h in
    (rw run refl, rw run (ap ok same))
prepare_bgp_analysis-cached input (some nr) msgs h =
    let (table, entries, run, same) =
      update_db-report input (λ es. get_simple_as_log es nr) msgs h in
    (rw run refl, rw run (ap ok same))
