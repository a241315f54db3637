-- ===== src/Enable/Jobs.antt =====
-- jobs/forward-enable.handler.ts: the job of a vault on the tables that the requests write.
use etf.Base.{String, Option, none, some, List, [], ◌∷◌, ◌++◌, if◌then◌else◌}
use etf.Base.Text.{str_eq}
use etf.Base.Table.{find, upsert}
use etf.Enable.Handler.{Event, EnableServices, enable_run}
use etf.Enable.Request.{EnableRequest, ConfigRow, EnableStore, AuthServices, enable}

abbrev pub with_config : EnableServices → ConfigRow → ConfigRow
with_config svc row = record row { config = (enable_run svc row.config).row }

abbrev pub run_on :
    EnableServices → String → EnableStore → Option ConfigRow → EnableStore × List Event
run_on svc vault s none = (s, [])
run_on svc vault s (some row) = (
  record s { rows = upsert str_eq vault (with_config svc row) (λ r. with_config svc row) s.rows },
  (enable_run svc row.config).log,
)

-- `run`: the tables afterwards, and what was done on the chain; without a row nothing is done.
unfoldable pub run_job : EnableServices → String → EnableStore → EnableStore × List Event
run_job svc vault s = run_on svc vault s (find str_eq s.rows vault)

-- What happens to the tables: a request is handled, or a job runs.
pub data Step : Type 0 where
  request : AuthServices → EnableRequest → Step
  job : EnableServices → String → Step

abbrev pub heard : String → String → List Event → List Event → List Event
heard vault k log rest = if str_eq k vault then log ++ rest else rest

-- Steps one after another: the tables at the end, and what the jobs of a vault did on the chain.
unfoldable pub run_steps : String → List Step → EnableStore → EnableStore × List Event
unfolding run_job
run_steps vault [] s = (s, [])
run_steps vault (request svc r ∷ steps) s = run_steps vault steps (enable svc s r).0
run_steps vault (job svc k ∷ steps) s =
    let now = run_job svc k s in
    let later = run_steps vault steps now.0 in (later.0, heard vault k now.1 later.1)
