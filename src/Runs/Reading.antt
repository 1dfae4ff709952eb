-- ===== src/Runs/Reading.antt =====
-- The reads of runs of services/runs.py: `run_read`, `list_runs`, `run_summary` and `owned_run`. Of a
-- finding they read the two columns of `FindingOrigin`.
use competitor_scout.Prelude.{
  ℕ, Bool, true, false, ◌&&◌, List, [], ◌∷◌, Option, none, some, ◌==◌, if◌then◌else◌, Result,
  select, count,
}
use competitor_scout.Prelude.Texts.{Text, str, text_eq}
use competitor_scout.Competitors.{Competitor, get_competitor}
use competitor_scout.Paging.{Place, before, CursorLib, CursorError, Page, list_page}
use competitor_scout.Paging.Shown.{read_page}
use competitor_scout.Runs.{
  RunType, ScoutRun, ScoutRunStatus, queued, planning, gathering, synthesizing, completed, partial,
  failed, get_run,
}
use competitor_scout.Runs.Manual.{has_competitor, same_type}
use competitor_scout.Runs.Output.{is_safe_code}

pub record FindingOrigin : Type 0 where
  pub user_id : ℕ
  pub originating_scout_run_id : ℕ

pub record RunRead : Type 0 where
  pub id : ℕ
  pub competitor_id : Option ℕ
  pub competitor_name : Option Text
  pub finding_count : ℕ
  pub run_type : RunType
  pub status : ScoutRunStatus
  pub scheduled_for : ℕ
  pub started_at : Option ℕ
  pub completed_at : Option ℕ
  pub failure_code : Option Text
  pub failure_summary : Option Text
  pub partial_reasons : List Text
  pub partial_summaries : List Text
  pub input_tokens : ℕ
  pub output_tokens : ℕ
  pub tool_calls : Option ℕ
  pub settled_cost_usd : Option ℕ
  pub created_at : ℕ

unfoldable pub run_summaries : List (Text × Text)
run_summaries =
    (str "competitor_inactive", str "Competitor monitoring is not active.")
    ∷ (str "daily_cost_limit", str "The daily usage limit was reached.")
    ∷ (str "main_input_token_limit", str "The scan input exceeded its configured limit.")
    ∷ (str "no_valid_evidence", str "No valid evidence was available for this scan.")
    ∷ (str "otari_budget_exceeded", str "The configured Otari budget was reached.")
    ∷ (str "otari_tool_iteration_limit", str "Source discovery exhausted its web search budget.")
    ∷ (str "planning_timeout", str "Scan planning timed out.")
    ∷ (str "publication_failed", str "Validated updates could not be published.")
    ∷ (str "run_cost_limit", str "The scan usage limit was reached.")
    ∷ (str "synthesis_timeout", str "Update synthesis timed out.")
    ∷ []

unfoldable pub partial_summary_of : List (Text × Text)
partial_summary_of =
    (str "child_task_failed", str "Some research tasks could not complete.")
    ∷ (str "cost_ceiling_reached", str "The scan stopped before exceeding a usage limit.")
    ∷ (str "insufficient_sources", str "No usable sources were discovered.")
    ∷ (
      str "otari_budget_exceeded",
      str "The scan stopped after reaching the configured Otari budget.",
    )
    ∷ (str "run_cost_limit", str "The scan usage limit was reached.")
    ∷ []

-- `summaries.get(code)`.
abbrev pub summary_of : List (Text × Text) → Text → Option Text
summary_of [] code = none
summary_of ((c, summary) ∷ more) code =
    let rest = summary_of more code in if text_eq c code then some summary else rest

-- `_safe_code` of a text or None.
abbrev pub safe_code : Option Text → Option Text
safe_code none = none
safe_code (some code) = if is_safe_code code then some code else none

-- `summaries.get(_safe_code(code) or "")`.
abbrev pub safe_summary : List (Text × Text) → Option Text → Option Text
safe_summary summaries code = elim (safe_code code) [
  | none ↦ summary_of summaries []
  | some c ↦ summary_of summaries c
]

abbrev pub summaries_of : List Text → List Text
summaries_of [] = []
summaries_of (code ∷ codes) = elim (summary_of partial_summary_of code) [
  | none ↦ summaries_of codes
  | some summary ↦ summary ∷ summaries_of codes
]

unfoldable pub run_read : Option Text → ℕ → ScoutRun → RunRead
run_read competitor_name finding_count r =
    let reasons = select is_safe_code r.partial_reasons in
    record {
      id = r.id;
      competitor_id = r.competitor_id;
      competitor_name = competitor_name;
      finding_count = finding_count;
      run_type = r.run_type;
      status = r.status;
      scheduled_for = r.scheduled_for;
      started_at = r.started_at;
      completed_at = r.completed_at;
      failure_code = safe_code r.failure_code;
      failure_summary = safe_summary run_summaries r.failure_code;
      partial_reasons = reasons;
      partial_summaries = summaries_of reasons;
      input_tokens = r.input_tokens;
      output_tokens = r.output_tokens;
      tool_calls = r.tool_calls;
      settled_cost_usd = r.settled_cost_usd;
      created_at = r.created_at;
    }

abbrev pub same_status : ScoutRunStatus → ScoutRunStatus → Bool
same_status queued queued = true
same_status planning planning = true
same_status gathering gathering = true
same_status synthesizing synthesizing = true
same_status completed completed = true
same_status partial partial = true
same_status failed failed = true
same_status _ _ = false

-- A condition of the WHERE clause that is left out without a value.
abbrev pub unless_none {ℓ} : {A : Type ℓ} → (A → Bool) → Option A → Bool
unless_none test none = true
unless_none test (some a) = test a

-- The filters of a listing.
pub record Filters : Type 0 where
  pub competitor_id : Option ℕ
  pub status : Option ScoutRunStatus
  pub run_type : Option RunType

abbrev pub listed : ℕ → Filters → ScoutRun → Bool
listed user filters r =
    r.user_id == user
    && unless_none (has_competitor r.competitor_id) filters.competitor_id
    && unless_none (same_status r.status) filters.status
    && unless_none (same_type r.run_type) filters.run_type

abbrev pub place_of_run : ScoutRun → Place
place_of_run r = (r.created_at, r.id)

-- The tables that the reads join.
pub record Joined : Type 0 where
  pub runs : List ScoutRun
  pub competitors : List Competitor
  pub findings : List FindingOrigin

-- The name in the outer join with the competitors of the user.
abbrev pub own_name : ℕ → Option Competitor → Option Text
own_name user none = none
own_name user (some c) = if c.user_id == user then some c.name else none

abbrev pub competitor_name_of : ℕ → Option ℕ → List Competitor → Option Text
competitor_name_of user none competitors = none
competitor_name_of user (some c) competitors = own_name user (get_competitor c competitors)

abbrev pub found_by : ℕ → ℕ → FindingOrigin → Bool
found_by user run f = f.user_id == user && f.originating_scout_run_id == run

-- A row of the join as it is shown.
abbrev pub joined_read : ℕ → Joined → ScoutRun → RunRead
joined_read user db r =
    run_read (competitor_name_of user r.competitor_id db.competitors)
      (count (found_by user r.id) db.findings) r

unfoldable pub list_runs :
    CursorLib → ℕ → ℕ → Option Text → Filters → Joined → Result CursorError (Page RunRead)
list_runs lib user limit cursor filters db =
    read_page (joined_read user db)
      (list_page before place_of_run lib limit cursor (select (listed user filters) db.runs))

abbrev pub if_owned : ℕ → Option ScoutRun → Option ScoutRun
if_owned user none = none
if_owned user (some r) = if r.user_id == user then some r else none

unfoldable pub owned_run : ℕ → ℕ → List ScoutRun → Option ScoutRun
owned_run user id runs = if_owned user (get_run id runs)

unfoldable pub run_summary : ℕ → ℕ → Joined → Option RunRead
unfolding owned_run
run_summary user id db = elim (owned_run user id db.runs) [
  | none ↦ none
  | some r ↦ some (joined_read user db r)
]
