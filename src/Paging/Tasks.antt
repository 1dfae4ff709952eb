-- ===== src/Paging/Tasks.antt =====
-- `list_run_tasks` of services/runs.py, on the tasks of models/intelligence.py. What `task_read` shows
-- of a task is an argument. Costs are millionths of a dollar, as the column keeps them.
use competitor_scout.Prelude.{
  ℕ, suc, ◌≡◌, Bool, List, Option, none, some, ◌==◌, Result, select, length, map, ap, ◌∙◌,
}
use competitor_scout.Prelude.Tables.{Unique}
use competitor_scout.Prelude.Texts.{Text}
use competitor_scout.Json.{Value}
use competitor_scout.Paging.Shown.{read_page, read_pages-map}
use competitor_scout.Paging.Order.{after-IsStrict}
use competitor_scout.Paging.{
  Place, after, CursorLib, CursorError, Page, list_page, read_pages, order_by,
}
use competitor_scout.Paging.Complete.{read_pages_all}
use competitor_scout.Paging.Listings.{select-Unique, Unique-Apart}

pub data AgentTaskRole : Type 0 where
  main_planner child_researcher main_synthesizer : AgentTaskRole

pub data AgentTaskStatus : Type 0 where
  queued running succeeded failed cancelled : AgentTaskStatus

pub record AgentTask : Type 0 where
  pub id : ℕ
  pub scout_run_id : ℕ
  pub parent_task_id : Option ℕ
  pub role : AgentTaskRole
  pub task_kind : Text
  pub status : AgentTaskStatus
  pub model : Text
  pub objective : Text
  pub source_scope : List Value
  pub attempt_count : ℕ
  pub started_at : Option ℕ
  pub completed_at : Option ℕ
  pub otari_request_id : Option Text
  pub input_tokens : ℕ
  pub output_tokens : ℕ
  pub tool_calls : Option ℕ
  pub settled_cost_usd : Option ℕ
  pub pricing_source : Option Text
  pub validated_output : Option Value
  pub error_code : Option Text
  pub error_summary : Option Text
  pub created_at : ℕ

abbrev pub task_id_of : AgentTask → ℕ
task_id_of t = t.id

abbrev pub place_of_task : AgentTask → Place
place_of_task t = (t.created_at, t.id)

abbrev pub of_run : ℕ → AgentTask → Bool
of_run run t = t.scout_run_id == run

module _ {TaskRead : Type 0} (task_read : AgentTask → TaskRead) where
  unfoldable pub list_run_tasks :
      CursorLib → ℕ → ℕ → Option Text → List AgentTask → Result CursorError (Page TaskRead)
  list_run_tasks lib run limit cursor tasks =
      read_page task_read
        (list_page after place_of_task lib limit cursor (select (of_run run) tasks))

  pub tasks_complete :
      (lib : CursorLib)
      → ((p : Place) → lib.decode_cursor (lib.encode_cursor p) ≡ some p)
      → (limit run : ℕ) (tasks : List AgentTask) → Unique task_id_of tasks
      → read_pages
          (λ cursor. list_run_tasks lib run (suc limit) cursor tasks)
          (suc (length (select (of_run run) tasks)))
          none
        ≡ map task_read (order_by after place_of_task (select (of_run run) tasks))
  unfolding list_run_tasks
  tasks_complete lib reads limit run tasks u =
      let rows = select (of_run run) tasks in
      read_pages-map task_read (λ cursor. list_page after place_of_task lib (suc limit) cursor rows)
        (suc (length rows)) none
      ∙ ap (map task_read) (
          read_pages_all after after-IsStrict place_of_task lib reads limit rows (
            Unique-Apart task_id_of (λ t. t.created_at) rows
              (select-Unique task_id_of (λ t. t.created_at) (of_run run) tasks u)))
