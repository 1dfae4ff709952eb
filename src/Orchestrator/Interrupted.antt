-- ===== src/Orchestrator/Interrupted.antt =====
-- How `_terminalize_interrupted_run` of agents/orchestrator.py leaves a run whose execution was
-- interrupted: no task of it is open, and its state is final.
use competitor_scout.Prelude.{
  ℕ, ◌≡◌, refl, true, false, not, List, [], ◌∷◌, some, arith, Bool-cases, inl, inr,
}
use competitor_scout.Prelude.Tables.{find-update}
use competitor_scout.Paging.Tasks.{AgentTask, AgentTaskStatus, of_run}
use competitor_scout.Runs.{
  is_queued, ScoutRun, ScoutRunStatus, queued, planning, gathering, synthesizing, completed,
  partial, failed, get_run, put_run, run_id_of, is_final,
}
use competitor_scout.Orchestrator.Store.{Store, get_task}
use competitor_scout.Orchestrator.Starting.{
  interrupt_tasks, interrupted_task, interrupted_run, terminalize_interrupted_run, is_interrupted,
}
use competitor_scout.Orchestrator.Invariant.{Good, open_in, is_open}
use competitor_scout.Orchestrator.Rounds.{Final}
use competitor_scout.Orchestrator.WaveEnds.{nothing}

-- A state is final, an interrupted one, or the first.
pub status_cases :
    (s : ScoutRunStatus) → is_interrupted s ≡ false → not (is_queued s) ≡ true → is_final s ≡ true
status_cases queued h k = cc
status_cases planning h k = cc
status_cases gathering h k = cc
status_cases synthesizing h k = cc
status_cases completed h k = refl
status_cases partial h k = refl
status_cases failed h k = refl

interrupted_run-final : (now : ℕ) (r : ScoutRun) → is_final (interrupted_run now r).status ≡ true
interrupted_run-final now r = go r.status
  where
    go :
        (s : ScoutRunStatus)
        → is_final (interrupted_run now (record r { status = s })).status ≡ true
    go queued = refl
    go planning = refl
    go gathering = refl
    go synthesizing = refl
    go completed = refl
    go partial = refl
    go failed = refl

interrupted_task-closed :
    (now : ℕ) (t : AgentTask) → is_open (interrupted_task now t).status ≡ false
interrupted_task-closed now t = go t.status
  where
    go :
        (s : AgentTaskStatus)
        → is_open (interrupted_task now (record t { status = s })).status ≡ false
    go AgentTaskStatus.queued = refl
    go AgentTaskStatus.running = refl
    go AgentTaskStatus.succeeded = refl
    go AgentTaskStatus.failed = refl
    go AgentTaskStatus.cancelled = refl

interrupted_task-key :
    (now : ℕ) (t : AgentTask)
    → ((interrupted_task now t).id ≡ t.id)
      × ((interrupted_task now t).scout_run_id ≡ t.scout_run_id)
interrupted_task-key now t = go t.status
  where
    go :
        (s : AgentTaskStatus)
        → ((interrupted_task now (record t { status = s })).id ≡ t.id)
          × ((interrupted_task now (record t { status = s })).scout_run_id ≡ t.scout_run_id)
    go AgentTaskStatus.queued = (refl, refl)
    go AgentTaskStatus.running = (refl, refl)
    go AgentTaskStatus.succeeded = (refl, refl)
    go AgentTaskStatus.failed = (refl, refl)
    go AgentTaskStatus.cancelled = (refl, refl)

interrupt_tasks-closed :
    (run now k : ℕ) (ts : List AgentTask) (t : AgentTask)
    → get_task k (interrupt_tasks run now ts) ≡ some t
    → open_in run t ≡ true
    → nothing k ≡ true
interrupt_tasks-closed run now k [] t m o = ground arith
interrupt_tasks-closed run now k (t' ∷ ts) t m o = elim (Bool-cases (of_run run t')) [
  | inl e ↦ ground (
    arith,
    interrupted_task-key now t',
    interrupted_task-closed now t',
    interrupt_tasks-closed run now k ts t,
  )
  | inr e ↦ ground (arith, interrupt_tasks-closed run now k ts t)
]

interrupted_run-key : (now : ℕ) (r : ScoutRun) → run_id_of (interrupted_run now r) ≡ run_id_of r
interrupted_run-key now r = go r.status
  where
    go : (s : ScoutRunStatus) → (interrupted_run now (record r { status = s })).id ≡ r.id
    go queued = refl
    go planning = refl
    go gathering = refl
    go synthesizing = refl
    go completed = refl
    go partial = refl
    go failed = refl

pub terminalize-Ends :
    (run now : ℕ) (r : ScoutRun) (w : Store)
    → get_run run w.runs ≡ some r
    → Good run nothing nothing (terminalize_interrupted_run run now w)
      × Final run (terminalize_interrupted_run run now w)
unfolding terminalize_interrupted_run
terminalize-Ends run now r w m =
    let f = interrupted_run now in
    let found : get_run run (put_run run f w.runs) ≡ some (f r) =
      ground (arith, find-update run_id_of run run f (interrupted_run-key now) w.runs) in
    (
      record {
        has_run = ground arith;
        present = λ k a. cc;
        closed = λ k t. interrupt_tasks-closed run now k w.tasks t;
      },
      (f r, found, interrupted_run-final now r),
    )
