-- ===== src/Orchestrator/Invariant.antt =====
-- What holds between the transactions of a run in agents/orchestrator.py, and that each of them
-- keeps it.
use competitor_scout.Prelude.{
  ℕ, ◌≡◌, refl, ap, Bool, true, false, not, ◌&&◌, ◌||◌, List, [], ◌∷◌, ◌++◌, Option, none, some,
  ◌==◌, if◌then◌else◌, is_some, arith, Bool-cases, inl, inr, ==_iff, Option-cases, Ends,
}
use mathlib.Core.Path.{subst}
use competitor_scout.Prelude.Tables.{update, find-update, find-append}
use competitor_scout.Prelude.Texts.{Text}
use competitor_scout.Json.{Value}
use competitor_scout.Paging.Tasks.{
  AgentTask, AgentTaskStatus, queued, running, cancelled, of_run, task_id_of,
}
use competitor_scout.Runs.{ScoutRun, get_run, put_run, run_id_of}
use competitor_scout.Orchestrator.Usage.{OtariMetadata}
use competitor_scout.Orchestrator.Store.{
  Store, get_task, put_task, mem_id, cancel_tasks, cancel_each, set_task_attempt, succeed_task,
  fail_task, UsageEvent, log_usage, with_error, task_cancelled_summary, attempted, finished,
  event_of, succeed_found, fail_found, failed_task,
}

abbrev pub is_open : AgentTaskStatus → Bool
is_open queued = true
is_open running = true
is_open _ = false

-- A task of the run that has not ended.
abbrev pub open_in : ℕ → AgentTask → Bool
open_in run t = of_run run t && is_open t.status

abbrev pub without : ℕ → (ℕ → Bool) → ℕ → Bool
without id P k = P k && not (id == k)

module _ (run : ℕ) where
  -- The run is there, the tasks `A` are there, and only tasks of `P` have not ended.
  pub record Good (A P : ℕ → Bool) (w : Store) : Type 0 where
    pub has_run : is_some (get_run run w.runs) ≡ true
    pub present : (k : ℕ) → A k ≡ true → is_some (get_task k w.tasks) ≡ true
    pub closed :
        (k : ℕ) (t : AgentTask) → get_task k w.tasks ≡ some t → open_in run t ≡ true → P k ≡ true

  pub Good-mono :
      (A P Q : ℕ → Bool) (w : Store) → ((k : ℕ) → P k ≡ true → Q k ≡ true) → Good A P w → Good A Q w
  Good-mono A P Q w sub g = record {
    has_run = g.has_run;
    present = g.present;
    closed = λ k t m o. sub k (g.closed k t m o);
  }

  pub Good-less :
      (A B P : ℕ → Bool) (w : Store) → ((k : ℕ) → B k ≡ true → A k ≡ true) → Good A P w → Good B P w
  Good-less A B P w sub g = record {
    has_run = g.has_run;
    present = λ k b. g.present k (sub k b);
    closed = g.closed;
  }

  pub Good-log :
      (A P : ℕ → Bool) (e : UsageEvent) (w : Store) → Good A P w → Good A P (log_usage e w)
  Good-log A P e w g = record { has_run = g.has_run; present = g.present; closed = g.closed }

  module _ (A P : ℕ → Bool) (id : ℕ) (f : AgentTask → AgentTask)
      (keeps : (t : AgentTask) → task_id_of (f t) ≡ task_id_of t) (w : Store) where
    put_present :
        Good A P w
        → (k : ℕ) → A k ≡ true
        → is_some (get_task k (update task_id_of id f w.tasks)) ≡ true
    put_present g k a = ground (arith, find-update task_id_of id k f keeps w.tasks, g.present k a)

    pub Good-put : P id ≡ true → Good A P w → Good A P (put_task id f w)
    Good-put p g = record {
      has_run = g.has_run;
      present = put_present g;
      closed = λ k t m o. elim (Bool-cases (id == k)) [
        | inl e ↦ subst (λ n. P n ≡ true) ((==_iff id k).0 e) p
        | inr e ↦ g.closed k t (ground (arith, find-update task_id_of id k f keeps w.tasks)) o
      ];
    }

    pub Good-close :
        ((t : AgentTask) → is_open (f t).status ≡ false)
        → Good A P w
        → Good A (without id P) (put_task id f w)
    Good-close closes g = record {
      has_run = g.has_run;
      present = put_present g;
      closed = λ k t m o. elim (Bool-cases (id == k)) [
        | inl e ↦ elim (Option-cases (get_task k w.tasks)) [
          | inl n ↦ ground (arith, find-update task_id_of id k f keeps w.tasks)
          | inr (s, n) ↦ ground (arith, find-update task_id_of id k f keeps w.tasks, closes s)
        ]
        | inr e ↦
            ground
              (arith, g.closed k t (ground (arith, find-update task_id_of id k f keeps w.tasks)) o)
      ];
    }

  module _ (A P : ℕ → Bool) (f : ScoutRun → ScoutRun)
      (keeps : (r : ScoutRun) → run_id_of (f r) ≡ run_id_of r) (w : Store) where
    pub Good-run : Good A P w → Good A P (record w { runs = put_run run f w.runs })
    Good-run g = record {
      has_run = ground (arith, find-update run_id_of run run f keeps w.runs, g.has_run);
      present = g.present;
      closed = g.closed;
    }

  -- A new row, of a task that may be open.
  pub Good-insert :
      (A P : ℕ → Bool) (row : AgentTask) (w : Store)
      → get_task row.id w.tasks ≡ none
      → Good A P w
      → Good
          (λ k. row.id == k || A k)
          (λ k. row.id == k || P k)
          (record w { tasks = w.tasks ++ row ∷ [] })
  Good-insert A P row w fresh g = record {
    has_run = g.has_run;
    present = λ k a. ground (arith, find-append task_id_of k w.tasks (row ∷ []), g.present k);
    closed = λ k t m o. elim (Option-cases (get_task k w.tasks)) [
      | inl n ↦ ground (arith, find-append task_id_of k w.tasks (row ∷ []))
      | inr (s, n) ↦ ground (arith, find-append task_id_of k w.tasks (row ∷ []), g.closed k t)
    ];
  }

  module _ (clock : Store → ℕ) where
    find-cancel :
        (now k : ℕ) (ids : List ℕ) (code : Text) (ts : List AgentTask)
        → get_task k (cancel_each clock now ids code ts) ≡ (
            if mem_id k ids
            then elim (get_task k ts) [
              | none ↦ none
              | some t ↦ some (with_error cancelled code task_cancelled_summary now t)
            ]
            else get_task k ts)
    find-cancel now k ids code [] = ground arith
    find-cancel now k ids code (t ∷ ts) = elim (Bool-cases (t.id == k)) [
      | inl e ↦ ground (arith, ap (λ n. mem_id n ids) ((==_iff t.id k).0 e))
      | inr e ↦ ground (arith, find-cancel now k ids code ts)
    ]

    pub Good-cancel :
        (A P Q : ℕ → Bool) (ids : List ℕ) (code : Text) (w : Store)
        → ((k : ℕ) → P k ≡ true → mem_id k ids ≡ false → Q k ≡ true)
        → Good A P w
        → Good A Q (cancel_tasks clock ids code w)
    unfolding cancel_tasks
    Good-cancel A P Q ids code w sub g = record {
      has_run = g.has_run;
      present = λ k a. ground (arith, find-cancel (clock w) k ids code w.tasks, g.present k a);
      closed = λ k t m o. elim (Bool-cases (mem_id k ids)) [
        | inl e ↦ elim (Option-cases (get_task k w.tasks)) [
          | inl n ↦ ground (arith, find-cancel (clock w) k ids code w.tasks)
          | inr (s, n) ↦ ground (arith, find-cancel (clock w) k ids code w.tasks)
        ]
        | inr e ↦
            sub k (g.closed k t (ground (arith, find-cancel (clock w) k ids code w.tasks)) o) e
      ];
    }

    pub Good-set :
        (A P : ℕ → Bool) (id attempt : ℕ) (w : Store)
        → A id ≡ true
        → P id ≡ true
        → Good A P w
        → Ends (Good A P) (set_task_attempt clock id attempt w)
    unfolding set_task_attempt
    Good-set A P id attempt w a p g =
        rw (g.present id a) (Good-put A P id (attempted attempt (clock w)) (λ t. refl) w p g)

    module _ (A P : ℕ → Bool) (user of id : ℕ) (unsettled : Bool) (w : Store) where
      succeed_found-Good :
          (metadata : OtariMetadata) (output : Value)
          → A id ≡ true
          → Good A P w
          → (o : Option AgentTask) → get_task id w.tasks ≡ o
          → Ends
              (Good A (without id P))
              (succeed_found clock user of id metadata output unsettled w o)
      succeed_found-Good metadata output a g none e = ground (arith, g.present id a)
      succeed_found-Good metadata output a g (some t) e =
          let done = finished metadata unsettled output (clock w) in
          Good-log A (without id P) (event_of user of metadata (clock w) t) (put_task id done w)
            (Good-close A P id done (λ t. refl) w (λ t. refl) g)

      pub Good-succeed :
          (metadata : OtariMetadata) (output : Value)
          → A id ≡ true
          → Good A P w
          → Ends (Good A (without id P)) (succeed_task clock user of id metadata output unsettled w)
      unfolding succeed_task
      Good-succeed metadata output a g =
          succeed_found-Good metadata output a g (get_task id w.tasks) refl

      fail_found-Good :
          (code summary : Text) (metadata : Option OtariMetadata)
          → Good A P w
          → (o : Option AgentTask) → get_task id w.tasks ≡ o
          → Good A (without id P) (fail_found clock user of id code metadata unsettled summary w o)
      fail_found-Good code summary metadata g none e = record {
        has_run = g.has_run;
        present = g.present;
        closed = λ k t m o. elim (Bool-cases (id == k)) [
          | inl h ↦ ground (arith, ap (λ n. get_task n w.tasks) ((==_iff id k).0 h))
          | inr h ↦ ground (arith, g.closed k t m o)
        ];
      }
      fail_found-Good code summary none g (some t) e =
          Good-close A P id (failed_task clock code none unsettled summary (clock w)) (λ t. refl) w
            (λ t. refl) g
      fail_found-Good code summary (some m) g (some t) e =
          let event = event_of user of m (clock w) t in
          Good-close A P id (failed_task clock code (some m) unsettled summary (clock w))
            (λ t. refl) (log_usage event w) (λ t. refl) (Good-log A P event w g)

      pub Good-fail :
          (code summary : Text) (metadata : Option OtariMetadata)
          → Good A P w
          → Good A (without id P) (fail_task clock user of id code metadata unsettled summary w)
      unfolding fail_task
      Good-fail code summary metadata g =
          fail_found-Good code summary metadata g (get_task id w.tasks) refl
