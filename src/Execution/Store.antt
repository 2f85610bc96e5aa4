-- ===== src/Execution/Store.antt =====
-- The two tables of the execution queue, `ExecutionTaskModel` and `ExecutionEventModel` of
-- backend/app/models.py, and what a repository method meets in its environment: the clock, the
-- outcome of each commit, and the choices that SQLite makes.
use code_explorer.Base.{
  ℕ, suc, ◌≤◌, String, Bool, Option, none, some, List, [], ◌∷◌, ◌++◌, ◌≡◌, In, All, if◌then◌else◌,
}
use code_explorer.Base.Int.{ℤ}
use code_explorer.Execution.Result.{returned, raised, fault}
use code_explorer.Execution.Exec.{Action}
use code_explorer.Execution.Contracts.{Kind, Status}

-- The column `status`: one of the known texts, or any other.
pub data StatusText : Type 0 where
  known : Status → StatusText
  other : String → StatusText

pub record Task : Type 0 where
  pub id : String
  pub project_id : String
  pub user_id : String
  pub kind : String
  pub image : String
  pub argv : List String
  pub scan_profile : Option String
  pub status : StatusText
  pub timeout_seconds : ℕ
  pub cpu_limit : String
  pub memory_mb : ℕ
  pub pids_limit : ℕ
  pub worker_id : Option String
  pub exit_code : Option ℤ
  pub error : Option String
  pub output_truncated : Bool
  pub created_at : ℕ
  pub updated_at : ℕ
  pub started_at : Option ℕ
  pub finished_at : Option ℕ

-- The JSON column `payload`, by the shapes that the code writes. The constant keys `network` and
-- `workspace` of a queued task and `recovered` of a recovered one are left out.
pub data Payload (F : Type 0) : Type 0 where
  nothing : Payload F
  enqueued : Kind → String → ℕ → ℕ → F → ℕ → ℕ → Payload F
  started_by : String → Payload F
  recovered : String → Payload F
  outcome : Option ℤ → Option String → Bool → Payload F
  text : String → Payload F

pub record Event (F : Type 0) : Type 0 where
  pub sequence : ℕ
  pub task_id : String
  pub event_type : String
  pub payload : Payload F
  pub created_at : ℕ

-- `tick` counts the questions put to the environment.
pub record Db (F : Type 0) : Type 0 where
  pub tasks : List Task
  pub events : List (Event F)
  pub tick : ℕ

pub record Env : Type 0 where
  -- `datetime.now(timezone.utc)`
  pub time : ℕ → ℕ
  -- whether the commit goes through
  pub commits : ℕ → Bool
  -- `ORDER BY created_at ASC LIMIT 1`
  pub oldest : List Task → Option Task
  -- `ORDER BY created_at DESC`
  pub newest_first : List Task → List Task
  -- the key of a new row, from the keys that are there
  pub next_key : List ℕ → ℕ

-- What SQLite documents of the last three.
pub record IsSqlite (env : Env) : Type 0 where
  pub oldest_in : (ts : List Task) (t : Task) → env.oldest ts ≡ some t → In t ts
  pub oldest_first :
      (ts : List Task) (t : Task)
      → env.oldest ts ≡ some t
      → All (λ u. t.created_at ≤ u.created_at) ts
  pub oldest_none : (ts : List Task) → env.oldest ts ≡ none → ts ≡ []
  pub next_key_above : (ks : List ℕ) → All (λ k. suc k ≤ env.next_key ks) ks

-- `UPDATE ... WHERE`
abbrev pub update_where : (Task → Bool) → (Task → Task) → List Task → List Task
update_where p f [] = []
update_where p f (t ∷ ts) = (if p t then f t else t) ∷ update_where p f ts

-- `.filter(...).first()`
abbrev pub first : (Task → Bool) → List Task → Option Task
first p [] = none
first p (t ∷ ts) = let rest = first p ts in if p t then some t else rest

abbrev pub sequences : {F : Type 0} → List (Event F) → List ℕ
sequences [] = []
sequences (e ∷ es) = e.sequence ∷ sequences es

module _ {F : Type 0} (env : Env) where
  unfoldable pub now : Action (Db F) ℕ
  now db = (returned (env.time db.tick), record db { tick = suc db.tick })

  -- One transaction on the table of tasks: all of it, or a raise and nothing.
  unfoldable pub commit : (List Task → List Task) → Action (Db F) Unit
  commit f db =
      if env.commits db.tick
      then (returned tt, record db { tasks = f db.tasks; tick = suc db.tick })
      else (raised fault, record db { tick = suc db.tick })

  abbrev pub event_row : String → String → Payload F → ℕ → Db F → Event F
  event_row task_id event_type payload created db = record {
    sequence = env.next_key (sequences db.events);
    task_id = task_id;
    event_type = event_type;
    payload = payload;
    created_at = created;
  }

  -- One transaction that appends an event under a new key.
  unfoldable pub append_event : String → String → Payload F → ℕ → Action (Db F) (Event F)
  append_event task_id event_type payload created db =
      let row = event_row task_id event_type payload created db in
      if env.commits db.tick
      then (returned row, record db { events = db.events ++ row ∷ []; tick = suc db.tick })
      else (raised fault, record db { tick = suc db.tick })
