-- ===== src/Agents/Store.antt =====
-- The tables of the agent queue, `AgentRunModel`, `AgentJobModel` and `AgentEventModel` of
-- backend/app/models.py, with transactions on them.
use code_explorer.Base.{
  ℕ, suc, String, Bool, Option, none, some, List, [], ◌∷◌, ◌++◌, leb, if◌then◌else◌,
}
use code_explorer.Execution.Result.{returned, raised, fault}
use code_explorer.Execution.Exec.{Action}

pub record Run : Type 0 where
  pub id : String
  pub project_id : String
  pub user_id : String
  pub question : String
  pub status : String
  pub use_model : Bool
  pub max_steps : ℕ
  pub provider : Option String
  pub model : Option String
  pub answer : Option String
  pub error : Option String
  pub created_at : ℕ
  pub updated_at : ℕ

pub record Job : Type 0 where
  pub run_id : String
  pub strategy : String
  pub worker_id : Option String
  pub cancel_requested : Bool
  pub attempts : ℕ
  pub created_at : ℕ
  pub updated_at : ℕ

-- A value of the JSON column `payload`: those that the store writes, and any other one.
pub data Value (J : Type 0) : Type 0 where
  text : String → Value J
  flag : Bool → Value J
  json : J → Value J

pub record Event (J : Type 0) : Type 0 where
  pub sequence : ℕ
  pub run_id : String
  pub event_type : String
  pub payload : List (String × Value J)
  pub created_at : ℕ

-- `tick` counts the questions put to the environment.
pub record Db (J : Type 0) : Type 0 where
  pub runs : List Run
  pub jobs : List Job
  pub events : List (Event J)
  pub tick : ℕ

pub record Env : Type 0 where
  -- `datetime.now(timezone.utc)`
  pub time : ℕ → ℕ
  -- whether the commit goes through
  pub commits : ℕ → Bool
  -- `ORDER BY created_at ASC LIMIT 1`
  pub oldest : List Run → Option Run
  -- the key of a new event, from the keys that are there
  pub next_key : List ℕ → ℕ

-- `.filter(...).update(...)`
abbrev pub update_rows : {A : Type 0} → (A → Bool) → (A → A) → List A → List A
update_rows p f [] = []
update_rows p f (a ∷ rows) = (if p a then f a else a) ∷ update_rows p f rows

-- `.filter(...).first()`
abbrev pub first_row : {A : Type 0} → (A → Bool) → List A → Option A
first_row p [] = none
first_row p (a ∷ rows) = let rest = first_row p rows in if p a then some a else rest

-- `.order_by(sequence)`
abbrev pub insert_event : {J : Type 0} → Event J → List (Event J) → List (Event J)
insert_event e [] = e ∷ []
insert_event e (f ∷ es) =
    let rest = insert_event e es in if leb e.sequence f.sequence then e ∷ f ∷ es else f ∷ rest

abbrev pub in_order : {J : Type 0} → List (Event J) → List (Event J)
in_order [] = []
in_order (e ∷ es) = insert_event e (in_order es)

abbrev pub sequences : {J : Type 0} → List (Event J) → List ℕ
sequences [] = []
sequences (e ∷ es) = e.sequence ∷ sequences es

module _ {J : Type 0} (env : Env) where
  unfoldable pub now : Action (Db J) ℕ
  now db = (returned (env.time db.tick), record db { tick = suc db.tick })

  -- One transaction: all of a change to runs and jobs, or a raise and nothing.
  unfoldable pub commit : (List Run → List Run) → (List Job → List Job) → Action (Db J) Unit
  commit f g db =
      if env.commits db.tick
      then (returned tt, record db { runs = f db.runs; jobs = g db.jobs; tick = suc db.tick })
      else (raised fault, record db { tick = suc db.tick })

  abbrev pub event_row : String → String → List (String × Value J) → ℕ → Db J → Event J
  event_row run_id event_type payload created db = record {
    sequence = env.next_key (sequences db.events);
    run_id = run_id;
    event_type = event_type;
    payload = payload;
    created_at = created;
  }

  -- One transaction that appends an event under a new key, which is its sequence number.
  unfoldable pub append_event :
      String → String → List (String × Value J) → ℕ → Action (Db J) (Event J)
  append_event run_id event_type payload created db =
      let row = event_row run_id event_type payload created db in
      if env.commits db.tick
      then (returned row, record db { events = db.events ++ row ∷ []; tick = suc db.tick })
      else (raised fault, record db { tick = suc db.tick })
