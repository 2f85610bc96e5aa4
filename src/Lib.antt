-- ===== src/Lib.antt =====
-- Code Explorer: a backend that imports code projects, analyses them statically, runs an agent over
-- the evidence, and executes isolated container tasks. The development models parts of the Python
-- backend under backend/app, as far as their own logic goes.
--
-- `Base` holds the shared names and lemmas.
--
-- `Execution` models backend/app/execution, the queue of container tasks. A web request goes through
-- `ExecutionService.submit` (execution/service.py), which checks ownership and quota, resolves the
-- request to a plan by `ExecutionPolicy.resolve` (execution/policy.py) and enqueues a row by
-- `ExecutionRepository.create` (execution/repository.py). A worker process (execution/worker.py)
-- claims the oldest queued row, rebuilds the plan, checks it again by `validate_plan`, runs the
-- container and writes the end of the task by `finish`; users may cancel in between, and
-- `recover_stale` ends tasks whose worker has gone quiet.
--   Contracts: contracts.py (requests, plans, views, states).
--   Policy, Policy.Argv: policy.py. Policy.Argv.Images, Conforms, Revalidation, Resolution and
--     Requests describe what it accepts, and which plan it makes of a request.
--   Store: the tables `ExecutionTaskModel` and `ExecutionEventModel` of models.py as lists of rows,
--     and the environment `Env`: the clock, whether each commit goes through, and the choices that
--     SQLite makes. `IsSqlite` states what SQLite documents of those.
--   Repository: repository.py, one function for each method, as actions on the two tables that may
--     raise. A method is split where another session may come between its transactions:
--     `claim_candidate` is `claim_next` from its UPDATE on.
--   Repository.Effects, Rows, Life, Calls: the effect of each method on the table, the life cycle of a
--     row, and any sequence of calls. Claim, Order, Ends: claims and ends of tasks. Log, Log.Resume: the
--     events, while no project is deleted: that removes the events of its tasks.
--   Service, Service.Sizes, Service.Quota: service.py. The count of open tasks and the insertion of a
--     new one are separate sessions; `submit` takes what other sessions call in between.
--   Worker, Worker.Ends, Worker.Plans: worker.py; the container
--     run is a tree of the callbacks that the executor makes, by what they return.
--   Docker, Docker.Output: the output limit of `DockerExecutor.execute` (docker_executor.py), on
--     chunks of bytes; their decoding is left out.
--   Samples and Tests: concrete data and runs.
--
-- `Agents` models parts of backend/app/agents.
--   Store, Records, RunStore: run_store.py, the queue of agent runs: the tables `AgentRunModel`,
--     `AgentJobModel` and `AgentEventModel` of models.py as lists of rows, and `AgentRunStore`, one
--     function for each method that writes. RunStore.Left, Calls, Claims: runs that have left the queue,
--     under any sequence of calls. RunStore.Leases, Missing, Cancel: the job rows.
--     History: what a replay shows of an event.
--   Json, Batches: batching.py, `AnalysisBatches`, the ledger of evidence that a run has opened, shown
--     and reported. Batches.Consistent, Publish, Transport, Accepted, Evidence: its invariant, the
--     publication of a batch and when there is one, and the archive for the last report.
--   Window: conversation_window.py, the rounds of tool calls that fit into a request. Window.Bisection,
--     Fits: its binary search, and the budget.
--   Tests, Batches.Tests, Window.Tests: concrete runs.
--
-- `Llm` models backend/app/llm/conversation.py: the conversation with its calls of tools and their
-- results, its validator, and its two serialisations. Conversation.Pairing: what the validator accepts.
-- Conversation.Tests: concrete conversations.
--
-- `CallPaths` models backend/app/services/security_analysis/path_finder.py,
-- `StructuralCallPathFinder`: the adjacency index, the reverse closure of the targets, the
-- breadth-first search `find_variants` within limits on depth, states and paths, and the methods
-- `find` and `find_reachable`, which cache its answers (Finder, Finder.Cache).
--   Walks and Closure: walks along call edges, and the closure. Expand, Complete and Sound: one
--     iteration of the search, and its two invariants. Answers: find_variants as a whole. Tests:
--     concrete runs.
--
-- `GraphCore` models backend/app/services/graph_core/validation.py, `GraphViewValidator.validate`,
-- over the nodes and edges of contracts.py. Validity says what a graph without issues is. Tests:
-- concrete runs.
--
-- `Projects` models the deletion of a project under backend/app/services/projects: the service
-- (deletion_service.py), the janitor that puts right what a crash has left (deletion_janitor.py), and
-- the methods on files, artifacts, journal and rows that they call. Each change of a file or a row may
-- go through, raise, or be the last thing that the process does before it is killed.
--   Crash, Crash.Triple: such processes, and what holds after them. Files: the files and the row of one
--     project and one deletion of it, with the methods that change them. Deletion: the service and the
--     janitor. Deletion.Stages, Ends, Safety: the states that a deletion passes through. Deletion.Rows,
--     Deletion.Janitor: the runs of the janitor. Tests: concrete runs.
--
-- Bounds: the reverse closure has one unit of fuel for each target and each edge, and the search one
-- more than max_states; its invariants show that both suffice. The binary search of a window has one
-- unit for each limit it may try, which `limit_of-IsEdge` shows to be enough. Other loops are recursions on lists
-- or on the tree of callbacks. Python's integers are natural numbers, and exit codes are signed. Times count
-- microseconds. Floats are a parameter (`Floats`) with the two comparisons the code makes and the
-- law that `float` reads back what `str` prints.
--
-- Not modelled: the HTTP layer, logging, reading settings from the environment, the Docker command
-- line and the rest of its polling loop, and the ownership query of the project repository, which is a parameter.
-- The ledger's parser and its rendering, the
-- compaction of an observation, the budget planner's answer, and Python's json are parameters too.
-- Two sessions never interleave inside one transaction. The rest of the backend (syntax frontends,
-- program graphs, other security analysis, the agents' orchestrator and tools, model providers, experiments, projects) and the frontend
-- are not modelled.
pub mod Base
pub mod Execution
pub mod Agents
pub mod CallPaths
pub mod GraphCore
pub mod Llm
pub mod Projects
