-- ===== src/Lib.antt =====
-- RedisMeter, a benchmarking platform for Redis. This library models the parts that keep tasks,
-- run them, and judge clusters and runs:
--
-- internal/task/task.go is Task: Task.Model has the records and statuses, Task.Plan the standard
-- workflows, Task.Progress `CalculateProgress`, Task.Steps the operations on steps, Task.Status those
-- on the whole task. A method that writes through its receiver is a function to the new task; a
-- pointer that `GetStep` gives is a write to the first step of its type. Times are nanoseconds.
--
-- internal/task/store.go is TaskStore: a store is its objects, which pointers (numbers) name, its
-- cache from IDs to pointers, the files of its directory, and the archive. What the file system
-- answers is an argument of each operation (SaveOutcome, RemoveOutcome), so errors are branches.
-- `view` is what a read shows. TaskStore.History has the operations as steps of a relation.
--
-- internal/task/executor.go is Executor: its state holds a store, the handlers, the running tasks
-- with their contexts, and which contexts have ended. Env gives the time and the disk's answer at
-- each save. A goroutine is a Worker that owns one object; `run_once` is one iteration of its loop,
-- so that calls of other goroutines (Executor.Control) can come between two iterations. The loop
-- `run_from` has fuel; `run` gives it an iteration for each step that is left and one for the end,
-- as many as the source makes where the handlers add no steps, and `Progress.more` is what is left
-- when it runs out. Handlers are parameters: what they write and report is a list of actions. Locks are not modelled: each call is one step.
--
-- internal/cluster/cluster.go is Cluster: keys and replies are lists of bytes (Base.Text, with what
-- Go's strings and strconv do; white space is ASCII's). `cover` makes as many steps as a range has
-- slots. Cluster.Failover has the failover tester; what the cluster answers at each call and the time
-- are given by Net, and the polling loop has fuel, an argument, with `Wait.polling` for what is left when it runs
-- out: a poll for each call until the clock reaches the deadline is enough. Durations in its results are not modelled, nor are the copies
-- that GetSlotCounts returns.
--
-- internal/alerting/alerting.go is Alerting: the alert manager, the rule engine, and the numerals of
-- alert IDs, whose loop has the number as its fuel. Notifiers answer by a parameter, and `float64` is
-- an interface (Floats). internal/plugin/registry.go is Plugin.
--
-- internal/org/org.go is Org: the five maps of OrgManager as dictionaries, one function per method to
-- the new state and the answer; Org.Calls has the calls that change the state and their sequences.
-- Random identifiers and tokens and the time are arguments. internal/auth/auth.go is Auth: users,
-- tokens and API keys (Auth.Local), with the hash functions as parameters, and the permissions of
-- roles (Auth.Roles).
--
-- internal/analysis/comparison.go is Analysis, over an interface for the arithmetic of `float64`
-- (Arithmetic); internal/cicd/gates.go is Cicd, whose gates read the comparison. A text that is
-- formatted from values is a constructor with these values. internal/infraprofile is InfraProfile:
-- the profiles, their validation and the store, whose state is the files of its directory; what
-- becomes of a file at each write is an argument (Write). Its specification is a map from identifiers
-- to files, and for each call what it may do to the map (InfraProfile.Moves). What the gates of
-- internal/cicd may name is specified by two tables (Cicd.Gates.Tables).
--
-- internal/logging is Logging: the log store of json_store.go is its cache, the channel, what the
-- background writer holds, and the files by date; which files can be opened or changed and which
-- entries Encode writes are parameters. A file is its lines; a line that the store wrote has its
-- duration as a text and does not read back, as in the source (Logging.Model). Lines that are not JSON
-- are left out: loadFile does not end at one. Logging.Calls has Save, the writer's receipts and its
-- clock as calls in any order.
--
-- internal/storage/file.go is Storage: the directories and files with their contents; what becomes of
-- a written file is an argument. internal/workload/registry.go is Workloads, with the built-in
-- workloads. internal/engine/engine.go is Engine, which joins them: Engine.Run is Run, whose inputs
-- (url.Parse, the times, what memtier does) are a record, Engine.Profiles its run profiles,
-- Engine.Target the reading of its target address. Domain has the records of internal/domain that they share.
--
-- Base has the shared types: 64-bit `int` with its wrap-around (Base.Int), maps with string keys
-- (Base.Dict, whose order is one in which Go may visit the map), sorting, lists and tests. Examples
-- has concrete inputs and the theorems at them.
--
-- Not modelled: the handlers of internal/task, the HTTP server, the command line, database back ends,
-- cloud and terraform, reports, single sign-on, the statistics of internal/analysis: input and
-- output, glue, or text formats. The text of errors is not modelled, only which error it is.
pub mod Base
pub mod Task
pub mod TaskStore
pub mod Executor
pub mod Analysis
pub mod Auth
pub mod Cicd
pub mod Cluster
pub mod Alerting
pub mod InfraProfile
pub mod Logging
pub mod Domain
pub mod Storage
pub mod Workloads
pub mod Engine
pub mod Org
pub mod Plugin
pub mod Examples
