-- ===== src/Lib.antt =====
-- The parts of Pomar whose decisions can be checked by themselves, as functions over their states,
-- with the theorems that make them correct. Pomar runs isolated jobs and terminal seats in
-- micro-VMs on one host: it admits an attempt when the host has room for it, hands each identity
-- to a provider at most once, keeps a model of each seat's terminal for clients that attach later,
-- and keeps journals that let a repeated request be told from a new one after a restart.
--
-- internal/capacity (capacity.go, allocation.go; the fill limit of internal/hostpolicy/disk.go) is
-- Capacity: the figures of classes, hosts and disks as records, `Evaluate` as `evaluate` with its
-- closure `fail`, and `Admit`, `Fits`, `HostFrom` and `WithBudget`. An int64 is an integer whose
-- sums, differences and products wrap (Prelude.Int64). Accounting, Limits, Ranges and Room hold
-- the lemmas on claims, the fill floor, word ranges and room; Decision, Admit and Fit the answers.
--
-- internal/providerfence (store.go) is ProviderFence: the state file, `load` with its checks and
-- its sweep of expired reservations, `save` and `transaction`; Calls has `Open`, `Reserve`,
-- `Start`, `Abandon` and `Lookup`. What a call meets outside (locks, reading, the clock, random
-- bytes, whether a save is durable, lost, or in place with an unsure sync) is a `World` that each
-- call is given. Calls of several handles are serial, as the lock of the code makes them: History
-- runs any sequence. Moves, Once, Abandoned, Incarnations, WellFormed and Reload follow a record
-- through such a run.
--
-- internal/termstate (terminal.go, parser.go, sgr.go, width.go) is Terminal: the terminal and its
-- parser as records; Rows, Screen, Print, Edit and Resize for rows, scrolling and history,
-- printing, editing and sizes; Controls, Csi, Sgr, Text, Utf8 and Width for modes, control
-- sequences, colours, numbers, encoded runes and widths; Parse for the parser's `step`, `Feed`,
-- `Replies` and `Held`. Bytes are numbers, and a text is the list of its runes. Placed, Ring,
-- Pairs and Sized hold the lemmas on the screen, and Wire those on the bytes that are forwarded or
-- held. Which runes are combining marks, a table of Go's package unicode, is the argument
-- `is_mark` of the functions that print.
--
-- internal/seatterm (frame.go) is Frames: `WriteFrame` over a stream that may take less than it is
-- given, `ReadFrame`, and in Meta the second version of the protocol. Bytes and Reading hold the
-- lemmas on numbers of two bytes and on which bytes are a frame, Truncated and Writing the broken
-- streams, MetaReading the second version. `is_json` stands for json.Valid of Go's encoding/json.
--
-- internal/cache (cache.go) with the eviction pass of internal/manager/caches.go is Cache: `Plan`
-- as a fold over the budgets; Paths has Clean of Go's path/filepath; Report has the pass, with the
-- size of an object and the outcome of a removal as inputs. Greedy, Budgets and Whole describe the
-- plan apart from its loops, Spared what the pass never removes.
--
-- internal/sessiond (opjournal.go, and its uses in adapter.go) is OpJournal: the bytes of the file
-- with its replay, and the operations in memory. `encode` and `decode` stand for the JSON of a
-- record, of which it is assumed that a written record is read back and holds no newline;
-- Tests.Codec is a pair that does. An append is durable, has a failing sync, or stops early;
-- `Event` has the adapter's calls, the exit of the program, and restarts with a torn end of the
-- file. Lines, Known and Steps hold the lemmas on lines, entries and calls; Runs and Held are
-- about histories.
--
-- internal/sessiond (logs.go) is SessionLog: the file of a session's log with its bound, the
-- viewer of `logSession` whose events are output and fresh cuts of the stream, and the pages of
-- `serveLog`. A write may be short. Offsets are numbers, which are far below 2 ^ 63. Appends,
-- Captured and Pages hold the lemmas, and Pages a client that goes on after each page where the
-- command line says that more follows; that the session delivers its stream in order is a
-- hypothesis, `AllDelivered`.
--
-- internal/agentenv (state.go) is AgentStore: the state with its maps, `Begin`, and how a method
-- ends with a write; Calls, Events and Controls have the other methods, and Service `Open` and any
-- sequence of requests, exits and restarts. Inputs come parsed and hashed, and times are left out;
-- of an event its number, incarnation and method are kept, of a rejected one not the operation it
-- matched, of a control not the evidence of a refusal. Go goes over a map in any order, the model
-- in the order of the list. Kept, Grows (with Methods) and Retained follow an operation through
-- the methods, their writes and restarts, Once the dispatches of a task.
--
-- Prelude has the shared names, lists, integers, 64-bit words and association lists. Tests runs
-- the models on concrete inputs.
--
-- Loops are recursion on a list or on a count that the code computes before the loop, so no
-- function but `itoa` takes fuel, and its fuel is the number itself plus one, which has at least
-- as many units as the number has digits. Pages counts the pages that a client asks for, and one
-- more than the bytes that are left is enough.
--
-- Not modelled: files and their modes, sockets, processes, HTTP, the JSON encoding of documents,
-- the texts of errors, the snapshot of a terminal (internal/termstate/snapshot.go), the binding of
-- continuations and the controller requests of internal/agentenv, and the packages that are not
-- named here.
pub mod Prelude
pub mod Capacity
pub mod ProviderFence
pub mod Terminal
pub mod Frames
pub mod Cache
pub mod OpJournal
pub mod SessionLog
pub mod AgentStore
pub mod Tests
