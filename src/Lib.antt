-- ===== src/Lib.antt =====
-- Verification of the distributed mesh: the rules of its protocol and its durable command journals.
--
-- An operator submits a command to the coordinator, which admits it to its journal, dispatches it to
-- the node it is for, and records what the node reports. Agents are started and stopped by commands
-- whose effects the node records stage by stage in a receipt. After a lost stream, a missed
-- deadline or a restart the journals must never run a command twice nor forget what is known. When
-- the mesh is given up, its roles and grants are taken out of the tailnet's policy, once and without
-- touching what belongs to others.
--
-- Which file models which part (paths from the repository's root):
--   Protocol/Messages: the messages of api/proto/agentflow/v1/control.proto, with unknownFields of
--     src/internal/state/store.go.
--   Protocol/Tokens, Sessions, Agents, Workspaces, Commands, Results, Lifecycle, Negotiation: the
--     validators of src/internal/protocol, one function for each Go function, under its name.
--     Lifecycle/Evidence and Negotiation/Greatest hold the theorems about them.
--   Errors, Table: the errors of src/internal/state, its transactions, and SELECT, UPDATE and
--     INSERT on a table with a text key.
--   Journal/Outcomes, Records, Fence: the predicates of src/internal/state/commands.go and
--     lifecycle.go on statuses, stored records and conflicting effects.
--   Journal/Store: the tables and the steps that read and write them; its children hold the
--     methods of Store on commands (commands.go, lifecycle.go, lifecycle_reconcile.go,
--     named_agent.go). Each method is a function from its arguments, the time and the tables to its
--     result and the tables afterwards.
--   Journal/Keys, Evolution, Steps, Growth, Admission, Sweeping, Methods, Dispatch, Recovery, Retry: the
--     theorems, from one record to every sequence of calls.
--   NodeJournal: the tables of a node's journal, its methods in Methods and Scopes
--     (src/internal/state/node_journal.go, lifecycle.go, lifecycle_scope.go), and the theorems in
--     Retention, Claims and Recovered.
--   Fleet: the bindings of instances to machines and the snapshots of the fleet
--     (src/internal/state/store.go); Steps, Imports, Soundness, Runs, Cache and Loading hold the
--     theorems.
--   Projects: the coordinator's registry of projects (src/internal/state/projects.go). Records has
--     the messages and validators, Methods the methods; History, Reading, Changes and Runs hold the
--     theorems.
--   Teardown: src/internal/deinitnet. Json is the strict decoder of policies, Values what the code
--     reads of a value, Policy the removal of the mesh from a policy, Additions the test of what the
--     set-up added (all of policy.go), Client the HTTP client and DeleteDevice (client.go), Devices
--     the device list (dependencies.go), Plan the plans and their application. A computation takes
--     the client and gives its answer with the client afterwards, which logs the requests it sent.
--     Roles spells the three roles out again for the theorems, and Policy/Rules, Policy/Mentions,
--     Additions/Ports, Tags, Others and Supported, and Devices/Listed say, independently of the
--     code's tests, which rules go, which texts are left, what was added and which ids a list has.
--   Examples: concrete commands and journals, on which the theorems are applied.
--
-- How the code is read: a nil pointer is `none`; a validator that returns an error is a test, whose
-- `true` stands for nil; a time is a number of nanoseconds since year 1, and negative durations,
-- which the validators refuse, are not represented. `unknown` says that a message carries a field
-- outside its schema. The sizes that proto.Size computes are the parameter `Wire`, and the SHA-256
-- of the parts of a resource key is the parameter `digest`. A BLOB column
-- holds the message that it encodes. A transaction commits what its body wrote or, on an error,
-- changes nothing. Each method is called on an open store with a context that is not cancelled.
-- Every loop is structural recursion but the JSON decoder, which runs on fuel: twice the number of
-- tokens and one is enough, and `starved`, the result for too little, is proved not to occur. The
-- HTTP transport, hujson and encoding/json are parameters (`Network`, `Codec`); a []byte is a text
-- with one character for each byte.
--
-- Not modelled: SQLite, files, sockets, subprocesses and streams, the command line, the dashboard,
-- and the parts of the server and of the nodes that drive the journals.
pub mod Prelude
pub mod Errors
pub mod Table
pub mod Protocol
pub mod Journal
pub mod NodeJournal
pub mod Fleet
pub mod Projects
pub mod Teardown
pub mod Examples
