-- ===== src/Lib.antt =====
-- The OCAP2 recorder extension: what happens to a mission from the commands of the game to the
-- exported file.
--
-- The program. The game calls the extension with a command and its arguments. The dispatcher
-- (internal/dispatcher) runs the command's handler; the worker (internal/worker) has the
-- arguments parsed (internal/parser), looks entities up in its caches (internal/cache) and
-- records the result in a backend (internal/storage). The memory backend
-- (internal/storage/memory) keeps all that a mission holds, and EndMission exports it in the v1
-- format (internal/storage/memory/export/v1), which the web frontend replays. The format has two
-- writers: Build makes the whole export in memory, Stream writes it entity by entity.
--
-- Which file models which part:
--   Prelude            native numbers, lists, Go's int, Go maps, panics, a stable sort
--   Core               pkg/core; Core/Dynamic is Go's `any` and the standard library's parameters,
--                      Core/Result Go's errors and methods that may fail
--   Cache              internal/cache
--   Storage            the interface storage.Backend
--   Util               internal/util; Quotes and Arrays are the proofs
--   Parser             internal/parser: the values and the interface Service; Decode is parser.go and
--                      internal/geo, Units parse_soldier.go and parse_vehicle.go, Reports
--                      parse_chat.go, parse_ace3.go, parse_focus.go and the plain events of
--                      parse_events.go, Rows and Arrays the rest of that file, Map parse_marker.go
--                      and parse_placed.go, Start parse_mission.go, Filled the interface, filled;
--                      Returns, Safety and RoundTrip are the proofs
--   Memory             internal/storage/memory/memory.go: State, Lifecycle (StartMission,
--                      EndMission, resetCollections), Record, Markers, Focus, Metadata, Export
--                      (buildMissionDataUnlocked) and Storage (the interface, filled) are the code;
--                      Trace has a history of operations; Histories, MarkerLinks, MarkerHistory,
--                      FocusOrder, Missions and Keys are the proofs
--   Export             internal/storage/memory/export/v1: Data, Frames, Names, Rows, Markers,
--                      Entities and Build are builder.go and types.go, Stream and Json are
--                      stream.go; Table, Metadata, Placing, Firelines, StreamBuild, Gaps,
--                      Overflow and Chronology are the proofs
--   Worker             internal/worker: State, Entities, Movement, Events, Markers and Commands are
--                      dispatch.go and worker.go; Asked says which operation a message stands
--                      for; Returns, FromText, Atomic, Players, Exported, References,
--                      Resolution and Kills are the proofs
--   Dispatcher         internal/dispatcher/dispatcher.go: State (Register, Dispatch) and Actions (the
--                      goroutine of withBuffer, safeHandle) are the code; Order, Handled and
--                      Gates are the proofs
--   Streaming          pkg/streaming
--   Websocket          internal/storage/websocket: Connection is connection.go, Backend websocket.go;
--                      Sending, Waiting and Reconnecting are the proofs
--   Queue, Postgres    internal/queue and of internal/storage/postgres the writing of a queue;
--                      Conservation and Order are proofs
--   Recorder           cmd/ocap_recorder: Lifecycle is handleNewMission of main.go and mission_save.go;
--                      Saves and Sessions are the proofs
--   Examples           a small mission at which the theorems are applied
--
-- How the code became definitions. A struct is a record with the source's field names. A method
-- that holds the object's mutex for its whole body is one step on the state. A pointer that may be
-- nil is an Option. memory.go keeps marker records under a name and under an id by pointer: the
-- model has a heap of records, and the two maps hold addresses. A Go map is an association list
-- whose order is the order of iteration, any of which a model's map may have. A
-- `time.Time` is a number, a float is its bit pattern, and a Go string is a text. Log output is
-- left out. A panic is `none` in Build and Stream, as is an encoding error in Stream; in the parser
-- it is an error that no caller wraps. A parse function reads its arguments in the order of the
-- source and yields the whole value at its end, since the callers drop a value that comes with an
-- error.
--
-- Parameters. Std is the floating point of the machine and json.Unmarshal, Json the encoder of
-- each type of value, Exported the way the file writing of exportJSON ends, Handler
-- the functions that the dispatcher runs, Service the parser, and Storage the backend that the
-- worker calls. Decoder is what the parser takes from the standard library: strconv.ParseFloat, the
-- conversions of floats, json.Unmarshal into the types that it asks for, and the time. Encoder is
-- json.Marshal of a message, Server how the wait for an answer of the web server goes,
-- Attempt how one round of a reconnect goes. The one law that is assumed is ReadsWhole, where a
-- theorem names it: ParseFloat reads the printed whole numbers up to 2^53 exactly.
--
-- Bounds. A frame is a `uint` of 64 bits whose export as an `int` wraps as in Go; marker ids wrap at
-- 2^64. The length of the entities of Build is a uint16 sum and wraps at 2^16. The loop of Stream
-- over the ids runs on fuel 65,536, one round for each uint16. Printing a number has fuel for 20
-- digits, which a 64-bit number does not exceed. The loop of reconnect has its ten rounds as fuel.
--
-- Interleavings. The dispatcher's run is a list of actions: a dispatch, a receive or an end of a handler
-- in one goroutine, the closing of a gate. A handler is one step on the shared state, and a message
-- of the worker is one step, though the code locks the caches and the backend one after the other.
--
-- What the other goroutines do to a websocket connection is a list of steps: sends, iterations of a
-- write loop, answers of the read loop, start messages, a close. They stand in a wait, where the
-- select may choose any case that is ready, and in each round of a reconnect before the new
-- connection is published and between then and the replay. The database writer's run is a list of
-- actions: pushes, starts of missions and of write cycles, and the parts of a transaction.
--
-- Not modelled: the start and end of the websocket's loops and its dialling, the rows and the SQL of
-- the database backends, the C boundary, configuration, logs, and the HTTP client behind an upload. fmt's
-- formatting of error texts stays a format string with its arguments.
pub mod Prelude
pub mod Core
pub mod Cache
pub mod Export
pub mod Memory
pub mod Storage
pub mod Util
pub mod Streaming
pub mod Websocket
pub mod Queue
pub mod Postgres
pub mod Recorder
pub mod Parser
pub mod Worker
pub mod Examples
pub mod Dispatcher
