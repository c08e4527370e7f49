-- ===== src/Lib.antt =====
-- OneBeat's engine: the project model in engine/src/model (what a project consists of, how it is edited,
-- and how edits are undone), and the core in engine/src/core that plays it.
--
-- The parts and the files that model them (paths are from the root of the repository):
-- - Notes: engine/src/model/note_sequence.h. A `NoteSequence` is a list of notes in canonical order;
--   `insert`, `erase`, `assign_sorted`, `starting_in` and `content_end` are the methods of those names.
-- - Ids: engine/src/model/ids.h and ids.cpp. `encode_ulid` and `decode_ulid` are encodeUlid and
--   decodeUlid; `id_str` and `id_parse` are TypedId::str and TypedId::parse; `next_raw` is
--   IdGenerator::nextRaw. A word of 64 bits is a number with its wrap-around written out.
-- - Changes: engine/src/model/changes.h, the subscription of listeners.
-- - Entities: engine/src/model/entities.h, the records of the project and the length of a pattern. A
--   float or double is its bit pattern; what code computes with them is a parameter where it is modelled.
-- - Project: engine/src/model/project.h and project.cpp. The state is the record `Project`; each table is
--   an association list in the order of its keys, as `std::map` keeps it (Prelude.Map). Project.Impact
--   has the queries, Project.Create, Project.Delete, Project.Modify and Project.Restore the operations.
--   The events that a project has sent are a field of it.
-- - Project.Integrity: what engine/src/model/invariants.cpp asks of a project, as a predicate, with the
--   order of the tables and that the mixer tracks have ranks that outputs lead down. Like that function it
--   does not look up the targets of the curves that a pattern owns. Project.Integrity.Reached has the calls
--   of the public operations one after the other.
-- - Command: engine/src/model/command.h and command.cpp. `Bus` is CommandBus with the project it owns a
--   reference to; its stacks have their top first. The commands are a parameter, `Steps`, which is what
--   the class Command declares. Command.History states what commands owe the bus (`Laws`), and its
--   modules what the bus makes of it, through the view of a project that a law chooses. The commands on clips
--   keep the laws; TransportCommand, which is not modelled, breaks the one on merging (commands.cpp:565).
-- - Command.Commands: engine/src/model/commands.cpp, with the laws for commands on clips in
--   Command.Commands.Clips. Command.Commands.Removal has the commands that remove a pattern or a lane.
-- - NoteEdit: engine/src/model/note_edit.h and note_edit.cpp. An edit gives the notes that its command
--   replaces and those it puts in their place.
-- - Schedule: engine/src/core/schedule.h and schedule.cpp, the sorted events and their search, and the walk
--   over the events of a chunk in engine.cpp.
-- - Flatten: engine/src/model/flattener.cpp. collectOccurrences and resolveOverlaps are definitions of Flatten;
--   Flatten.Resolve has the indices and the curves of `flatten`, Flatten.Resolve.Loops its loops over lanes,
--   clips and notes, and Flatten.Emit the loops that fill the builder of a schedule. What std::sort makes of equivalent elements is a parameter, `Sorts`.
-- - Transport: engine/src/core/time_map.h and transport.h; Transport.Run is Engine::runSchedule, which cuts
--   a block into chunks at the end of the loop, with the tempo events that processChunk applies.
-- - MixerGraph: engine/src/core/mixer_graph.h and mixer_graph.cpp. `finalise` runs the depth-first search
--   on an explicit stack as the source does; MixerGraph.Render is Engine::renderMixer.
-- - Realtime: engine/src/core/rt. Realtime.Publisher is NonRealtimeMutable (publisher.h) and Realtime.Ring is
--   MpscRing (mpsc_ring.h), each as threads whose program counters are data and whose steps are the
--   constructors of a relation.
-- - Tests: a small project, and each theorem at concrete data.
--
-- The operations of a project call each other as the source does: a deletion asks the queries for what
-- it takes with it, commands call the operations, and the bus calls the commands. The flattener reads a
-- project and calls the builder of the schedule. Every loop of the model
-- goes over a list and is structural recursion. In the core, the engine publishes a mixer graph that
-- `finalise` accepted and renders it in its order, and a chunk is played by a walk over the schedule.
--
-- Fuel: the search of `finalise` has 3 rounds for each node and 1 more, the binary search of a schedule as
-- many rounds as there are events, a note of a looping clip a lap for each tick of the clip and 1 more, and runSchedule ten rounds for each frame and 9 more, since a chunk has
-- at least one frame and at most 9 wraps stand before a chunk or the break. The theorems show that each
-- loop ends within its fuel.
--
-- Not modelled: the user interface, the rest of the audio engine and plugins, project files, the functions that
-- compute with floats (audioStretchRatio, audioLengthAtTempo), the hash of a flattened schedule, the debug check that each mutation runs
-- and `adopt`, which replaces all tables. The system clock of the id generator is a function from the
-- number of readings to milliseconds. A null command pointer is no command of the model.
--
-- Integers: ticks, keys and orders are integers without a width. The sums that the source guards
-- (isValidNote, addClamped, subtractClamped) are compared with the bounds of int64_t as it does;
-- elsewhere, as in the order of a new entity, the next bar of a pattern and the products of snapTick,
-- the source does not guard, and overflow, which C++ leaves undefined, is outside the model.
--
-- Interleavings: the model is used by one thread, and a sequence of calls is a value of Reach (the bus)
-- or of Reached (the project). In Realtime the threads interleave at each atomic access, in one order that
-- all of them see, which is more than acquire and release ask for; what a mutex guards is one step.
-- Counters of 64 bits wrap in the steps, and the theorems are about fewer steps than make them do so.
--
-- Doubles: the clock and the flattener take what doubles compute as the record `Doubles`, and the flattener
-- what floats compute as `Floats`, with no laws; a float in an event is its bit pattern; audio is a type of its own, with its sum, its scaling and its inserts as parameters.
pub mod Prelude
pub mod Notes
pub mod Ids
pub mod Changes
pub mod Entities
pub mod Project
pub mod Command
pub mod NoteEdit
pub mod Schedule
pub mod Transport
pub mod MixerGraph
pub mod Flatten
pub mod Realtime
pub mod Tests
