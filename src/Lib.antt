-- ===== src/Lib.antt =====
-- The correlation engine of an endpoint sensor: it takes one event at a time, keeps the storylines of
-- the processes and objects that events have joined, advances automata of attack patterns over each
-- storyline, and answers every event with a verdict.
--
-- The parts, and the file of each:
--   Event, Event/OpSet    engine_core/src/event.rs: keys, kinds, operations, `OpSet`
--   Rules                 engine_core/src/rules.rs: linear and DAG rulesets, `StepMatch::matches`
--   Detector              engine_core/src/detector.rs: `Verdict`, `apply`; the `DISARMED` table
--   Lines                 `resolve_line`, `unify_storyline`, `merge` and `storyline_of`, the same text in
--                         engine_core/src/v0_0_1.rs and engine_core/src/v0_0_2.rs, over any automaton
--   Linear                engine_core/src/v0_0_1.rs: linear patterns, on Lines
--   Dag                   engine_core/src/v0_0_2.rs: patterns that are partial orders, on Lines
--   Graph                 engine_core/src/base.rs: the reference engine with nodes and edges
--   Wire                  engine_core/src/wire.rs: compiled rulesets as bytes
-- The children of a part hold its lemmas and are named for what they prove. Tests holds concrete
-- scenarios, those of the tests in the sources among them.
--
-- State and operations. An engine is a record of the fields of the source's struct. `&mut self` is a
-- state that is passed in and returned; a panic (an `unwrap` of `None`, an index out of range, a missing
-- key) is `none`. A `BTreeMap` is an association list sorted by key, a `BTreeSet` a sorted list, a `Vec` a
-- list. A `for` loop over a collection is structural recursion, with what it changes as arguments, so no
-- fuel is needed.
--
-- Numbers. Keys (`u128`), TTP ids (`u32`) and time stamps (`u64`) are natural numbers, since the engines
-- only compare and copy them. `1u64 << bit` takes the shift count modulo 64, as a release build does;
-- a debug build panics from 64 on. The casts of lengths in the wire format keep their wrap-around.
--
-- Around the engine:
--   Ffi                   engine_core/src/ffi.rs: the C interface, over Dag
--   Bounded               engine_core/src/v0_0_2_bounded.rs: the engine of the kernel, with caps. The loops
--                         that probe a table share `walk` (Bounded/Table), whose rounds are the table's
--                         size, as in the source
--   Ringbuf               endpoint_service/src/ringbuf.rs: producer and consumer of the ring; an access
--                         outside the data region is `none`
--   Sensor                endpoint_service/src/sensor.rs: frames and records of the driver, decoded and
--                         encoded (Sensor/Encode); Sensor/Outcomes holds the results, a panic among them.
--                         The loop over records runs on fuel, the frame's size: a record has 32 bytes or
--                         more. Sensor/Text is the standard library's UTF-16
--   Compile               engine_rules/src/lib.rs: `validate_dag`, whose fixpoint loop runs on fuel, the
--                         number of steps: each round but the last reaches one step more;
--                         Compile/Tokens: the steps of a rule text; Compile/Source: `compile`,
--                         `compile_dag` and what writes their bytes. A text is its code points
--                         (Prelude/Texts has the `str` methods); an error has its line and kind
--   Edr                   v1/engine/src/event.rs: operations and node keys of the crate `edr_engine`
--   Edr/UnionFind         v1/engine/src/lib.rs: `find`, `new_storyline`, `unify` and `merge` on `dsu_parent`
--   Edr/Automaton         v1/engine/src/lib.rs: `try_commit` on the steps of v1/engine/src/pattern.rs, and what
--                         `merge` does to the automata of two storylines
--   Translate             endpoint_service/src/translate.rs: sensor records as events of that crate
--   Control               endpoint_service/src/control.rs: the records sent down to the driver
--   Batches               endpoint_service/src/source.rs: frames from a byte stream. The reader is a
--                         parameter of the program: a stream has its bytes and a plan of how each call
--                         of `read` ends
--   Service               `process_batch` of endpoint_service/src/lib.rs, over the calls of the engine
--                         that the crate `edr_engine` answers, as parameters
--   Replay                engine_replay/src/lib.rs: the datasets and their replay; the rule files are an
--                         argument
-- The ring's calls are taken one after the other: interleaved accesses are not modelled. Its `next` runs on
-- the fuel that the caller gives, a round for each pad frame that it skips, and is `none` without fuel.
--
-- Not modelled: the Windows driver (sensor/windows_driver, C++), the threads and handles of
-- endpoint_service, the crate `edr_engine` that endpoint_service names (the repository has only the
-- prototype under v1/engine), the protocol crate with its generated types, and the prototype but for
-- its event model, its union-find and its automata.
pub mod Prelude
pub mod Event
pub mod Rules
pub mod Detector
pub mod Lines
pub mod Dag
pub mod Linear
pub mod Graph
pub mod Wire
pub mod Ffi
pub mod Edr
pub mod Control
pub mod Translate
pub mod Batches
pub mod Replay
pub mod Service
pub mod Bounded
pub mod Compile
pub mod Sensor
pub mod Ringbuf
pub mod Tests
