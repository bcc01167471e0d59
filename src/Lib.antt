-- ===== src/Lib.antt =====
-- na62-farm: the program that runs on each node of the NA62 PC farm. It receives the frames that the
-- detectors send, builds events from them, runs the trigger levels L1 and L2 on the events, and
-- sends the accepted ones to the mergers.
--
-- The parts of the program, and the files that model them:
--   socket/PacketHandler.cpp gathers received frames into tasks: Packets (`thread`, `gather`,
--     `spawn`) over what each poll of the network card reads; Packets/Gathered has the proofs.
--   socket/HandleFrameTask.cpp handles the frames of a task: FrameTasks. Process has `check_frame`,
--     `process_frame` (cut at the port into `process_datagram`, `process_l0`, `process_cream` and
--     `invent_blocks`) and `execute`; State the static members as the record `Farm`; Blocks the blocks
--     made up for L1, L2 and NSTD; Network what comes from the library. An exception is the outcome
--     `thrown`, and `catching` is the catch blocks. Checks, Layout, Carried, Runs, Buffers,
--     Disposal and Datagrams are proofs.
--   socket/FragmentStore.h puts IP fragments together: Fragments. Slots has the static maps and
--     their operations, Reassembly `reassemble_frame`, Add `add_fragment`; View is the table of
--     datagrams that a caller sees, and the other modules are proofs.
--   eventBuilding/L1Builder.cpp and eventBuilding/L2Builder.cpp build events and run the triggers:
--     EventBuilding/L1Builder and EventBuilding/L2Builder (`build_event`, `process_l1`, `process_l2`),
--     over the record `State` of their static members in EventBuilding/State. Decisions says what
--     becomes of a built event, Protocol and Justified what its calls must be like.
--   SharedMemory/QueueReceiver.cpp takes the answers of the trigger processes:
--     EventBuilding/QueueReceiver (`receive`).
--   eventBuilding/StorageHandler.cpp: `SendEvent` in EventBuilding/Storage, the sockets and the
--     thread in Mergers (`send_event_data` for one event, `store_events` for the queue).
--   socket/TaskProcessor.cpp takes tasks from the queue and executes them: Tasks.
--   na62-farm.cpp: `onBurstFinished` in Burst (the clean-up of the pool and the statistics of the
--     times) and Burst/Finished (the whole), with the getters, resets and `initialize` of
--     eventBuilding/L1Builder.h and eventBuilding/L2Builder.h in EventBuilding/Getters and
--     EventBuilding/Resets; `main` and `myHandleStop` in Startup, as the sequences of the calls that
--     they make. Startup/Order says which parts a thread uses.
--   monitoring/MonitorConnector.cpp sends the statistics: Monitoring (`handle_update`), where a
--     stream is the fields that are written to it.
--   SharedMemory/PoolParser.cpp counts the events of the pool: Pool (`parse_pool`).
--   monitoring/CommandConnector.cpp handles the commands of the run control: Commands.
--   options/MyOptions.h declares the options: Options, with the places that read them in Options/Reads.
--   straws/StrawReceiver.cpp forwards data of the Straws: Straws (`forward_frame`). Nothing calls it.
--   socket/PcapDump.cpp dumps bad frames: Dumps, with the dumper of a task processor.
--
-- Examples runs the theorems at concrete frames, events and sockets.
--
-- System interleaves the threads: `Reach` is any sequence of the steps of the packet handlers, of any
-- number of task processors, of the answers of the trigger processes and of the ends of bursts, on one
-- state. There the handling of a frame, of an answer and of the end of a burst is one step each, though
-- the source takes no lock for it. System/Serial mixes the calls of such steps: `SameCalls` allows
-- every mixture that keeps the order of the calls for each single event. What is not covered is that
-- two threads work on the same event at the same time. System/Storage adds the storage thread, which
-- pops an event in one step and makes each attempt to send it in another, and a shut-down
-- (`PlantRun`). The iterations of the parallel loop over the pool run in any order, each as a whole.
-- EventBuilding/Steps is finer: `Run` is any sequence of single fragments of both levels and of
-- answers.
--
-- The classes of na62-farm-lib and na62-trigger-algorithms are no part of this repository.
-- EventBuilding/Library lists the calls made to them (`Call`) and takes what they return as functions
-- of the calls so far (`Library`); FrameTasks/Network takes the parsers of frames and MEPs as
-- functions of the bytes. The fields of a header are read from bytes by a parameter `header`. The
-- class `Options`, which parses the command line, is a parameter of Options/Loaded.
--
-- Counters keep their width: `% 2 ^ 32` for `uint`, `% 2 ^ 64` for 64-bit atomics. The sizes of
-- types are those of a 64-bit Linux, where `uint_fast16_t` has 64 bits. Loops recurse on the list or
-- the count that they run over: the loops that wait for the network or for ZeroMQ run over the list of
-- what they read. `parse_pool` runs on fuel, and Pool/Ends says how much is enough; the digits of a
-- number are made with one more unit of fuel than the number.
--
-- Not modelled: log messages, but for the one whose argument changes an index; mutexes, since each
-- call under a lock is one step; the help texts of the options; the strings that the library makes of
-- its own statistics; a build with USE_ERS.
pub mod Base
pub mod Frame
pub mod Fragments
pub mod EventBuilding
pub mod FrameTasks
pub mod Packets
pub mod Tasks
pub mod System
pub mod Burst
pub mod Commands
pub mod Mergers
pub mod Pool
pub mod Startup
pub mod Monitoring
pub mod Options
pub mod Straws
pub mod Dumps
pub mod Examples
