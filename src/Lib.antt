-- ===== src/Lib.antt =====
-- Crab City lets several people look at and type into the same Claude Code instances, in the browser
-- and in terminals. This library models the parts of the server that decide what state an instance is
-- in, who may type, whose input is whose, and what every client sees.
--
-- The parts, and the files that model them:
--
-- Inference: packages/crab_city/src/inference/state.rs and manager.rs, the manager that infers the
-- state of an instance from its terminal and its conversation. Inference/State has the states and the
-- signals; Inference/Manager has `process`, arm by arm. `Instant::now()` is an argument.
--
-- Driver: packages/crab_city/src/process_driver.rs and claude_driver.rs, which wrap the manager for
-- the actor of an instance. Driver/Claude has a function for each method of `ClaudeDriver`. The
-- channel of conversation events is the list of the events sent.
--
-- Attribution: how input typed by a user is matched with the entry that the conversation shows later.
-- Attribution/Content has `normalize_attribution_content` and `attribution_content_matches` of
-- packages/crab_city/src/models.rs; Attribution/Queue has `push_pending_attribution` of
-- packages/crab_city/src/ws/state_manager.rs and `consume_pending_attribution` of
-- packages/crab_city/src/handlers/conversations/format.rs.
--
-- Gsm: packages/crab_city/src/ws/state_manager.rs, the state that all connections share. Gsm/State
-- has its records; Gsm/Sessions the claims of sessions, and Gsm/Claims those of a rotation in
-- packages/crab_city/src/ws/conversation_watcher.rs as well; Gsm/FirstInput the content for session
-- discovery; Gsm/Locks the terminal locks; Gsm/Presence the presence; Gsm/Instances the instances;
-- Gsm/Input the handler of input, which uses all of these and the pending attributions; Gsm/Inbox the
-- watcher that turns states into inbox items, over packages/crab_city/src/repository/inbox.rs.
--
-- Terminal: packages/virtual_terminal/src/lib.rs, the terminal that stands between the clients and
-- the pseudo-terminal. Terminal/Emulator is the interface to the package vt100, whose documented
-- behaviour is the record `IsEmulator`; Terminal/Viewport and Terminal/Virtual negotiate dimensions
-- and keep output, and Terminal/Said and Terminal/Agreement describe what the clients want apart from
-- that; Terminal/Sgr formats rows; Terminal/Scrollback replays the scrollback.
--
-- Diff: packages/crab_city/src/git/diff.rs, the parser of unified diffs. Diff/Split has the cuts of the
-- text, Diff/Numbers the numbers of type `i64`, whose increment wraps around, Diff/Header the headers,
-- Diff/Hunks the loop over the lines of a file and Diff/Parse the whole parser.
--
-- Actor: packages/crab_city/src/instance_actor.rs, the actor that feeds the driver and the virtual
-- terminal of an instance and broadcasts its state. Actor/Instance has its loop, an event at a time;
-- Actor/Recent the cut of a replay. Its broadcasts are what Gsm/Inbox observes.
--
-- Socket: packages/crab_city/src/ws/focus.rs, the task that forwards an instance to a client.
-- Socket/Utf8 is the check of UTF-8 of Rust's library; Socket/Decoder has `Utf8StreamDecoder` and the
-- decoder that it is compared with, which reads one byte at a time; Socket/Focus has `handle_focus`, an
-- event at a time, and `send_conversation_since`. The loop of the decoder has fuel for one round more
-- than there are bytes, which is enough, since each round takes a byte at least.
--
-- Terminal/Recorder: packages/virtual_terminal/src/recorder.rs, the recording of a terminal and its
-- replay. The CBOR codec is a parameter with the laws `IsCbor`; Terminal/Codec has one that keeps them.
-- Terminal/Played sets the recorder where packages/crab_city/src/instance_actor.rs has it, with each
-- resize recorded at a command of its own behind the change of the terminal.
--
-- Auth: packages/crab_city/src/auth.rs. Auth/Types and Auth/Tables have the tables and the queries of
-- packages/crab_city/src/repository/auth.rs; Auth/Cookies the cookies and tokens; Auth/Middleware the
-- check of each request, which Auth/Paths and Auth/Forgery describe again apart from the code;
-- Auth/Register and Auth/Handlers the handlers; Auth/Runs serves requests in sequence. Which queries of a request fail
-- is an argument, and so is what it draws at random. Requests are served one after the other.
--
-- Watcher: packages/crab_city/src/ws/merging_watcher.rs, which follows a conversation and merges the
-- results of tools into the turns that wait for them. Watcher/Turns has the turns and what changes in
-- them; Watcher/Merging has `poll`, an entry at a time, with the newest event of a batch first.
--
-- Git: packages/crab_city/src/git/log.rs, the parser of the output of `git log`. Git/Log has the
-- parser, Git/Records what git prints in the format that the request names, and Git/Commits the commits
-- of a repository that it prints.
--
-- Shared has text as code points, association lists for hash maps (their order stands for the
-- unspecified order of iteration), decimal numbers and Boolean tests.
--
-- Times are natural numbers of nanoseconds, so a clock is taken not to stand before its epoch. A map
-- behind a lock is passed in and out; an operation that takes several locks in turn is modelled
-- without another task between them. Lengths and indices are natural numbers: the code does not
-- compute beyond the machine's bounds with them. The one loop that is not structural, over the pages
-- of the scrollback, runs on as much fuel as there are lines, which is enough if the screen has a row.
--
-- Not modelled: input and output, SQL but for authentication, processes, sockets, the user interface and
-- the packages. What the code asks of an actor, of a JSON printer and of a decoder is a parameter.
mod Shared
pub mod Inference
pub mod Driver
pub mod Attribution
pub mod Gsm
pub mod Terminal
pub mod Diff
pub mod Actor
pub mod Socket
pub mod Auth
pub mod Watcher
pub mod Git
