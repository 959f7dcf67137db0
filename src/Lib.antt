-- ===== src/Lib.antt =====
-- The verification library of dreamwell, a server for generated chats, stories and games with a browser
-- client. The server keeps sessions in SQLite, plans changes of their state from what a model
-- proposes, and generates text in a queue of jobs; the client follows it by an event stream.
--
-- Parts, files and sources (paths from the repository's root):
--   * Common: the names that all parts share, with numbers, integers (`wrap64` is the wrap of `i64`), decimal
--     text, hash maps as association lists, and an equality interface.
--   * Sequence: a list with a cursor, crates/dreamwell-types/src/state_payload.rs. Functions keep their names;
--     `&mut self` is a state passed and returned. `serde_json` is the parameter `Json`.
--   * State: the state engine. Types are the rows and requests (crates/dreamwell-types/src/lib.rs); Resolve, Plan*,
--     Mutation and Revert are crates/dreamwell-state/src/resolve.rs and apply.rs, `plan_state_changes` and `plan_revert_changes`
--     among them; Table is crates/server/src/state_persist.rs: a statement of SQL is a map, a filter or an append of
--     rows, and `none` is a broken UNIQUE constraint. Rows, Undo, RoundTrip and Removal are the proofs on reverts, Numbering
--     and Vivify those on new actors (with the id map of crates/server/src/game_state.rs), Bounds those on measurements.
--   * Queue: the generation queue. Job and Store are the job table of crates/server/src/db.rs, with the inserts of
--     stories_db.rs and game_db.rs; Tables are the other tables that the end of a job writes; Finish and Worker are
--     crates/server/src/queue.rs: `cancel_job`, `fail_job`, and the loop of `spawn_loop` as the step relation `Step`, in which
--     requests, polls, claims, ends of tasks and restarts come in any order. Rows, Select, Claim, Order, Loop, Safety, Invariant, Poll, Cancel
--     and Texts are proofs.
--   * Game: Dice and Checks are crates/server/src/game_resolution.rs; Elements, Mechanics, Replay and Play are
--     crates/server/src/game_mechanics.rs with the types of crates/dreamwell-types/src/game_elements.rs.
--   * Inference: Connection is the order of the providers in crates/dreamwell-types/src/lib.rs; Notice and Fallback are
--     crates/server/src/error.rs and model_fallback.rs, whose macro `attempt_connections!` is the function of that name; Ends
--     and Labels are the proofs on how a call ends and what a job shows.
--   * Summary: the summaries of a chat, crates/server/src/summarize.rs. Tokens are the estimates and budgets (with
--     crates/dreamwell-types/src/lib.rs), Plan what is summarized (with the estimate of prompts.rs), Batch the messages of one
--     pass, Loop the passes (`execute_summarize_loop`), Marker the text of the marker, Statements what
--     is written (with db.rs) and Jobs the job (`run_summarize_job`). Keep and Ends are proofs.
--   * Tools: crates/server/src/tool_stream.rs. Holdback is `emit_prose_holdback`, Braces the balanced brackets, and Names the
--     places where a tool's name begins a call; a text with a place in it is two texts.
--   * Macros: crates/dreamwell-types/src/macros.rs; Once is one pass over a text, and Laws are proofs.
--   * Client: Sse, Backoff and Stream are crates/frontend/src/sse_client.rs, Chat and Display chat_sync.rs, Resume
--     resume_policy.rs with the context type of app_sync.rs, and Sync story_sync.rs and game_sync.rs. Router with Parse and
--     Session is router.rs: the routes and their paths, the parser, and the page's window; Paths, Segments, RoundTrip,
--     Parsed, Settled and Overlays are proofs. AutoSave is story_save.rs, with Refines for its proofs.
--
-- The parts meet in the tables: the worker of Queue calls the statements of Store and Finish, the state engine plans
-- mutations that Table writes, and the client reads jobs and messages that Queue writes. Fallback marks the jobs and messages
-- of Queue while a text is generated, and the end of a job of Summary completes its row.
--
-- Parameters: `f64` is a type with the operations that the code uses (`FloatOps`), whose order is a hypothesis where a
-- theorem needs it (no NaN); the faces of dice are a function of their number and sides, of its own for each call,
-- and the shuffle of a deck is a function of its cards, of its own for each deck (crate `rand`). Times are seconds as numbers, whose order is that of the stored text. Keys of new
-- rows come from AUTOINCREMENT: an enqueue is given a key that the table does not have. A vector's length is at most 2^62.
-- The answers of the inference provider, to an attempt and to a pass of a summary, are functions of what is asked; the window and
-- its history, with the step back, are the record `Browser`. A `RefCell` counts its borrows where a statement holds two. A text is the library's string, with the length of its UTF-8 form where the code
-- counts bytes; a slice at a byte that is no boundary is a panic, which is `none` or a case of its own.
-- Fuel bounds the digits of a decimal number, which are fewer than the number, the rounds of the claim loop, which are at
-- most one more than the queued jobs, the passes of a summary, of which each takes an active message, and the searches of a pass
-- of macros, of which each shortens the text.
--
-- Not modelled: foreign keys, the update times of beats and turns, database errors other than a missing row and the UNIQUE
-- constraint, the handlers that call the inference provider (a step completes, fails or cancels their job), the enqueueing of a
-- summary, its regeneration and the refresh of its markers, the states of a stream of tool calls, the summaries of stories and games, prompts, the HTTP
-- layer and the browser components.
pub mod Common
pub mod Sequence
pub mod State
pub mod Queue
pub mod Client
pub mod Game
pub mod Inference
pub mod Summary
pub mod Macros
pub mod Tools
