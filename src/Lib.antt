-- ===== src/Lib.antt =====
-- Memknow: a server that connects Feishu chats with a language model's command line.
--
-- How the program works. The receiver (internal/feishu/receiver.go) turns an event of the chat into
-- an IncomingMessage with the key of its channel. The manager (internal/session/manager.go) drops
-- duplicates, answers /stop at once, and hands every other message to the queue of the channel's
-- worker. A worker (internal/session/worker.go) processes its queue one message at a time: it finds
-- or creates the channel's session in the database, moves attachments, asks the schedule service
-- whether the message is about a schedule, puts the history that it finds for the message before it
-- (internal/session/retriever.go), runs the language model, shows the progress on a card
-- (internal/session/compact_stream.go) and records the result. The schedule service
-- (internal/schedule) keeps a table of schedules and the scheduler's jobs in step. The heartbeat
-- (internal/heartbeat) runs a prompt for every app from time to time, and the cleanup
-- (internal/cleanup) removes the attachments of old sessions. All that is sent goes through the
-- sender (internal/feishu/sender.go).
--
-- Which file models which part.
--   Common: the shared names; Common/Runes the functions of Go's `strings` on texts, which are lists
--     of runes; Common/Replace strings.Split, ReplaceAll and Replacer; Common/Bytes the bytes of a
--     text; Common/Keyed maps as association lists; Common/Sorting orders; Common/Decimal `%d`.
--   Card: internal/session/compact_stream.go. Card/Render the texts, Card/Streamer the state and one
--     function per method (on_progress is OnProgress, render is renderLocked, send is sendLocked,
--     flush_pending_debounced is the timer's function), Card/Calls series of calls; Card/Bounds,
--     Card/Delivery and Card/Pace what is proved of them.
--   Feishu/Message: the message, BuildChannelKey, ReceiveIDType and replyTarget of
--     internal/feishu/receiver.go. Feishu/Receiver handleMessage with the flags of who is addressed;
--     Feishu/Addressed the proofs. Feishu/Sender the texts of internal/feishu/sender.go
--     (sanitizeOutboundText, normalizeFeishuCardText), Feishu/Reply the kinds of message and SendText;
--     Feishu/Marks and Feishu/Outbound the proofs.
--   Manager: internal/session/manager.go. Manager/Dedup isDuplicate, Manager/Dispatch Dispatch with
--     getOrCreateWorker, ensureChannel and handleStop, and beginCurrentRun and stopCurrentExecution
--     of internal/session/worker.go; Manager/Lifecycle the loop of Worker.run as a step relation;
--     Manager/Routing, Manager/Order and Manager/Stop the proofs.
--   Worker: the texts of internal/session/worker.go. Worker/Attachments generateTitle,
--     isAttachmentOnly, attachmentReplyText and replacePaths; Worker/Strip and Worker/Title the
--     proofs.
--   Store: the database as a worker uses it. Store/Tables the rows of internal/model/models.go and
--     the queries, Store/Sessions getOrCreateSession, handleNewSilent, maybeAsyncSummarize and
--     maybeSetTitle, Store/Persist persistResult and recordMessage; Store/Archived, Store/Active,
--     Store/Records and Store/Tokens the proofs.
--   Schedule: internal/schedule. Schedule/Cron and Schedule/Intent the parsing of intent_parser.go
--     and service.go, Schedule/Service the table and the jobs, Schedule/Matching the choice of a
--     schedule by keyword, Schedule/Manage CreateFromMessage and ManageFromMessage, Schedule/Runs
--     runNow; Schedule/Plans, Schedule/Jobs, Schedule/Startup, Schedule/Listed, Schedule/Ownership and
--     Schedule/Outcome the proofs.
--   Claude: internal/claude/interactive.go. Claude/Session collectResult, which makes a result of the
--     events of a turn; Claude/Collect the proofs.
--   Turn: the processing of one message, from process of internal/session/worker.go to the reactions.
--     Turn/Chat what a worker holds, sends and calls (with sendResult, replyError and replyCanceled),
--     Turn/Commands handleBuiltInCommands and the modes of internal/config/config.go, Turn/Prompt
--     preparePromptWithContext, Turn/Execution executeWithStreaming and finishAndSendResult,
--     Turn/Process the probe, the interception of schedules and process; Turn/Single, Turn/Kept,
--     Turn/Progress, Turn/Answers, Turn/Bracket, Turn/SecondTry and Turn/Recovery the proofs.
--   Recall: what is found of the past. Recall/Matches the merge (fuseScoredMatches) of
--     internal/session/retriever.go, Recall/Format internal/session/search_format.go, Recall/Query the
--     query text of internal/session/search.go, Recall/Search the searches on the tables,
--     Recall/Retrieve Retrieve, ToPrompt of internal/session/context_payload.go and handleSearch of
--     internal/session/worker.go; Recall/Fused, Recall/Best, Recall/Limits, Recall/Complete,
--     Recall/Grouped, Recall/Own, Recall/Recalled, Recall/Answered, Recall/Balanced, Recall/Phrases
--     and Recall/Sanitized the proofs. Recall/MemoryFiles and Recall/Memory internal/session/memory.go,
--     with Recall/SyncRows, Recall/Synced and Recall/Relevant. Recall/Summary
--     internal/session/summary.go, with Recall/AppId.
--   Heartbeat: internal/heartbeat/service.go. Heartbeat/Service the operations; Heartbeat/Loops,
--     Heartbeat/Targets and Heartbeat/Run the proofs.
--   Cleanup: internal/cleanup/service.go, with internal/workspace/session_paths.go and
--     internal/model/session_types.go. Cleanup/Service the operations; Cleanup/Selected,
--     Cleanup/Sessions, Cleanup/Removed and Cleanup/Counted the proofs.
--   Samples: the components at concrete inputs.
--
-- How it is modelled. State is passed explicitly; what a mutex guards is one step. A clock's
-- reading is an argument. A write to the database succeeds or fails as `write_ok` says of its
-- number, and changes nothing when it fails. The code that is not in the repository is a parameter:
-- UUIDs (`uuid`, `fresh`), os.Rename (`rename`), the expressions that gocron takes (`accepts`), the
-- language model (`execute`), JSON decoding (`decode_intent`, `decode_manage`), the delivery of a
-- card (the outcome of each call), the answers of Feishu to a message (`answer`), the full text
-- index of SQLite (`index_ok` the queries it takes, `ranked` its order of the rows, `index_match`
-- the rows that match, with their snippets; the join, the conditions and the limit are modelled),
-- the runes of Chinese writing (`is_han`), the look-up of a replied-to message (`lookup_parent`),
-- and lower case, case folding and word characters outside ASCII (`table`, `fold`, `is_word`).
-- Where Go or SQLite leaves an order open (the entries of a map, rows of one time, an unstable
-- sort), a function that rearranges a list stands for it (`arrange`, `visit`, `tied`, `stored`).
-- LIKE and lower are functions, as SQLite documents them. Regular expressions are functions by
-- recursion on the text.
--
-- Bounds and fuel. Counts are natural numbers. The loops over attachment markers run on fuel, one
-- round more than the text has runes; a round shortens the text, so the fuel is enough. All other
-- loops are structural.
--
-- What is not modelled. The texts of the memories are an argument of a turn, which keeps memory.go
-- apart from it. The messages around a match, which nothing reads, rows that fail to scan, the rank
-- of the full text search, reactions and UpdateCard as calls of Lark, the JSON of messages, and the
-- ticker of the heartbeat. The summary that /new makes in the background is taken to be made at
-- once. The estimated cost (a float), log lines, directories, the text of the prompts, SQL's own
-- behaviour beyond the statements used, and the second look under the lock in getOrCreateWorker,
-- which repeats the first. The Lark client, the child processes of the language model, the web
-- search, the templates of workspaces, the configuration's files and the start of the server are
-- input and output around the parts that are modelled.
pub mod Common
pub mod Card
pub mod Worker
pub mod Store
pub mod Schedule
pub mod Feishu
pub mod Manager
pub mod Claude
pub mod Cleanup
pub mod Turn
pub mod Samples
pub mod Recall
pub mod Heartbeat
