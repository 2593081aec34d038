-- ===== src/Lib.antt =====
-- Verification library for usher (sr-code), a Go program that watches and drives coding-agent
-- sessions (Claude Code, Codex, Pi and others) from a web dashboard, Telegram and Lark.
--
-- The program's parts. `cmd/usher/main.go` wires them. Discovery finds the sessions on disk, the
-- backends (claudestream, appserver, pi, ...) run one agent process each and turn its output into a
-- transcript, the router sends a user's message to the right backend, and every backend tells the
-- broker what happened. The broker fans events out to the browsers and the hubs. A tool call that
-- needs permission goes through the hook manager, which blocks the agent until some client answers.
-- The session metadata store keeps what users say about sessions (archived, pinned, title), the auth
-- package guards the login, and the hubs cut long answers into messages of the length that a chat
-- service takes.
--
-- Files. Each module models the Go file named beside it; functions keep the names of the Go
-- functions in snake case, and a Go method takes its receiver last.
--   Prelude        tests, lists, Go maps (Prelude.Dict), integers, and what the sources use of the
--                  packages strings and strconv (Prelude.Strings).
--   Imutil         internal/imutil/imutil.go: SplitMessage, lastNewline, Truncate, ShortID.
--   Auth.Limiter   internal/auth/auth.go: Limiter with Acquire, OnFailure, OnSuccess, gcLocked.
--   Sessionmeta    internal/sessionmeta/store.go: the whole store, with its file.
--   Broker         internal/broker/broker.go: Subscribe, SubscribeAll, cancel, Publish, HasViewers.
--   Hook           internal/hook/hook.go: submit, Respond, List, the auto-approve flags
--                  (Hook.AutoApprove), calls of submit and of Respond at once (Hook.Calls), and the
--                  notification of subscribers (Hook.Notify).
--   Jsonl          internal/jsonl/jsonl.go and internal/core/transcript.go: the lines and parts of
--                  a transcript; Jsonl.Assembler has Feed, FeedLineParts, Flush and ReadTurns.
--   Jsonl.Fork     internal/jsonl/fork.go: ForkCopy and forkPrefix.
--   Claudestream   internal/claudestream/manager.go: the turns of one child process, with Send,
--                  handleLine and died; Claudestream.Pool: the live children, with ensure.
--   Telegram       internal/telegram/store.go: the map between sessions and forum topics
--                  (Telegram.Topics).
--   Router.Queue   internal/router/router.go: the turn of each session and the queue of sends behind
--                  it (enqueueSend, startTurn, markSendIdle, releaseSend, flushSendQueue,
--                  CancelSend, stopLive, beginNewSession).
--   Telegram.Asks  internal/telegram/ask.go: the questions that wait (putAsk, takeAsk,
--                  takeAskByThread).
--   Telegram.Hub   internal/telegram/hub.go, ask.go and format.go: handleInbound, handleCallback,
--                  handleAskCallback and answerByText, over Telegram.Asks, Telegram.Topics and Hook.
--   Router.Foreign internal/router/foreignwatch.go: checkForeignTurn and lastFileLine, for one session.
--   Auth.Totp      internal/auth/totp.go: the secret, its codes, and its file.
--   Sender.Tail    internal/sender/tail.go: openWhenReady and tailTurn, byte by byte.
--   Appserver.Workers
--                  internal/appserver/manager.go: the workers of the Codex sessions.
--   Router.Search  internal/router/router.go: pageBounds, foldFindAll, foldEqualAt, snippetAround.
--   Codexrollout.Fork
--                  internal/codexrollout/fork.go: ForkCopy.
--   Pi.Fork        internal/pi/fork.go: forkRPCCommand.
--
-- How the code is modelled.
--   - A method that changes its receiver returns the new state. A mutex makes each critical section
--     one step; where a method leaves its critical section in the middle (hook's submit, Respond and
--     notifyPending), the model has one definition for each side, and the steps interleave freely.
--     hook's submit has its select and its deferred deletion as two steps, Respond its lookup and its
--     send. Telegram.Hub uses Respond whole, without steps of others between.
--   - A Go map is an association list; what is proved of every list holds for every order in which
--     `range` visits the entries. A missing key reads as the zero value, written out.
--   - A pointer into shared memory (the broker's subscribers) is a number in an explicit heap. A
--     panic (a send on a closed channel, a second close) is `none`.
--   - A time is a number of nanoseconds since Go's zero time; each reading of the clock is an
--     argument of its own, so that concurrent callers and slow calls are covered. Go's Duration
--     arithmetic is far from its bounds of 2^63 here, and integers are mathematical.
--   - A file is what it decodes to; whether a write succeeds is an argument, and so is what a failed
--     write leaves where the code writes in place. encoding/json and the file system are not modelled.
--   - Fuel: split_loop runs on the length of the text, which suffices since each chunk takes at
--     least one rune.
--   - A line of a session file is its decoded JSON (Jsonl.Event); a field that is missing is empty.
--   - A `done` channel is an answer that is given once: finish panics on a second one.
--   - A sendToken is a number, and the goroutine that has it is an executor of Router.Queue. A
--     critical section of sendMu is one step; the launch of a turn after the lock is another.
--   - Router.Foreign marks each byte of the log with its writer; usher's turns write only while the
--     session counts as running, and the log only grows.
--   - The loop of foldFindAll runs on the length of the text and one more, which suffices since each
--     round moves on by at least one rune.
--   - The walk of forkRPCCommand runs on the number of entries and two more, which suffices since no
--     entry is passed twice.
--   - Appserver.Workers counts, beside the manager's state, the callers that hold a place; the look of
--     reserve over all workers is one step, since it holds mu throughout.
--   - A run of openWhenReady is the list of its rounds so far; it waits on if none of them ends it.
--   - Claudestream.Pool looks whether a child is busy and takes it out in one step, where ensure gives
--     the child's lock up in between. The steps of Router.Queue begin a new session under a fresh id.
--
-- Not modelled: HTTP, JSON coding, process control and pseudo-terminals, the SQLite and Lark
-- libraries, the front end, and the backends and hubs that the list above does not name.
pub mod Appserver
pub mod Auth
pub mod Broker
pub mod Claudestream
pub mod Codexrollout
pub mod Hook
pub mod Imutil
pub mod Jsonl
pub mod Pi
pub mod Prelude
pub mod Router
pub mod Sender
pub mod Sessionmeta
pub mod Telegram
