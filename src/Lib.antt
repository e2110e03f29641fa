-- ===== src/Lib.antt =====
-- wombat-go is a ReAct agent harness in Go: an agent loop that sends a transcript to a chat model,
-- dispatches the tool calls that come back, and appends their results to the transcript.
--
-- Parts and files. Llm is the vocabulary of llm/llm.go (messages and content blocks). Convo is
-- convo.go: the transcript as a list of messages, `Append`, the Push helpers, `Dangling`,
-- `CloseDangling`, `Lookup` and `Validate`. Strategy is strategy.go: which part of a transcript is
-- sent with a call (`SafeCut`, `SlidingWindow`, `SlidingWindowAt`, `DropPairs`, `DropTagged`,
-- `Compacted`, `Sequence`).
--
-- Overflow is overflow.go: the middleware that shortens a request which outgrew the context window.
-- The wrapped client is an argument, a function of the number of requests sent. Its loop has fuel,
-- one unit more than the ladder has rungs, and never runs out of it. Reading another run's level in
-- the middle of a call is not modelled.
--
-- Tool is what the policies read of tool/tool.go. Paths has the functions of Go's strings and
-- path/filepath that they use, for Unix. Permission is permission/policy.go, Permission/Rules is
-- permission/rules.go without `AllowHosts`, Permission/Shell is permission/safe.go and
-- Permission/Gate is permission/gate.go with grants.go and the events of events.go. A rule gets a
-- request and returns a verdict with its reason, whose text is a constructor with its arguments; it
-- gets no context, which no rule of the repository that is modelled here reads.
-- `json.Unmarshal`, `json.Compact`, the approver and the cancellation cause are arguments. Locks,
-- logging and the rendering of texts are left out.
--
-- Governor is governor/governor.go: the shared budget. Its mutex makes each method one step, so every
-- interleaving of sub-agents is a list of acts. The money type is an argument with the operations
-- that the code uses on float64.
--
-- Tool/Dispatch is tool/dispatch.go. What each call ends with is an argument; in Tool/Dispatch/Parallel
-- the calls take turns, in any order that the semaphore lets them, and each turn is a step of a handler
-- on a world that all calls share. A panic is an end like another, and durations are left out. Run is run.go: `Resume` and the functions it chooses from, and the
-- agent loop over a `World` (the end of the context, the client's replies, the tools). The loop is
-- recursion on the iterations that are left, so it always ends. A tool set is a fixed function from
-- names to tools; events, spans, metrics and the reconciliation of skills are left out.
--
-- Retry is llm/errors.go and the retry middleware of llm/middleware.go: the classification of failures,
-- the schedule of the waits, whose shifts keep the wrap-around of an int64, and the loop. The client,
-- the end of the context, `strings.ToLower` and what the jitter adds are arguments; a wait with its jitter is
-- a sum without wrap-around.
--
-- Exchange is `WithValidation` of the same file: what it refuses to send and to pass on. `json.Valid` and
-- the wrapped client are arguments.
--
-- Sse is llm/internal/sse/sse.go: the reader of an event stream over the bytes of a body, with the
-- error that ends the body, if any. Sse/Printing writes streams in the same format. A client's loop
-- over `Next` has fuel, one unit more than the body has lines, since each event but the last takes
-- one. The longest line that the scanner takes is an argument.
--
-- Buffered is buffered.go: the draining goroutine, one follower and its context, scheduled in any way,
-- as a list of acts. The mutex makes an append, the end of the run and a look at the buffer one step
-- each. `Outcome`, `Err` and `Close` are left out.
--
-- Middleware is tool/middleware.go with the fault classes of tool/fault.go: validation, timeouts, the
-- circuit breaker (Middleware/Breaker), the repeats of a failing call (Middleware/Repeats), the
-- clipping of outputs on the boundary of a rune (Middleware/Clipping) and retries (Middleware/Retrying).
-- The clock, the wrapped handler, the decimal of a number and what a wait returns are arguments. Logging
-- is left out, and so is how long a retry waits.
--
-- Tape is tape/tape.go and the half of tape/middleware.go and tape/codec.go that records and replays
-- tool calls; JSON and the key of a call are arguments, and the file is a list of lines. The half for
-- model calls is left out.
--
-- Approvals is httpapi/approvals.go: the queue of calls that wait for a human. Requests, answers,
-- cancellations and the end of the session are a list of acts, in any order.
--
-- Session is httpapi/session.go: a conversation of many turns over the agent loop, as a list of prompts,
-- events, ends of runs, cancellations and drops, in any order. The pump of a turn runs while its
-- `cancel` is set. Following the log, times, spend, error texts and httpapi/manager.go are left out.
--
-- Skill is skill/state.go, skill/registry.go, skill/bind.go and skill/tools.go: which tools a model is
-- offered, which calls are let through, and when a loaded skill is retired. The file format of
-- skill/skill.go, the index that the prompt shows and the schemas are left out.
--
-- Not modelled, because they are input and output around these parts: the adapters of the model
-- providers, the HTTP handlers, the commands, metrics, tracing and the built-in tools.
pub mod Common
pub mod Llm
pub mod Convo
pub mod Strategy
pub mod Overflow
pub mod Tool
pub mod Paths
pub mod Permission
pub mod Governor
pub mod Run
pub mod Retry
pub mod Sse
pub mod Buffered
pub mod Middleware
pub mod Tape
pub mod Approvals
pub mod Skill
pub mod Session
pub mod Exchange
