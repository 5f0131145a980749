-- ===== src/Lib.antt =====
-- The evaluation core of skill-up: the event protocol of an evaluation run, the lifecycle that
-- publishes it, the plan of tasks, the event stream of the command line, the expectations and rules
-- that judge a case, its attempts, and the small decision procedures around them.
--
-- Parts and files:
--
--   Event, Event/Validate       internal/evalevent/event.go. Payloads are records, the sealed
--                               interface is a data type, and each `validate` method is a function
--                               to an optional error. A `string` type with constants is a data type
--                               with a constructor `other` for the strings that are no constant.
--   Publisher, Publisher/...    internal/evalevent/publisher.go. `publish_event` is `publishEvent`:
--                               `publish_refusal` is what it checks, `settle` what it does with the
--                               sink's answer. The field `delivered` is the log of what the sink took.
--   Lifecycle, Lifecycle/...    internal/evalevent/lifecycle.go. `start`, `set_phase`, `heartbeat`,
--                               `iteration_started`, `case_started`, `case_completed`,
--                               `iteration_completed` and `finish` are the exported methods. Each is
--                               its guards (`check_...`), its change of the progress (State), and its
--                               publications. Planning is `snapshotPlan` and `ValidatePlan`.
--   Planner, Planner/...        internal/evaluator/plan.go: `BuildPlan`.
--   Stream, Stream/...          internal/cli/run_events.go: flags, event plans, the opening and the
--                               closing of the stream, and the observer of the evaluator.
--   Lifecycle/Heartbeat, ...    the goroutine of the heartbeat and the wait of `Finish` for it, as a
--                               step relation over the lifecycle.
--   Judge, Judge/...            internal/judge/judge.go (verdicts, paths: Judge/Files) and
--                               internal/judge/factory.go (the merge of configurations).
--   Judge/Expect, ...           internal/judge/expect.go: `check_expect` is `CheckExpect`.
--   Judge/Rules, ...            internal/judge/rule_based.go: a rule's evaluator gives a Boolean and a
--                               reason, which stands for the texts of the assertion; the choice of the
--                               evaluator and the judge are in Judge/Rules/Evaluate.
--   Judge/Interpreter, ...      internal/judge/interpreter.go: the first line of a script.
--   Evaluator/Expectations, ... internal/evaluator/evaluator.go: expectations over the defaults.
--   Evaluator/Grading, ...      the same file: pre-check, judge and report of a case.
--   Evaluator/Retry, ...        the same file: attempts, timeouts and delays.
--   Runner, Runner/Fresh        internal/runner/runner.go: the number of the next iteration.
--   Config, Config/Lookup       internal/config/mcp_merge.go.
--   Config/Expect               internal/config/schema.go: the expectations of a case.
--   Multiturn, ...              internal/evaluator/multiturn.go: post-conditions and the status of a
--                               conversation.
--   Shellquote, ...             internal/shellquote/shellquote.go.
--   Base, Base/...              numbers, byte strings, lists, maps as lists of entries, results.
--
-- How they interact: the stream expands the plan of the evaluator into an event plan, opens a
-- publisher on a sink, gives both to a lifecycle, and turns the evaluator's callbacks into calls of
-- the lifecycle. The lifecycle hands payloads to the publisher, which validates them, numbers them
-- and hands events to the sink.
--
-- Concurrency: every exported method of the publisher and of the lifecycle holds its mutex for its
-- whole length, so a method is a function from a state and its arguments to a state and an error,
-- and the calls of several goroutines are a list of calls, in any order. The heartbeat's goroutine
-- is one more source of calls of `heartbeat`; the wait of `Finish` for it happens before its lock.
-- Lifecycle/Heartbeat has both as steps: reading the flag, asking for the stop, a tick, a heartbeat,
-- the goroutine's end and the end of the wait.
--
-- Numbers: counters of type `uint64` are natural numbers with `add_u64` and `sub_u64`, which wrap
-- around at 2 ^ 64. The `int` values of a plan are integers that wrap around at 2 ^ 63. Strings are
-- lists of bytes. Instants are nanoseconds from a common origin; a clock is a function from the
-- number of earlier readings to an answer. A pass rate is a fraction, before it is
-- rounded; a division by zero is NaN or an infinity.
--
-- Fuel: only the decimal digits of a number are computed on fuel, which is one more than the number.
--
-- Parameters: the sink with its answers, the UUID package, the clocks, the errors of a context, the
-- opening of the log's file, the identity of error values, the file system with the functions on
-- paths, regular expressions, the printing and scanning of texts by `fmt`, the judge that a
-- configuration gives, and the results of the attempts of a case. `range` over a Go map goes in the order of the entries
-- of a list.
--
-- Not modelled: the checks of the log's path, files, processes, network services and agents; the
-- script and agent judges; the preparation of a case's runtime, the driver of the runner, the
-- reports and the configuration files.
pub mod Base
pub mod Event
pub mod Publisher
pub mod Lifecycle
pub mod Planner
pub mod Stream
pub mod Judge
pub mod Evaluator
pub mod Runner
pub mod Config
pub mod Multiturn
pub mod Shellquote
