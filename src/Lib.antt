-- ===== src/Lib.antt =====
-- evident-output: a Go library that schedules the Tasks of a command, and presents what they did.
--
-- This development models the parts of it that decide: who may touch a resource and when, what a
-- patch may change, what a finished command's outcome and exit code are, and what a recovery may
-- delete. The parts and the files that model them:
--
-- - internal/resource: exclusive and shared claims on paths and names. `Resource.Key` is `Key` and
--   `overlaps` of resource.go; `Resource.Claim` and `Resource.Registry` are the registry of
--   registry.go, each of whose methods runs under one lock and is one function of the model
--   (`admitLocked` is `admit_locked`, and so on); `Resource.Hold` is a whole acquisition (`hold`,
--   `acquire`, `CheckFree`). `Resource.Rescan` sets the scan of a release against a plain pass over
--   the queue, `Resource.Exclusion` holds the invariant, `Resource.Run` the interleavings of
--   goroutines, and `Resource.Leak` the paths through an acquisition. `Resource.Resolve` is the
--   resolver of resource.go, and `Resource.HoldResource` the whole of
--   `HoldResource`.
-- - internal/patch: `Patch.Hunk` is the application of hunks (hunk.go), `Patch.HunkParser` their
--   parser, `Patch.Header` the sections of a diff (header.go), `Patch.Judge` what a header may ask
--   for (header.go and standard.go), `Patch.Target` the paths that it may name, and `Patch.Parser`
--   the loop over sections (patch.go). `Patch.Lines` and `Patch.Edits` describe an edit as a
--   relation on lines, `Patch.Reverse` turns it round, and `Patch.Counts`, `Patch.Sections`,
--   `Patch.Judged` and `Patch.Whole` follow a diff through the parser. `Paths` has Go's
--   `path.Clean`, which the paths are judged by.
-- - internal/core: `Core.State` and `Core.Snapshot` are the values of a run, `Core.Conclusion` is
--   conclusion.go, judged by `Core.Verdict`; `Core.Tally` is tally.go, with `Core.Partition` and
--   `Core.Shares`; `Core.ChildTally` is child_tally.go, with `Core.Counting`.
-- - internal/engine: `Engine.CollectionTally` is collection_tally.go, which a Task that starts after
--   a Group or a Sequence reads, with `stateOutcome` of eligibility.go. `Engine.Readings` and
--   `Engine.Declared` say what its cached fields stand for, `Engine.Wakeups`,
--   `Engine.Accounted` and `Engine.Woken` who is woken and who stays parked. `Engine.Eligibility` is the reading of a
--   Task's predecessors in eligibility.go (`outcomeLocked`, `predsOutcomeLocked` and what they
--   call), `Engine.Verdicts` what the scan answers, `Engine.Kept` what it forgets,
--   `Engine.Ungated` what a closed edge does not read, and
--   `Engine.Depth` how deep the entries of collections lead. `Engine.Cycle` is cycle.go, the search
--   for Tasks that wait for each other; `Engine.Waiting`, `Engine.Ranked`,
--   `Engine.Rounds` and `Engine.Walked` follow its walk.
-- - internal/engine, the scheduler: `Engine.Schedule` is where a Task stands (task_schedule.go), how it
--   is placed and how it settles (eligibility.go, settle.go), with the worklist of wake-ups;
--   `Engine.Chains` is the loop over a collection and those around it, and `Engine.Operations` the
--   steps under the lock of the Output (declare.go, execution.go, task_resolve.go, cycle.go,
--   builder.go). `Engine.Blockers`, `Engine.Unresolved`, `Engine.Awaited`, `Engine.Watched`,
--   `Engine.Routed`, `Engine.Placed`, `Engine.Framed`, `Engine.Retallied`, `Engine.Rested`,
--   `Engine.Claimed` and `Engine.Unmissed` follow who waits for what through each step;
--   `Engine.Effects`, `Engine.Drained`, `Engine.Returned`, `Engine.Completed` and `Engine.Taken` that the step returns;
--   `Engine.Scheduled` puts them together, and `Engine.Attended` adds what `Engine.Opened` follows, the
--   membership that an open edge reads. `Engine.Recalled`, `Engine.Ordered`, `Engine.Begun`,
--   `Engine.Reordered` and `Engine.Started` follow the order in which Tasks start, `Engine.Rule` is
--   a proof rule for the phases and the tallies, which `Engine.Counted` applies to the count of parked
--   Tasks and `Engine.Opened` to the open edges, and `Engine.Scenarios` runs small programs.
-- - internal/fingerprint: `Fingerprint.Value` is value.go, the bytes of a typed value, judged by
--   `Fingerprint.Collisions`.
-- - internal/render: `Render.ZeroInformation` is zero_information.go with the test of internal/core, the
--   rows that human output leaves out, judged by `Render.Hidden` with `Render.Silent`.
-- - internal/text: `Text.Sanitize` is sanitize.go, judged by `Text.Shown`; `Text.Width` is the width
--   and the truncation of plain text in width.go, judged by `Text.Truncated`.
-- - internal/publish: `Publish.Decide` is what a recovery after an interrupted commit decides
--   (recover_decide.go), `Publish.Apply` carries it out (recover.go), `Publish.Inspect` is the whole
--   recovery (`Recover`, `PlanRecover`), and `Publish.Safety` and `Publish.Settled` say what is
--   deleted, kept and left. `Publish.Commit` is `Commit` of commit.go with each state that the file
--   system passes through; `Publish.Disk` says what it relies on, `Publish.Swap`,
--   `Publish.RollBack` and `Publish.Crash` follow a commit that may be killed at any time, and
--   `Publish.Resumed` the recovery after it. `Publish.Removal` is `Remove` of commit.go.
--
-- The engine calls the registry for a Task that claims a resource, and hands the snapshot of a
-- finished run to core; the patch and publish packages are called by Tasks that change files. Those
-- callers are not modelled.
--
-- Conventions. A text whose bytes matter is a list of numbers, other texts are native strings. A
-- moment is a number, 0 where Go's `IsZero` holds. An error keeps the kind that it wraps, and not
-- its message. The identity of a pointer to a hold is a number. Numbers of the source stay far
-- below the bounds of `int`, and where the parser relies on a bound, in `strconv.Atoi`, it is
-- written out. Paths are those of Unix.
--
-- Fuel. A loop over the queue, the lines or the records is a recursion on a list. The loops of the
-- patch parser that read several lines in a round have fuel: one more than the lines of the diff,
-- and each round takes a line at least, so the fuel does not run out. The outcome of a collection
-- has fuel for the collections that answer for each other's entries; it is enough where it exceeds
-- the depth of their nesting. The walk of cycle.go has fuel for its rounds; it is enough where it
-- exceeds the vertices and edges of the graph. The drain of the worklist and the search for a Task to
-- start have fuel for their rounds; some amount of it is always enough, and more changes nothing. Resolving a path has fuel for its ancestors.
--
-- Outside the source: `strconv.QuotedPrefix` and `strconv.Unquote` are the parameter `unquote`, and
-- the operating system under a recovery is the record `FileSystem`, whose tree digests, renames and
-- removals are arbitrary. Under a commit it is the record `Disk`, with the laws `IsDisk` that the
-- documentation of the calls promises. The tables of package unicode are the record `Tables`,
-- and package filepath is the record `FilePaths`. A float of package math
-- is the 64 bits of its double, and a time of package time its nanoseconds.
--
-- Not modelled: the goroutines that wait on the engine's scheduler, the rest of presentation,
-- terminals, styled text, the stores of manifests, the fingerprints but for values, the staging of
-- files and its locks, downloads, and the review tooling under internal/agent.
pub mod Prelude
pub mod Paths
pub mod Patch
pub mod Resource
pub mod Text
pub mod Core
pub mod Render
pub mod Publish
pub mod Engine
pub mod Fingerprint
