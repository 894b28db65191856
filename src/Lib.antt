-- ===== src/Lib.antt =====
-- A verification of icinga-go-library, the Go packages that the Icinga daemons share.
--
-- The parts, and the files that model them:
--   - backoff (backoff/backoff.go, Backoff): NewExponentialWithJitter and jitter. Int64 is written out
--     where the shift can overflow; the random choice is an argument.
--   - retry (retry/retry.go, Retry): WithBackoff. A round of its loop is a function of what the environment
--     does in it: the outcome of the function, the context, the timer and what ends the sleep. Retryable, on
--     chains of errors, each link with what errors.As and errors.Is ask for. Messages: what is
--     logged of retries.
--   - com (com/bulker.go, com.go, cond.go, counter.go; Com): the bulker as a step function on the events of
--     its select, with any split policy; the short cut for chunks of one; CopyFirst, whose goroutine is
--     interleaved with the reader; WaitAsync; the condition and the counter as step functions on their
--     requests and on their atomic steps.
--   - periodic (periodic/periodic.go, Periodic): Start, its goroutine and Stop as a step function on what the
--     selects receive.
--   - objectpacker (objectpacker/objectpacker.go, Objectpacker): the packer on any io.Writer, with errors and
--     panics. Tree holds the format of the comment of PackAny, Decode a decoder for it, Meaning and PackAny
--     the connection of the two. fmt.Sprint, which prints the keys of maps, is a parameter.
--   - database (database/db.go, driver.go, config.go, utils.go, column_map.go; Database): the configuration,
--     how it becomes a connection (Open), the connector on top of retry (Connector), the texts of the
--     statements, the streaming operations (which take their first entity by CopyFirst, and their chunks by
--     Bulk), what is done with a chunk under WithBackoff, the goroutines of the chunks (Exec/Pool), transactions,
--     YieldAll, the log on top of periodic and the counter (Log), the semaphores of the tables and the cache of
--     the columns. What the database and the driver answer is an argument.
--   - structify (structify/structify.go, Structify): the tree that is built of a type, and how a map is led
--     through it; a struct is the list of its fields, each with whether it is exported, its tag and its value.
--     Fill is a structifier without a tree.
--   - flatten (flatten/flatten.go, Flatten), on nested values whose maps are lists of pairs in the order of
--     the visit; Paths describes the keys by paths.
--   - config (config/config.go, Config): the order of the checks of files, environment and flags, with the
--     packages that read them as arguments; config/tls.go (Tls): MakeConfig, with the files as an argument.
--   - logging (logging/logging.go, logger.go, config.go; Logging): the children of a root logger and the
--     configuration; the core of logging/journald_core.go with the keys of its fields (Journald).
--   - redis (redis/config.go, streams.go, client.go; Redis): the configuration and the streams; Client has the
--     options of the third-party client, HMYield and XReadUntilResult, with the replies as an argument.
--   - types (types/binary.go, bool.go, string.go, int.go, float.go, unix_milli.go; Types), strcase
--     (strcase/strcase.go, Strcase) for any classification of runes, utils (utils/utils.go, Utils) and version
--     (version/version.go, Version), with what the build and the files hold as an argument.
--
-- Prelude holds what they share: tests and lists over the native numbers, integers, texts and results.
-- Strconv has the functions of Go's strconv that print and parse decimal integers. Examples holds concrete
-- inputs.
--
-- Correspondence. A Go function has the snake_case name of the original; a loop is a recursion on the list of
-- what happens in its rounds; a goroutine is a step function, and a run of it a list of events, so that a
-- statement for all lists is one for all interleavings. A panic is `none` or a constructor of the outcome.
-- The loop of BatchSliceOfStrings takes the number of keys as its fuel, which suffices since each round passes
-- over at least one key; the decoder of the packer's format takes the depth of the tree.
--
-- Not modelled: the goroutines of HMYield with their semaphore, of which only what is done with each batch is;
-- sending to journald; UUIDs; exiting, checksums and the classification of deadlocks of utils; the helpers
-- for tests. They are calls of the drivers and of Go's packages around the parts above.
pub mod Prelude
pub mod Backoff
pub mod Retry
pub mod Com
pub mod Config
pub mod Database
pub mod Flatten
pub mod Logging
pub mod Objectpacker
pub mod Periodic
pub mod Strcase
pub mod Strconv
pub mod Structify
pub mod Journald
pub mod Utils
pub mod Types
pub mod Version
pub mod Examples
pub mod Tls
pub mod Redis
