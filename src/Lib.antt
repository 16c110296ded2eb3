-- ===== src/Lib.antt =====
-- MetricBench: a benchmark that loads rows of metrics into a database from several threads and
-- reports the latencies of its operations. This library models its parts and proves what makes
-- each of them correct.
--
-- The main thread (src/metricbench.cpp) prepares the run, and `Preparer` pushes one message per
-- timestamp, device and table to the queue `tsQueue`. Worker threads of a driver take the
-- messages and execute them; each operation's latency goes to `LatencyStats`, which the main
-- thread prints after it has joined the workers.
--
-- - Prelude: names of the library, Boolean tests and their lemmas, arrays as functions, the
--   integers of C++ over the native numbers (`int32` is the wrap-around), and `Double`, the
--   operations on `double` as a parameter with the two facts that are used of them: integers
--   below 2 ^ 53 are exact, and so are the operations whose results are such integers.
-- - Message: src/Message.hpp and src/Message.cpp. Weights sums a weight over messages.
-- - Config: src/Config.hpp and src/Config.cpp, the settings that the other parts read, as a
--   record.
-- - RunningMean: src/RunningMean.hpp and src/RunningMean.cpp.
-- - LatencyStats: src/LatencyStats.hpp and src/LatencyStats.cpp. Buckets has `latencyToBucket`
--   and `bucketBound`, State the object with `recordLatency`, `calcMeans`,
--   `calcCumulativeBuckets` and `getBucketBounds`, Output the rows that are printed. History is a
--   sequence of calls of `recordLatency`.
-- - SampledStats: src/SampledStats.hpp and src/SampledStats.cpp. State has the object and
--   `addStats`, whose two random draws are arguments, Output the sorted display. The counters are
--   natural numbers.
-- - Stats: src/Stats.hpp and src/Stats.cpp, the counts of an interval and the rows that are
--   printed.
-- - TsQueue: src/tsqueue.hpp. Each operation holds the mutex, so each is a function; a wait is a
--   condition.
-- - Workers: the loop of `InsertData` in src/MySQLDriver.cpp and the end of `main` in
--   src/metricbench.cpp, as a step relation over any number of workers and the main thread,
--   interleaved in any order. What a message does to the database is left out there.
-- - Fleet: the same threads of src/MySQLDriver.cpp with what a message does: `InsertQuery` and
--   `DeleteQuery`, the statistics that they record, the displays in and behind the loop, an
--   exception that ends the program, and the thread of src/Stats.cpp that takes the messages of
--   `statQueue`. The table, the timestamp and the device of a message go into the text of the
--   statement only, which Sql has. Contract is what the threads promise, said without their loop,
--   and Implements relates the two; Refinement relates Fleet to Workers. Display and Streamed are
--   about a run that shows its statistics. Selecting has the thread of `SelectData`.
-- - Drivers: the object of src/GenericDriver.hpp, and the threads that `Prep` and `Run` of the
--   three drivers start.
-- - Endless: the threads of src/MongoDBDriver.cpp and src/CassandraDriver.cpp, whose loops have
--   no end, beside the main thread, as a step relation. How many of the threads are joined is a
--   parameter. Serving has `InsertData` of both, over the messages that a thread pops.
-- - Preparer: `Prep` and `Run` in src/Preparer.cpp, as the sequences of their events on the
--   queue. Channel runs such a sequence beside threads that pop. Progress has the thread that
--   prints the progress, and the counter that it reads.
-- - Metrics: the loop that draws the rows of `InsertQuery`, in src/MySQLDriver.cpp,
--   src/MongoDBDriver.cpp and src/CassandraDriver.cpp; the draws are a list.
-- - MySqlDriver: src/MySQLDriver.cpp. Ranges has `getTimestampRange` and `getDeviceRange`, where
--   the answers of the database are a function of the table; Queries has what `InsertQuery`,
--   `DeleteQuery` and `SelectQuery` record once their statements run, where success or failure
--   and the time are an argument.
-- - Text, Sql: the statements of `InsertQuery`, `DeleteQuery`, `SelectQuery` and of the ranges, as
--   lists of bytes, and a reader of what `InsertQuery` writes. How a `double` is written is a
--   parameter.
-- - Schema: `CreateSchema` of the three drivers, the calls to the database in their order; which of
--   them succeed is an argument. That of MongoDBDriver parses its address first.
-- - Pareto: src/pareto.hpp, over the operations on `double`; a draw is an argument. What the
--   distribution, `std::pow` and the division promise is the hypothesis `IsPowerLaw`.
-- - Uri: src/Uri.hpp and src/Uri.cpp; a string is a list of bytes, an iterator an index, and a
--   range whose end lies before its start a failure.
-- - Main: `main` in src/metricbench.cpp from the parsed options on, and the level test of
--   src/Logger.hpp. Defaults has the options that are left out.
-- - MongoDriver: src/MongoDBDriver.cpp. Connection has `getConnection` up to the client library,
--   Inserts `InsertQuery`, Ranges `getTimestampRange`.
-- - CassandraDriver: `InsertQuery` and `getTimestampRange` of src/CassandraDriver.cpp.
--
-- The loops of `Prep` and `Run` add 60 to a 64-bit timestamp. Their fuel is LoadMins + 1 rounds
-- and one draw of the generator for each minute; the theorems say under which bound of the
-- timestamps that is enough. The scan of the tables runs for one round more than there are
-- tables.
--
-- Not modelled: the connections of the drivers and what the databases do with a statement (its
-- outcome is an argument), the printing and its formats, the option parser, the random generators
-- (their draws are arguments), and the memory model below the mutexes: `processingComplete` is read
-- and written as one value. An overflow of an `int` that the program leaves undefined is left out.
pub mod Prelude
pub mod Message
pub mod Config
pub mod RunningMean
pub mod LatencyStats
pub mod SampledStats
pub mod Stats
pub mod TsQueue
pub mod Workers
pub mod Fleet
pub mod Text
pub mod Schema
pub mod Sql
pub mod Pareto
pub mod Drivers
pub mod Endless
pub mod Preparer
pub mod Metrics
pub mod MySqlDriver
pub mod Uri
pub mod Main
pub mod MongoDriver
pub mod CassandraDriver
