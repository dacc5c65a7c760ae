-- ===== src/Lib.antt =====
-- A model of the Python engine of resp-bench (python/src/resp_bench), a benchmark of Redis-compatible
-- servers, of the runner of its matrices, its system monitor and its graphs (scripts). The engine loads
-- a driver and a workload configuration, and for each phase of the workload opens connections, warms
-- them up, drives commands through asyncio workers, collects the results and appends one NDJSON row.
-- The runner starts an engine and a monitor for each cell of a matrix, and writes a manifest; the graph
-- scripts read the rows, the samples and the manifest.
--
-- The parts, each with the file that models it:
-- - Json, Config: a document as `json.load` returns it, the configuration classes with their defaults
--   and checks, and the loader (config/*.py). Config/Loader is `ConfigLoader`.
-- - Random: the port of java.util.Random (engine/java_random.py). Keys: the counter and the key
--   generators over it (engine/key_generator.py). A generator is its fields; the counter, which the
--   generators of a phase share, goes in and out beside it.
-- - Limiter: the rate limiter (engine/rate_limiter.py), over the readings of the clock.
-- - Command, Command/Selector: the commands, their factory and their weighted choice (command/*.py,
--   engine/command_selector.py).
-- - Client/Recording: the in-memory driver (client/impl/recording_client.py). Client/RedisPy and
--   Client/Glide: what the other two pass to their packages, which are parameters. Client/Measure: the
--   timing of an operation (client/benchmark_client.py).
-- - Metrics, Metrics/Writer: the collector and the JSON document of a row (metrics/*.py).
-- - Engine/Worker: the workers of a phase (engine/benchmark.py, `_run_workload`). A worker stands at an
--   await; a step is what one worker does from there to its next await, with the event (a reading of
--   the clock, a random number, the end of a request, of a sleep, an exception thrown in) that
--   continues it. A run is any sequence of steps of any workers, over the state that they share: the
--   request budget, the limiter, the counter, the generators of the connections and the collector.
-- - Engine/Phase: a phase as a whole (`_execute_phase` and what it calls) and the loop over the phases
--   (`run`), over what the drivers and the event loop do, which each phase is given.
-- - Engine/Setup: the metadata of the driver and `run` as a whole, over Client/Factory
--   (client/factory.py). Cli: the command line and its exit code (cli.py).
-- - Matrix: the runner of a matrix of benchmarks (scripts/run_benchmark_matrix.py), which starts an
--   engine for each of its cells. Matrix/Dimensions and Matrix/Parse read and check the configuration;
--   Matrix/Combos and Matrix/Series are `generate_series_combos`; Matrix/Server and its Preflight are
--   the flags of the CLI, the readiness probe and the check before a sweep; Matrix/Results is the run
--   directory, Matrix/Manifest the record of a run, Matrix/Generate the files of a cell; Matrix/Cell is
--   the body of the loops of `run_matrix`, Matrix/Run the loops and what stands around them, Matrix/Main
--   the whole of `run_matrix` and `main` with its exit codes.
-- - Monitor: the system monitor (scripts/system_monitor.py), which runs beside the engine of a cell: the
--   readers of /proc, and in Monitor/Samples the loop that writes a sample for each interval.
-- - Graphs: the comparison graphs (scripts/generate_graphs.py): the rows that they are drawn from, in
--   Graphs/Aggregate the averages of these, and in Graphs/Charts the charts and the script as a whole.
-- - Interactive: the interactive graphs (scripts/generate_interactive_graphs.py), up to the data that
--   are drawn. Interactive/Outliers has the four outlier tests and their consensus, Interactive/Critical
--   the critical value of Grubbs' test, Interactive/Records what is read of one file, Interactive/Points
--   the points of the curves, Interactive/Layouts the two layouts of a results directory, and
--   Interactive/Loaders the loaders of throughputs, latencies and CPU use, Interactive/Versions those of
--   the drivers' versions. Interactive/Colors, Interactive/Variants and Interactive/Assign are the
--   colours and labels, and Interactive/Traces the traces of the charts; Interactive/Main
--   is `main`, up to the call that writes the HTML. The operations of `math` and
--   `statistics` that have no definition here are those of Interactive/Numbers.
-- Prelude has the helpers that these share; the modules named Tests run the definitions.
--
-- Exceptions are values (Prelude/Results). Floats are a parameter with the operations that the code
-- uses (Floats), and so is the histogram of the hdrhistogram package (Metrics.Histograms), of which
-- Metrics/Totals.HistogramLaws states that it counts what it is given. Case mapping and white space are
-- those of ASCII. A field of a document that has another JSON type than the schema gives is outside
-- the model, and reads as `ill_typed`. Times are whole nanoseconds, microseconds or milliseconds, as
-- the comments say, in place of float seconds. Prelude/Paths and Prelude/Glob are the parts of pathlib
-- and fnmatch that the runner uses. The file system, the processes, `repr` and the text of floats and
-- containers are given to the runner (Matrix.Host, Matrix.Run.World, Matrix.Cell.CellWorld).
--
-- Fuel: the rejection loop of the random port takes one unit for each draw. Half a period of the
-- generator's low bits is enough for a bound up to 2 ^ 31, and no fuel is enough for the larger bounds
-- that the code also takes; a draw that runs out says so. Decimal digits take fuel above their number.
-- All other loops are structural: on the list that they run over, or on the number of steps.
--
-- Not modelled: argparse and what is printed; the pacing of connects and the log lines of a phase;
-- writing the row's text to its file; the monitor's thread and clock; drawing the charts of the graph
-- scripts and their HTML, with the builders of traces that nothing calls; the engines in other languages.
mod Prelude
pub mod Floats
pub mod Json
pub mod Config
pub mod Random
pub mod Keys
pub mod Limiter
pub mod Command
pub mod Metrics
pub mod Engine
pub mod Client
pub mod Matrix
pub mod Cli
pub mod Monitor
pub mod Graphs
pub mod Interactive
