-- ===== src/Lib.antt =====
-- Verification of limiz, an exporter of machine metrics and of an inventory in Go. All paths are from the
-- repository's root; where a definition stands for a function, it has the function's name in snake case.
--
-- The parts of the program and how they interact. Collectors produce metrics, and internal/collectors
-- keeps them in a registry, which writes the Prometheus text format. A plugin is a binary that prints this
-- format: it is verified against a list and a signature (plugin_verify.go), run (plugin_exec.go) and its
-- output parsed (plugin_parser.go), and it is then a collector like the others. internal/datas does the
-- same for the inventory, whose providers give JSON, with a cache in front. cmd/sign-plugin makes the keys
-- and signatures that the verifiers accept. internal/localwriter writes the metrics of the registry to
-- rotated files at intervals, and internal/monitor logs how long collections take, in files of a day, and
-- prints a summary of them. On Windows the program runs as a service, and internal/winsvc installs,
-- starts and stops it.
--
-- Base, Strings, Strconv, Time, Filepath, Floats and Disk are what the program uses of Go: texts are lists
-- of code points, maps are association lists in the order in which they are visited, an int64 is an
-- integer whose wrap-around is written out, and float64 is an abstract type with its operations. Disk has
-- the files that are written to in lines; a call on it fails where a path is locked. A time is a number of
-- nanoseconds or of seconds, and the clock's readings are arguments.
--
-- Collectors/Metric and Registry are internal/collectors/registry.go (`Register`, `CollectRaw`,
-- `Collect`), with the state of the machine threaded through the collectors. Collectors/Parser is
-- plugin_parser.go, each loop a function over the list of lines or characters. Collectors/Verify is
-- plugin_verify.go, Signing what it reads of internal/signing; SHA-256, Ed25519 and base64 are given.
-- Collectors/Plugin is plugin_exec.go and plugin_config.go: `collect` returns the metrics, the state of
-- `logSecOnce`, the state of the machine, and the runs and log lines as events (Plugins).
-- SignPlugin is cmd/sign-plugin/main.go over a store of files.
-- Monitor/Store and Dates are the writing half of internal/monitor/store.go, Monitor/Reader its reading
-- half: a file is the list of the items that `json.Decoder` meets in it. Monitor/Summary, Hourly and Cli
-- are internal/monitor/cli.go, up to the layout of the printed lines.
-- LocalWriter/Writer and Intervals are internal/localwriter/writer.go, LocalWriter/Jsonl is
-- backend_jsonl.go and selector.go. The loop runs on a list of events: ticks, and the stop.
-- Datas/Category, Registry and Cache are internal/datas/registry.go, Datas/Plugin is plugin_verify.go,
-- plugin_exec.go and plugin_config.go there. The goroutines of the cache are one sequence of collections,
-- in any order; Datas/Cache/Loops has the goroutines themselves, which `Start` launches and `Stop` ends, with
-- a list of moves as the schedule. Datas/Ports, ProcNet and Linux are providers_linux.go over a machine that
-- runs commands and has files. Datas/Windows is providers_windows.go: what PowerShell prints is a parameter,
-- and `read_slice` is what `json.Unmarshal` makes of it for the structs of the providers.
-- Collectors/Disk and Linux are the collectors for /proc, on the texts of the files; Collectors/Windows are
-- those of Windows, with ps_windows.go; Types has the type that a metric's name stands for.
-- Windows/Exposition has a reader of label values of the Prometheus format, by which the labels of these
-- collectors are judged.
-- DirWalk is the walk that plugins-src/dir-size and plugins-src/folder-size share, over a tree of files;
-- DirSize and FolderSize are their output and exit codes.
-- Winsvc is internal/winsvc/service_windows.go: Manager, EventLog and Commands are the operations on the
-- service manager, which return the handles that they open, use and close; Lifecycle has `serviceMain` and
-- `serviceHandler` as two threads and what Windows sends as a step relation.
-- Tls is internal/tlsutil/tlsutil.go and store_other.go. Tls/Generate is generate.go, over a store of files with
-- modes in which making a directory, opening a file and writing to it can fail; `crypto`, `x509` and `pem` are
-- given. Tls/Windows is store_windows.go, with the calls of crypt32.dll and ncrypt.dll as parameters: the search
-- (Search), the signer (Signer) and the import (Import) return the handles that they open, use and close, as
-- internal/winsvc does, in the monad of Effects; Tls/Blob and Bytes are the key as bytes.
-- Tests has runs of the definitions and instances of the theorems.
--
-- Bounds and fuel. `read_loop` of Monitor/Reader runs on fuel, for the source's loop does not end on every
-- file; one round for each item of the file and one more are enough where it ends. `wait_loop` of
-- Winsvc/Manager runs on fuel: 31 rounds of half a second are enough for its deadline of 15 seconds. `itoa`
-- prints on fuel that bounds the number of digits. `bytes` of Tls/Bytes takes the number itself as fuel. All
-- other loops are structural. The index of the percentile is computed exactly, which float64 does below 2^50
-- records. The `sort.Slice` of `ReadRecords` is a parameter, for it leaves open the order of records of the same
-- second: a sorted list of the same elements is all that is assumed of it. The other uses of `sort` are on
-- keys, paths and dates that differ, where any sort gives the same list, and are the insertion sort.
--
-- Not modelled: cmd/setup, which copies files and prints; what commands print on the terminal; mutexes, which
-- only order the calls; directories that have the name of a rotated file; the syntax of JSON, of which the
-- decoded values stand here; `IsWindowsService`, and the functions of service_other.go, which do nothing; the
-- two default directories of `defaultCertDirs` on Windows, and the flags and structs of the calls of
-- store_windows.go, which a parameter takes as its own; the parents that `os.MkdirAll` makes, and the bytes of
-- PEM and X.509.
pub mod Base
pub mod Strings
pub mod Strconv
pub mod Floats
pub mod Collectors
pub mod Tests
pub mod Time
pub mod Filepath
pub mod Signing
pub mod Plugins
pub mod SignPlugin
pub mod Disk
pub mod Effects
pub mod DirWalk
pub mod DirSize
pub mod FolderSize
pub mod Winsvc
pub mod Tls
pub mod Monitor
pub mod LocalWriter
pub mod Datas
