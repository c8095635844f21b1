-- ===== src/Lib.antt =====
-- MiniKV, a log-structured key-value storage engine: a model of its core and the theorems on it.
--
-- The program's parts, bottom up, and the files that model them:
--   include/minikv/status.hpp, src/status.cpp   Status, Status/Code
--   include/minikv/options.hpp                  Config (with ValueType and SyncMode)
--   src/coding.cpp                              Coding: PutFixed, DecodeFixed, CRC32C
--   src/memtable.cpp                            MemTable over OrderedMap
--   src/wal.cpp                                 Wal: the log's record format
--   include/minikv/file.hpp, src/file.cpp       File: WriteAll and ReadAllAt over the interfaces
--   src/recovery.cpp                            Recovery: RecoverWal
--   src/write_path.cpp                          WritePath over Wal/Writer: the log, then the table
--   src/bloom_filter.cpp                        Bloom
--   src/table.cpp                               Table: metadata and shared helpers; Table/Build writes
--                                               a file; Table/Read, Table/Open, Table/Verify and
--                                               Table/Iterator read it
--   src/manifest.cpp                            Manifest: versions; Manifest/Apply, Manifest/Format
--   src/manifest.cpp, include/minikv/flush.hpp  Manifest/Publish
--   src/compaction.cpp                          Compaction: the merge of table files
-- Base, Bytes, Result, Io, Decimal and Checked are shared: helpers on lists, options and numbers,
-- byte strings in the order of std::string, results with a status, state passing, std::to_string,
-- and CheckedAdd.
-- Examples holds concrete runs.
--
-- Conventions. A C++ function is a definition of its name in lower case; a class is a record of
-- its fields, and a method takes and returns that record. A byte is a number below 256, a string of
-- bytes a list. `std::size_t` has 64 bits, and wrap-around is written out. A function that returns
-- a Status and fills an output returns a Result. Outputs through null pointers are not modelled.
-- A file or a directory is a parameter: operations on a state `S`, with the documented behaviour
-- of the system calls as hypotheses where a theorem needs it.
--
-- Loops that depend on a file take fuel, `none` says that it ran out. WriteAll and ReadAllAt need
-- a round for each byte and for each interruption (`patience` bounds those that are to come).
-- RecoverWal advances by a record of at least 33 bytes in each round, so the file's size and one
-- are enough, and the definition supplies that itself. An iterator loads at most every block once.
--
-- A crash is a cut of the log file: it keeps a first part of the bytes, which includes those that
-- are on the disk since fdatasync(2) last succeeded. WritePath/Synced says how these grow, and
-- WritePath/Crashed what recovery finds.
--
-- A version names the live tables. Apply checks a version and an edit and makes the next one; Format
-- stores it with a checksum; Publish writes it under a temporary name and renames it.
--
-- A table file has data blocks of write-ahead-log records in key order, a sparse index of their
-- first keys, a Bloom filter and a footer. The long double arithmetic that sizes a filter is the
-- parameter LongDouble; its laws hold of a format with the 53 bits of precision of a double, and of
-- operations that round monotonically. std::upper_bound and std::lower_bound are counts of the entries in front.
--
-- A compaction merges files with a queue of cursors; each round takes at least one record off it,
-- so the number of the records and one are rounds enough.
--
-- Not modelled: the publication of a compaction's tables, scans, flushes and the database above
-- them; the Posix calls themselves, threads and locks, the benchmark, tools and tests.
pub mod Base
pub mod Status
pub mod Result
pub mod Coding
pub mod Bytes
pub mod Config
pub mod Checked
pub mod Bloom
pub mod Compaction
pub mod OrderedMap
pub mod MemTable
pub mod Wal
pub mod Io
pub mod File
pub mod Decimal
pub mod Recovery
pub mod WritePath
pub mod Table
pub mod LongDouble
pub mod Manifest
pub mod Examples
