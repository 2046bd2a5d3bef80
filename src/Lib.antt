-- ===== src/Lib.antt =====
-- A model of debcraft, a tool that finds the Debian packages in an artifact and describes them.
--
-- The program scans an artifact for packages, enriches them from a mirrored and indexed repository,
-- and writes an SBOM. The parts modelled here, with the files of this library:
--
--   * Spdx: SPDX license expressions, src/debcraft/domain/package_intelligence/spdx_tokenizer.py,
--     spdx_parser.py, spdx_printer.py and the nodes and tokens of values.py. `tokenize`, `parse` and
--     `print` are the methods of those names. Spdx/Parser/Grammar is the grammar of the parser's
--     docstring as relations.
--   * Stanza: src/debcraft/domain/_stanza_parser.py, the stanzas and fields of control files.
--   * Dpkg: src/debcraft/domain/scanner/dpkg_parser.py and dpkg_printer.py, the dpkg status file,
--     which the artifact scanners read; it uses Stanza.
--   * Kernel: src/debcraft/platform/kernel/: Container is the dependency injection container,
--     Resources the resource manager, Events the event bus, Workflow the engine that runs workflows
--     under a retry policy and publishes their lifecycle on the bus.
--   * Purl: src/debcraft/domain/package_intelligence/purl_generator.py, package URLs; the distro is
--     lowered as a text in ASCII is.
--   * Symlinks: src/debcraft/domain/package_intelligence/symlink_resolver.py, the links of copyright
--     files; its range of 10 hops is the fuel. The lookup of a path's owner and its content is a
--     parameter.
--   * Mirror: Sync is the comparison of src/debcraft/domain/mirror/comparator.py and
--     `deduplicate_entries` of src/debcraft/infrastructure/mirror/_checksums.py; RateLimiter is
--     src/debcraft/infrastructure/mirror/rate_limiter.py, with the clock's readings and the
--     attempts of other tasks as arguments and exact numbers for floats. Download and Transfers are
--     src/debcraft/infrastructure/mirror/download.py: an attempt with its files, and the retries
--     around it; Coordinator is its `start` and `close`. The answers of the network, SHA-256 and
--     the random jitter are arguments, pauses are in milliseconds, and a batch downloads one file
--     at a time. Files is the table of files of src/debcraft/infrastructure/mirror/_persistence.py
--     with the queries of _checksums.py, Engine the artifact stage, the counters and the status of
--     src/debcraft/infrastructure/mirror/engine.py, Recovery the repairs of the files' states in
--     workflow.py there and in src/debcraft/infrastructure/storage/engine.py, Packages the parser
--     of src/debcraft/domain/mirror/packages_parser.py, which uses Stanza.
--   * Image: Whiteouts is src/debcraft/domain/_whiteouts.py and _archive_paths.py, Layers the
--     `_merge_layer` of docker.py and oci.py in src/debcraft/infrastructure/scanners/, which
--     applies them. A layer that cannot be read and cancellation are left out.
--   * Database: UnitOfWork is src/debcraft/infrastructure/database/unit_of_work.py; what a session
--     of SQLAlchemy raises is an argument, by the calls before it.
--   * Sbom: Values is the value objects of src/debcraft/domain/sbom/values.py with the checks of
--     their constructors, Assembler `ModelAssembler` of src/debcraft/domain/sbom/assembler.py. The
--     version, the clock, the hash of the artifact's path and the UUID are arguments.
--
-- Prelude holds what the parts share: Python's `str` as a list of code points, its `dict` as an
-- association list in the order of insertion, and exceptions as a result type. Tests holds runs of
-- the models at concrete inputs.
--
-- A loop over a list is a recursion on it. The tokenizer's loop takes one more round of fuel than
-- the expression has characters, since each round reads one. The parser's recursion takes 33, one
-- more than its nesting limit, and its two loops one more than the unread tokens. The container's
-- recursion takes one more than the registrations, of which none stands twice on its stack. For
-- each of these the fuel is proved to suffice. A download counts down its three attempts.
--
-- Parameters stand for code that is not the program's: what the constructors of the application
-- ask for, whether a resource, a handler or a workflow returns, when a token is triggered or a task
-- cancelled, and what the network, the file system and a database session answer.
-- The messages of errors and diagnostics are constructors with the messages' arguments. Log lines,
-- timestamps and what a handler does to the bus while it runs are left out. The
-- engine's release and index stages, the indexer, the database provider, the readers of image
-- formats, the writers of SBOMs and the command line are not modelled: they are input and output
-- around these parts.
pub mod Database
pub mod Dpkg
pub mod Image
pub mod Kernel
pub mod Mirror
pub mod Prelude
pub mod Purl
pub mod Sbom
pub mod Spdx
pub mod Stanza
pub mod Symlinks
pub mod Tests
