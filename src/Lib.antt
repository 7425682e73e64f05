-- ===== src/Lib.antt =====
-- A credential helper for Bazel and similar tools. A short-lived client reads a request with a URI
-- from its standard input and prints headers; an agent process keeps responses in memory and serves
-- them on a Unix socket.
--
-- Parts and files, with the sources that they model:
--
--   Base, Text, Dict    shared helpers: native numbers, strings as lists of bytes with the functions
--                       of the package `strings` that are used, and maps as association lists
--   Errors              error values; `IsNotFoundErr` of authenticate/internal/lookupchain
--   Api                 api/api.go
--   Api/Names           the names of environment variables and the placeholders of api/api.go
--   Cache/Mem           cache/memcache.go: `MemCache` with `Retrieve`, `Store`, `Prune`
--   Cache/Nothing       cache/nocache.go
--   Cache/Socket        cache/socketcache.go: `NewSocketCache`, `Retrieve`, `Store`, `Prune`
--   Cache/Sqlite        examples/customized/helper/cache/sqlitecache.go, a cache in a database
--   Agent/Locate        agent/locate/locate.go over Text/Path, which has the functions of the package
--                       `path/filepath` that are used
--   Agent/Client        agent/client.go: the launch of the agent, and the client of its commands
--   Agent/Service       agent/service.go: `handleConn`, its handlers and `handleShutdown`
--   Agent/Serve         `Serve` and `acceptLoop` of that file, as a step relation on the goroutines
--   Agent/Start         `NewCachingAgent` of that file and agent/internal/lockfile; Exclusion has the
--                       steps of several processes that start and end agents, Windows the lock of
--                       Windows
--   Agent/Harden        agent/agent_unix.go, agent/client_unix.go and their versions for Windows: the
--                       umask, the owner and the mode of the directory, the process's attributes
--   Lookup/Source       the sources of authenticate/internal/lookupchain/lookupchain.go
--   Lookup/Chain        the chain of that file: `Lookup`, `Default`, `SetupInstructions`
--   Url                 what is used of net/url: `Hostname` and `Port`
--   Authenticate/Token  authenticate/internal/helperconfig/helperconfig.go, and oauth2 tokens
--   Authenticate/Null, Gcs, Gar, AzStorage, GitHub, RemoteApis
--                       the helpers authenticate/null, gcs, gar, azstorage, github, remoteapis
--   Authenticate/S3     authenticate/s3/s3.go: Region has the regions and the configuration, Get the
--                       rest
--   Authenticate/Oci    authenticate/oci: Repository, AuthConfig, Exchange and Resolver are oci.go,
--                       Challenge and Tokens are oauth.go, Docker is dockerConfig.go
--   Authenticate/Instructions
--                       `SetupInstructionsForURI` of all helpers
--   Authenticate/PathToHeader
--                       the helper and the factory of examples/customized/helper
--   Factory             helperfactory/fallback/fallback_factory.go and registry/registry.go
--   Config/Glob         `globMatch` of config/config.go
--   Config/Find         `FindHelper` of config/config.go, `Configure` of cmd/internal/util/util.go
--   Config/Read         `OSReader.Read` of config/config.go
--   Client              `foreground` of cmd/root/root.go
--   Client/Command      the commands of cmd/root/root.go for the client and the agent
--   Client/Run          `Run` of that file, which chooses a command, and `agentLogsProcess`
--   Client/Served       a client over an agent's socket, against its cache itself
--   Client/Setup        `URIProcess` of cmd/setup/uri.go
--   Client/Keyring      `KeyringProcess` of cmd/setup/keyring.go
--   Client/Installer    cmd/installer/installer.go
--   Logging             logging/logging.go, and Logging/Syslog its messages to the syslog
--   Build/Files         files with several names, for the programs of bzl/private and the installer
--   Build/Distdir       bzl/private/distdir/distdir.go
--   Build/Platforms     bzl/private/lockfile/lockfile.go
--   Build/Registry      bzl/private/bcr/bcr.go: Module has `createModuleVersion` and `main`, Archive
--                       what is read of an archive and extracted
--   Build/Workspace, Build/Runner
--                       bzl/private/integration_test_runner/integration_test_runner.go: the workspace
--                       of a test, and the commands of a run
--   Build/CheckHash     examples/testing/check_file_hash/check_file_hash.go
--   Tests               the theorems at concrete inputs
--
-- A run of the client (Client) chooses a helper by the configuration (Config/Find) or by the factory
-- (Factory), asks a cache (Cache) for the helper's key, and otherwise resolves the request with the
-- helper (Authenticate), which takes its secrets from a chain of sources (Lookup), and stores the
-- response. The cache of a client is as a rule the socket cache, whose peer is the agent (Agent) with
-- a cache of its own. The programs of Build put a release together and test it; they share nothing
-- with the others but the helper that a test runs.
--
-- State is passed and returned explicitly: a method of a cache or of the agent gives its result
-- and the new state. Errors are values; the arguments that a format string interpolates are left
-- out of their messages, calls of the logger are left out but in Logging, and a call of
-- `logging.Fatalf` or a panic ends a run with an error. Case folding is that of ASCII. Instants
-- are counted in seconds from a start before every instant in use, durations of the agent in
-- nanoseconds. The duration of an OCI token wraps as an `int64`, and is added in whole seconds.
--
-- Loops are structural recursion but for three. `globMatch` has (length of the text + 1) * (length of
-- the pattern + 3) rounds of fuel, since each return to a wildcard takes one more byte of the text and
-- at most the rest of the pattern lies between two returns. Reading a challenge has two rounds more
-- than the header has bytes, since each round takes a comma. The dial loop has one round for each
-- millisecond of its timeout and one more.
--
-- Parameters, since their code is not in the repository: `url.Parse` and the printing of URLs, JSON
-- codecs, RFC 3339 times, base64, MD5, SHA-256, `strconv.QuotedPrefix` and `strconv.Atoi`, the HTTP client,
-- the keyring, the libraries of AWS, Azure and Google, the driver of the database, the environment,
-- the file system, the formats of archives, the package `runfiles`, the syslog and the programs
-- `docker-credential-*`.
--
-- In `Serve` time is left out: a timer may fire at any moment after it was set, and each access to the
-- cache is one step, since the cache has a lock. The steps of the operating system, such as a lock, a
-- socket file and its removal, are functions on what they change.
--
-- A file of Build/Files has a number, and names that stand for it, since a hard link and a file that is
-- written under another name are the same file; directories are only recorded.
--
-- Not modelled: the place of the calls of Agent/Harden in Agent/Start, where they are one error
-- that they may give; the main package, which passes the factory and the cache on; the paths of
-- Windows; the reading of flags, which is that of the package `flag`, and usage texts; what the
-- programs of the build print; Starlark code.
pub mod Base
pub mod Build
pub mod Text
pub mod Dict
pub mod Errors
pub mod Api
pub mod Logging
pub mod Cache
pub mod Agent
pub mod Lookup
pub mod Url
pub mod Authenticate
pub mod Factory
pub mod Config
pub mod Client
pub mod Tests
