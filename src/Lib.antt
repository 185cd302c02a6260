-- ===== src/Lib.antt =====
-- Verification library of proxyreverse, a reverse proxy for HTTP that is configured by YAML: it
-- listens on addresses, finds the backend of a request by its host, and forwards the request
-- through a chain of proxies.
--
-- The parts and how they interact. The entry point (pkg/entrypoint/entrypoint.go) reads the file of
-- the configuration, loads it (pkg/server/config/loading.go) and starts the server
-- (pkg/server/server.go). The start builds a dialer for each proxychain
-- (pkg/server/proxychains.go), creates the listeners (pkg/server/listeners.go), builds a backend
-- for each site (pkg/server/backends.go) and attaches it to the site's listeners. A listener
-- passes a request to the backend that its trie of site names gives, and the backend edits the
-- headers, asks its selector for the target (pkg/server/target_selectors.go), and forwards.
--
-- The files:
--   * Prelude: shared names, lists, texts (Go strings as lists of bytes), maps and results.
--   * Go: the functions of Go's standard library that the code uses: strings.Split and SplitN
--     (Go/Split), net.SplitHostPort (Go/HostPort), strconv.ParseUint and the print of a number
--     (Go/Decimal), path.Join (Go/Paths), the panics (Go/Panic), and the interface of
--     github.com/samber/lo with its laws (Go/Lo).
--   * Listener: `matcher`, `AddSite` (add_site), `matchSite` (match_site) and `handler`. Nodes and
--     Walk relate the trie to a set of names, Attach to the map of sites that it stands for;
--     Known, Routing and Order have what follows for requests.
--   * Startup: `Server` stage by stage (build_chains, collect_listeners, start_listeners,
--     collect_sites, attach_sites), with its errors; Collect, Mapping, Attached, Keys, Ports,
--     Opened, Clashes, Ready and Sites have the lemmas on its stages, Starts and Conditions when it
--     goes through, and Serves and Table what it then serves. Live has the requests that come while
--     the sites are attached, as a step relation, and Forwards follows a request through the whole
--     server.
--   * Http, Backend: the requests, `NewHTTPBackend` (new_http_backend) and `ServeHTTP`
--     (serve_http); Headers, ServerName and Forwards have the proofs, and Concurrent the requests
--     that a backend serves at once.
--   * Target: the selectors' `GetTarget` (default_target, path_index_target) and
--     `NewTargetSelector`; Hosts, PathIndex and Keeps have the proofs.
--   * Proxychain: `NewProxychainFromConfig`; Chains and Readable have the proofs.
--   * Config: the records of pkg/server/config/models.go (Models), `HostSpec` (HostSpec), the values
--     behind a YAML map (Value), `URL`, `ProxyURL` and `CloneURL` of pkg/urlutil/urlutil.go (Urls),
--     `configMapMerge` (Merge), the loads (Loading), and
--     `TLSCertificatePool` and `TLSCertificateMap` of pkg/server/config/x509_models.go
--     (Certificates, CertificateMap).
--   * Assets: `Assets`, `UseFilesystem` and `ReadFile` of assets.
--   * Pem: `LoadCertificatesFromPem` of pkg/certutils/certutils.go; Blocks says what it finds.
--   * Environment: `FromEnvironment` of pkg/envutil/inputprocessors.go.
--   * Entrypoint: the stages and the exit code of pkg/entrypoint/entrypoint.go.
--   * Program: `main` of cmd/proxyreverse/main.go; Whole puts the loads and the server in the place
--     of the entry point's parameters, the server with its wait for the context (ended).
--   * Lifetime: the life of the process as a step relation: the signal and the goroutine that catches
--     it (SignalStep), the main goroutine up to the exit (MainStep), and the listeners with the
--     goroutine that shuts each down (EdgeStep).
--   * Build: the targets of magefile.go. Hooks is `Autogen` (autogen, add_scripts, update_hook), whose
--     lines stand in an array that two appends share; Queue is `concurrentRun` and `waitResults` as a
--     step relation; Settings, Directories, Platforms, Sources and Linters are the values and lists
--     that the targets use, and Start is `init`; Targets has the builds and releases (make_builder,
--     do_release_bin, do_release, binary), Checks the tools, the tests and the clean-up, Suite the
--     targets that depend on the tools, and Sorted the list of platforms that is printed.
--   * Tests: runs on small inputs, and the theorems at concrete inputs.
--
-- How state and operations correspond to the code. A method that changes its receiver takes and
-- gives back the receiver; a result beside an error is a pair, and `Result` where the code returns
-- early. A panic is a value, and so is a wait that goes on (Stop). A Go map is a list of keys and values in the order in which the
-- runtime happens to visit it, and a theorem on every list covers every order; the maps that the
-- start itself makes are visited in an order that is part of its surroundings. The nodes of the
-- trie are reached from their parents alone, so the pointers are a tree. Of a backend's client, the
-- dialer is a field of the backend; the TLS configuration that all its requests share is an argument and a result of a request; for requests at
-- once it is a field of the state of a step relation.
--
-- Bounds and fuel. A port has 16 bits and is read with that bound; an `int` has 64 bits, which
-- shows where the largest index of a path selector is added to. The loop over a PEM text runs on
-- fuel, the length of the text, which is enough since each block shortens the text. The loop that
-- lists the linters of magefile.go may run forever; its fuel is the number of rounds, and one more
-- than the length of the output is enough where it ends. All other loops are structural.
--
-- Parameters. Code outside the repository is an argument of the definitions that use it: the
-- package lo (Go/Lo), golang.org/x/net/proxy (ProxyLibrary), imroc/req and the network (Exchange),
-- YAML and mapstructure (Formats, SelectorDecoder), files and x509 (Trust, Pem), netip.ParseAddr
-- and net.Listen (Surroundings), kong and zap (Steps, Outside), net/http (HttpServer), and the
-- operating system, git, the Go tool, mage and archiver under magefile.go (Machine, Shell, and the
-- arguments of Settings, Directories, Start and Sources).
-- A hypothesis on one of them is either a field of its record or stands in the theorem.
--
-- Not modelled: log messages; the print of the outgoing URL, which imroc/req reads back; requests
-- that overlap with the attachment of a site, a data race; signals before the program handles them;
-- what net/http does with the connections of a server that shuts down, but for the requests that it
-- waits for; the reflection on Go types in the decode hook of mapstructure; the version, which the linker sets. Of magefile.go: the prints of
-- `Debug` and of the progress, and jobs that change the file system at once: Targets and Checks take
-- the jobs one after the other.
mod Prelude
pub mod Assets
pub mod Go
pub mod Listener
pub mod Config
pub mod Http
pub mod Target
pub mod Backend
pub mod Proxychain
pub mod Startup
pub mod Pem
pub mod Environment
pub mod Entrypoint
pub mod Program
pub mod Lifetime
pub mod Build
pub mod Tests
