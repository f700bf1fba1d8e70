-- ===== src/Lib.antt =====
-- hull boots an OCI image as a virtual machine on macOS and Linux: a command line (cmd/hull) over an
-- image store (pkg/store), a registry client (pkg/ociclient), compose files (internal/compose) and a
-- network gateway (internal/netgw). This library models the parts that decide: what of a guest's
-- output reaches the operator's terminal, when a service is started again, which images of the store
-- a reference names, a run boots, and a removal takes, which addresses a guest may connect to, and
-- which paths an image's layers reach while they are unpacked.
--
-- Parts and files. Each definition carries the name of its function in the source.
--   Prelude      shared: Boolean tests, lists over native numbers, Go strings as lists of bytes.
--   Text         strconv.Atoi and Itoa, strings.TrimSpace.
--   Terminal     cmd/hull/termfilter.go. Rune: utf8.FullRune and DecodeRune. Measure: escapeLen and
--                its helpers. Policy: escapeIsSafe, csiIsSafe, oscIsSafe. Sanitize: the loop of
--                sanitizeTerminalBytes, one round at a time, and terminalSanitizer.Write. Proofs:
--                Extend and Stream (boundaries of writes), Writer, Complete, Queries and Refuse (the
--                forms of queries that the policy names), Pieces.
--   Images       pkg/store/reference.go, cmd/hull/rmi.go, rmi_darwin.go, prune.go, and cachedDigest
--                and resolveImageDigest of cmd/hull/run.go. Reference: references and MatchImages.
--                Choice: cachedDigest and supersededDigests. Pull: pull policies. Remove: rmi.
--                Prune: prune. Order: sorting. Proofs: Parts, Names, Single, Newest, Justified, Kept.
--   Exec         cmd/hull/exec_compose.go. Args: parseComposeExecArgs. Health: healthchecks and
--                waitHealthyExec. Hooks: runServiceHooks. Proofs: Rendered, Tries, Order.
--   Run          cmd/hull/env.go. Env: the entries of --env. Proofs: Shadow, Resolve.
--   Supervisor   cmd/hull/supervisor.go. Policy: restart policies and the backoff. Engine: consider,
--                tick and run over the hooks' answers. Service: targets, alive, clearInstance,
--                restart. Proofs: RoundTrip, Backoff, Budget, Crash, Persist, Teardown,
--                Restart, World and Outcome.
--   Net          internal/netgw. Addr, ParseAddr and Glob: what net/netip and path.Match give it.
--                Policy and Pins: egress.go. Resolver (and Message): dns.go. Divert: divert.go. Forward:
--                forwarder.go and divertRule.serve. Gateway: the handler over time, as a history of
--                queries of guests, refreshes of the hosts and resolutions of the diverted names.
--                Proofs: Provenance, Explained, Refresh, Steps and Reach (why an address is reachable),
--                LinkLocal and Metadata, Maps and Refined, Usable, Quiet, Closed.
--   Unpack       pkg/ociclient/unpack.go. Path: path.Clean and its kin, archiveName. Tar: an archive's
--                entries, and the operations on the root, whose answers depend on all that was asked
--                before. Extract: whiteouts, files and links. Layer: the loop of
--                extractTarIgnoreChown, applyDirModes. Retry: unpackLayer and its retries. User:
--                resolveImageUser. Proofs: Inside and Joined (paths), Contained, Written and
--                Confined, Counted and Bounded, Tries, Resolved.
--
-- State and effects. A method that changes its receiver returns the new state. The clock, the
-- processes, the store and the project file enter as values that the model is given for each poll or
-- each call; effects come out as lists in their order. A time is a count of nanoseconds, and the
-- zero time is `none`.
--
-- Loops. Loops over bytes recur on the text; the loop of sanitizeTerminalBytes and the digits of
-- Itoa run on fuel, the length of the text and a number above the value, and Stream and Number prove
-- that any fuel from there on gives the same result. splitTXT, the globs and the groups of an IPv6
-- address run on the length of the text, which each round shortens.
--
-- Not modelled: what only moves bytes, starts processes, or calls the hypervisors, containerd, and
-- the registry; and the parsing of diverts, the gateway's virtual network, the compose loader,
-- telemetry and boot assets. What go-containerregistry makes of a reference is a parameter of the
-- image store.
pub mod Prelude
pub mod Text
pub mod Images
pub mod Exec
pub mod Run
pub mod Net
pub mod Unpack
pub mod Terminal
pub mod Supervisor
