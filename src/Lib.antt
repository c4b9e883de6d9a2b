-- ===== src/Lib.antt =====
-- easySFTP: what a deployment uploads, and what it may delete on the server.
--
-- A run of the action plans every pair of a local path and a remote path before it touches the
-- network: the ignore lines are compiled to patterns, the local tree is walked, and each file that
-- no pattern excludes is planned with its remote path. The sync strategy then reads the manifest
-- that the last run left on the server, hashes the planned files, and selects what to upload and
-- what to delete. Every path that the server supplies, in a listing or as a key of the manifest,
-- passes a confinement check before it is removed. The deletions of deployed files and directories are
-- charged to one budget; the sweep of stale temporary files and the backups of a replacement are not.
--
-- The modules, and the code that each one models:
--   Prelude, Strings  Go strings are lists of bytes. Strings holds the functions of the packages
--                     strings, strconv and sort that the sources call.
--   SlashPath         path.Clean, path.Join and path.Dir of Go's standard library. A path is walked to
--                     a location: rooted or not, the number of steps above its start, and names, the
--                     deepest first. Clean renders the location of a path.
--   Config            internal/config/config.go: Values has the readers of inputs, Pairs has
--                     checkSyncTargets and SyncTargetWarnings, Validate has Config with validate, and
--                     Load has Load and loadInline.
--   Remote            internal/uploader/remote.go: Confine has safeJoin, safeChild and within, Guard
--                     has checkRemoteRoot and isDriveRoot with NormalizeRemote of
--                     internal/config/config.go, Budget has deleteBudget, Dirs has parentDirs and
--                     leafDirs with dirsForFiles of internal/uploader/planner.go, Delete has
--                     internal/uploader/delete.go with remoteAbsent, Listing has listRemoteContents, and
--                     Create has createRemoteDirs and nonDirConflict.
--   Gitignore         internal/uploader/gitignore.go: Compile has compileGitignore and
--                     parseGitignoreSegments, Matcher has matchesHow, lastMatchIdx and matchesPath,
--                     Segments has matchSegmentsExact, Segment has matchSegment, and Class has
--                     splitClass and classContains.
--   Planner           internal/uploader/planner.go: Tree has the local tree, Walk has the callback of
--                     filepath.WalkDir, and Build has buildPlan and the planning of a pair in Run of
--                     internal/uploader/uploader.go.
--   Sync              internal/uploader/sync.go: Store has Go's maps as association lists, Manifest
--                     has readManifest, confineManifest and mergedManifest, Select has the selection
--                     of executeSync with hashPlanFiles of internal/uploader/planner.go, and Collide
--                     has foldPath, collidingDeletes and the directories of clearCollideParents and
--                     pruneEmptyDirs.
--                     Session has what a sync works with, Clear has clearCollideParents, and Execute
--                     has executeSync with writeRecoveryManifest.
--   Session           internal/uploader/session.go: Pool has the session's connections with setSpread,
--                     acquire, reconnect and eachConn, and Do has session.do. Backoff has
--                     internal/uploader/backoff.go, and Stall internal/uploader/stall.go.
--   HostKeys          internal/uploader/hostkeys.go: Fingerprint has parseHostKeyFingerprint, Policy has
--                     hostKeyCallback, and Algorithms has pinnedHostKeyAlgorithms.
--   Transfer          internal/uploader/transfer.go: Temp has the temporary names, Replace has
--                     renameReplace with its backup, Upload has uploadFile, remoteSameSize and
--                     uploadFiles, and Sweep has sweepStaleTemps.
--   Uploader          internal/uploader/uploader.go: executePlan and executeOverlayOrClean. Retry has
--                     uploadFileWithRetry of internal/uploader/retry.go, and the work on one file of
--                     uploadFiles that calls it.
--   Tests             runs of the definitions on concrete inputs.
-- A module below one of these holds the proofs about it, and is named for what they show.
--
-- Errors are values of a Result, with the numbers and paths that the messages print. The budget's
-- methods take and return the state, and Remote.Budget.Runs has their calls in any order, each
-- method being one step because it holds the mutex. Session.Pool.Steps does the
-- same for the connections: a dial and a redial happen outside the lock, so that each is two steps, the
-- claim before it and the landing after it. Session.Stall.Fires has the runs of the watchdog, in which
-- the transfers' calls, the passing of time and the rounds of the monitor come in any order.
--
-- Fuel: the loops that climb with path.Dir take the length of the path and one more as fuel, and a
-- clean path has no more names than bytes. The matcher of a segment takes the length of the pattern as
-- fuel, since each round and each recursive call reads at least one byte of it. The listing of
-- the server takes the number of levels that are listed, and fails where there are more: a server may
-- answer with directories for ever. session.do recurs on what is left of the reconnect budget: each
-- of its rounds but the last pays for a reconnect, and it is given the budget as the other workers
-- left it. Decimal digits take the number and one more as fuel, since each digit divides it by ten, and
-- strings.Fields and strings.TrimSpace the length of the text. All other recursion is structural.
--
-- The server is a state that the model does not look into, and the SFTP client is a record of the
-- requests, each of which takes the state and gives a new one with the answer. Where the code hands paths
-- to a pool of workers, the model has one worker, which takes them in their order.
--
-- Parameters: the SFTP client with the session's reconnects, the requests of an upload, a replacement, a sweep
-- the making of directories and the work on one file, writeManifest as a sync calls it, the JSON decoder that
-- readManifest calls, loadConfigFile, the environment, the random number of the backoff, the reader of
-- known-hosts lines, the fingerprint of a key and the supported host key algorithms, the hashing of a file, and
-- the folding of one path segment (Unicode normalization and lower case), which come from libraries. The
-- proofs about uploads and directories take what the requests promise as a record of laws: a rename that
-- is answered has moved the content or changed nothing, and one whose answer is lost may be either. Sizes, versions
-- and times are natural numbers where the sources only compare them; durations are nanoseconds.
--
-- Not modelled: dialing, authentication and jump hosts, the attempts of newSession, the worker pool of
-- runBounded, the tuning controller and its caches, the YAML of the configuration file with the choice of
-- SSH algorithms, metrics, the benchmark tools, and the commands. The walked root
-- is the one after links and junctions are resolved, and log lines are left out.
pub mod Prelude
pub mod Strings
pub mod SlashPath
pub mod Remote
pub mod Gitignore
pub mod Planner
pub mod Sync
pub mod Config
pub mod Session
pub mod HostKeys
pub mod Transfer
pub mod Uploader
mod Tests
