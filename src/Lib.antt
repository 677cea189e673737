-- ===== src/Lib.antt =====
-- xcloud: a server that keeps the files of accounts in sync between clients. This library models the
-- server's store with the console and the API around it, and the sync engine of a client, and proves
-- what makes them correct.
--
-- The parts of the program and their modules:
--   internal/syncmodel/model.go       Model: the records, constants and normal form of the settings
--   internal/fileutil/fileutil.go     Fileutil: CleanRel, with filepath.Clean and filepath.Dir;
--                                     Chunked: HashFile and WriteFileChunks
--   internal/server/config.go         Config: the normal form of the settings, ApplyListenAddr
--   internal/server/store.go          Store: World (state, disk, saveLocked), Keys (the keys of the
--                                     maps), Events (appendEventLocked, EventsAfter), Chunks (the
--                                     chunk store, verifyManifest), Conflict (nextConflictPathLocked),
--                                     Version (what the writing operations share), Commit (Commit,
--                                     commitEntryLocked, ensureParentDirsLocked), Delete, Trash
--                                     (pruneTrashLocked, ListTrash, RestoreTrash), Records (the
--                                     activity records), ClientPath (cleanClientPath), Accounts
--                                     (passwords, tokens, CreateAccount), Devices, Folders
--                                     (ReportFolder, SelectFolder and the like), Spaces, Lists
--                                     (ListAccounts, ListSpaces and the like, ClientStatus)
--   internal/server/http.go           Server: Site (sessions, requireLogin, requireAdmin, the
--                                     dashboard), Console (its handlers; Routes: the path of each, and
--                                     which of them ask for a login), Session (from the login to
--                                     the logout), Sync (syncAuth and the handlers behind it),
--                                     Clients (clientAuth, clientLogin and the like)
--   internal/client/sync.go           Client: Local (what an engine keeps), Disk (what it uses of
--                                     Go's os on its root), Apply (applyVersion, downloadVersion),
--                                     Pull (pullRemote, cleanupDeletedDirs), Push (scanLocal,
--                                     pushLocal, uploadFile, syncOnce), Names (safeStateName,
--                                     activeSpaceIDs, the client's settings)
--   internal/client/state.go          Client: Memory (the client's state and its file)
--   internal/client/api.go            Client: Retry (doWithRetry and its waits)
--
-- The operations are actions on a `World`: the state in memory, what metadata.json and server.db
-- hold, the chunk files by hash, and the number of ids drawn. An action returns or fails, and what it
-- wrote before it failed stays written, as in the source. The store holds its mutex through each
-- operation but for the tests at the start of Commit and Delete; the model takes each operation as
-- one step. Maps are association lists whose order stands for the order of a `range` loop, so what
-- holds for every list holds for every order. Texts are sequences of Unicode code points: JSON
-- decodes to valid UTF-8. Times and counters are natural numbers; `int` and `int64` values that a
-- client sends are signed, without the wrap at 2^63.
--
-- A handler of the server is a function of the site: the world, the sessions and the settings. A page
-- is what it says, not its HTML; a body is what it decodes to, or an error.
--
-- A client's engine is a device: its disk under the root as a map of paths to files, directories and
-- special files, its state in memory and in its file, and the server, whose calls are a parameter
-- (`Remote`). A step of the engine returns or fails, and what it did before a failure stays done. Symbolic
-- links and the modification times of directories are not on the model's disk, and what lies under
-- a file counts as missing; a step on the disk is not interrupted by another program.
--
-- What is not in the repository is a parameter (`Env`, `Host`, `Engine`): random ids, SHA-256, the case
-- mappings, times and texts of errors, whether a write succeeds, and whether
-- the file of a chunk that is there can be read. Paths follow the rules of Unix.
--
-- Fuel: the search for a conflict path has one round for each entry of the store. The candidates
-- differ, so one of them is free by then. The loops that squeeze backslashes have one round for each
-- character of the path, and each round makes the path shorter. A file is read in at most one part for
-- each byte where a part is not empty. The search for the id of a new space
-- takes its fuel as an argument: with ids drawn at random no number of rounds is surely enough.
--
-- Not modelled: SQL, the HTML of the pages and the encoding of requests, the watchdog script, the
-- command line and the local console, which are input and output; the goroutines of the client (its
-- supervisor, its timers and the watcher of its root), which start rounds of the engine.
mod Prelude
pub mod Model
pub mod Result
pub mod Fileutil
pub mod Store
pub mod Config
pub mod Client
pub mod Server
