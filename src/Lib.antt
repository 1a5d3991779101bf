-- ===== src/Lib.antt =====
-- XDP invisible armor: a verification library for the control plane of an XDP ban system.
--
-- An operator asks for a ban of an address, or of a whole country or AS number. The request is
-- checked by the guard, approved, and turned into dispatches in a database; the executor polls them
-- and writes the kernel's maps, where the packet filter looks every source address up.
--
-- Files, and the code that they model:
--   Banmap        internal/banmap/layout.go: keys, values and deadlines of the eBPF maps
--   PrefixDb      internal/prefixdb: resolve.go and db.go (rows, indexes, merged ranges, blocks; the
--                 loader in Load and Lines), query.go and cloud_asns.go (Search), sync.go
--                 (normalize in Normalize, the local rules in Overrides, the exchange of the
--                 table in Sync, with prefixDBSaveOverride of internal/web/prefixdb.go)
--   Quota         internal/quota/quota.go: Tracker and Check
--   Escalation    internal/escalation/penalty.go: the ladder of durations
--   Resolution    internal/resolution/policy.go: which source decides
--   Policy        internal/policy/permission.go: roles and capabilities
--   Safety        internal/safety/guard.go: Guard, AssertSafe, AssertSafeAll
--   Session       internal/web/session.go and csrf.go: the session store and requireCSRF
--   Model         internal/model/model.go: the rows of the tables
--   Dispatch      internal/dispatch/service.go: CreateDispatch and its two variants
--   Executor      cmd/xdpban/executor.go (banMaps), exec_loop.go (in Loop), reconcile.go (in
--                 Reconcile)
--   Requests      internal/web/services.go and handlers.go: the ladder's row, approval, rejection;
--                 in Creation, banCreate and internal/approval/service.go
--   Scoped        internal/web/scoped.go: Forms, Creation, Approval (with rejection), Revocation
--                 (with lookupRollback of lookup.go); restoreQuota of services.go in Restore
--   Access        internal/web/handlers.go: Register's routes behind the login, currentUser,
--                 requireLogin, requireCap, doLogin, logout
--   Lookup        internal/web/lookup.go: lookupSearch (lookupRollback stands in Scoped)
--   Report        internal/report/report.go: Build, summarize, WriteCSV; the words in Labels, and
--                 encoding/csv in Csv
--   Users         internal/web/users.go: creating, changing and deleting users
--   Netip         what the program uses of Go's net/netip and net
--   Common        shared notation, lists, maps, numbers, bytes, decimal texts
--
-- State is passed explicitly: each operation takes the state and returns the new one with its
-- answer. Clocks, random tokens and what the database refuses are arguments. The kernel's maps are the
-- record MapWriter with the laws IsMapWriter of Executor. The handlers of scoped bans take bans
-- out of the kernel through the record Revoker; the gzip reader is an argument, a function on
-- bytes. A download is two steps, between which others may come. A text is the list of its bytes.
-- Numbers are natural; wrap-around is written out where the code's width can be reached. Go's `int` of 64
-- bits is not reached by counts of rows and prefixes.
--
-- Loops are structural, save those of Netip over groups of an address and the loop of
-- rangeToCIDRs, which run on fuel: eight groups, and as many steps as the range has
-- addresses, each step taking at least one. The digits of a number take as much fuel as
-- the number, and the trimming of a text as much as its length.
--
-- Left out: JSON texts (a dispatch holds its payload, or nothing for a text that does not parse),
-- messages and log lines save what they tell, HTML, the lists and previews of the pages, the
-- report's HTML and dates, and the packet filter but for its test of expiry. gorm's tables are
-- lists of rows. Where sort.Slice or a Go map leaves the order open, the model takes one order: the
-- stable one, or that of the rows. ToUpper changes ASCII letters only. Temporary files and the
-- directory of the data are not in the model, and a renaming is atomic.
pub mod Common
pub mod Netip
pub mod Banmap
pub mod PrefixDb
pub mod Quota
pub mod Escalation
pub mod Resolution
pub mod Policy
pub mod Safety
pub mod Session
pub mod Model
pub mod Executor
pub mod Dispatch
pub mod Requests
pub mod Scoped
pub mod Users
pub mod Access
pub mod Report
pub mod Lookup
