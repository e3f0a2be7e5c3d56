-- ===== src/Lib.antt =====
-- The ledger of a poker venue: poker-management-system, the domain code under src/domain and the
-- part of src/server that runs a command.
--
-- A store holds the players' profiles, their sessions (a player at a seat of a table), the tables,
-- the business days, the approval requests, the ledger of posted transactions and the audit log. A
-- command changes it: `applyCommand` of src/domain/operations.ts checks the command against its
-- schema (src/domain/commands.ts), the actor's role, the current day and the records, and returns
-- the new store or throws. Money enters the ledger in two steps: a request (`REQUEST`, `CORRECT`)
-- waits for votes, and a decision (`DECIDE`) posts the entry, whose effect on cash and credit is
-- `ledgerImpact` (src/domain/ledger-impact.ts). The balances and the totals of a day are sums over
-- the ledger (src/domain/selectors.ts), or aggregates that the server put into `readModel`.
--
-- Files. Common: Boolean tests, lists, optional values, integers, texts, the result of a call that
-- may throw. Model: the records and enumerations of src/domain/model.ts. Settings: settings.ts,
-- with Rules for the rules of a table, Schema for the two schemas, and Range for what the test on
-- the increment means. Commands: commands.ts, with Schema for `commandSchema`. Ledger: Debt, Impact
-- and Totals for selectors.ts and ledger-impact.ts, Balance and Settling for their laws. Operations:
-- operations.ts, where Guards has `requireThat`, `permit`, `canApprove`, `policy`, `ensureSeat` and
-- `audit`, Phone `normalizePhone`, Calendar the test on a business date, Entry `validateEntry` and
-- `postEntry`, Venue, Seating, Approvals and Days one function for each kind of command
-- (`apply_check_in` for `CHECK_IN`), and Apply `applyCommand` itself. A module Done states all that
-- a successful call has checked and what it returns; Apply/Done puts these together, and the
-- modules beside it are proofs by cases of it; Apply/Requests has the cases for what the review of
-- a request keeps, which Review and Levels apply. Entry/Solvency has what one posting does to a
-- balance.
--
-- The server runs a command for a member of staff: `mutate` of src/server/repository.ts locks the
-- branch, looks for the operation's row, loads the rows that the command needs
-- (src/server/command-store.ts, with the sums of src/server/aggregates.ts), compares the versions
-- of the command's dependency keys with the revision that the client has seen
-- (src/domain/command-concurrency.ts), applies the command, writes what has changed
-- (src/server/storage.ts, and src/server/ledger-rollups.ts for the sums) and raises the versions of
-- the changed keys. `recoverOperation` of src/server/operation-recovery.ts settles a call whose
-- answer was lost. Commands/Keys and Commands/Dependencies have the keys, Model/Same the comparison
-- of records by their JSON texts (those of settings that a command builds anew always differ from
-- the texts read); Server/Storage, Server/Rollups, Server/Aggregates,
-- Server/CommandStore and Server/Repository the files of like names, and Repository/Recovery the
-- recovery; Repository/Done says what a call that returned has done, Repository/Once and
-- Repository/Current are about sequences of calls, Repository/Versions about the versions.
-- Rollups/Rows, Rollups/Totals and Rollups/Reading are about the kept sums, Storage/Marks about
-- what a write marks. Server/WorkGate is `createWorkGate` of src/server/password-work.ts, and
-- Server/LoginQuota the quotas of src/server/login-admission.ts, with LoginQuota/Log the windows of
-- a log of claims by its times alone and LoginQuota/Window their rows. Domain/Csv is `csv` of
-- src/domain/money.ts with a reader of its files (Csv/Reader) and the guard against formulas
-- (Csv/Guard), and Domain/Review `approvalReviewStatus` and
-- `approvalReviewProgress` of src/domain.
--
-- The database is modelled by what the SQL says: a table is the list of its rows by `order_no`, a
-- query a filter of it, a transaction a function that returns the new branch or throws, and the row
-- lock makes the calls on a branch a sequence. Server tests run whole calls on a small branch.
--
-- Conventions. A source name `camelCase` is `snake_case` here. `DomainError` is `domain message
-- status`, and an `Error` is `plain message`. A write through an object that `find` returned is
-- `update_first` with the same test; `structuredClone` needs no counterpart, as a store is a value.
-- Amounts of commands and settings are natural numbers (the schema refuses the others), and amounts
-- of the ledger are integers. The sums are exact: JavaScript's are too below 2 ^ 53. A percentage
-- may be fractional and is a dyadic number. Texts are native strings; their order is compared by
-- code points, which is JavaScript's for the ASCII dates and timestamps that are ordered. The
-- decimal printer has 20 digits of fuel, which is enough for every number below 10 ^ 20. In the
-- audit log the value stands for the text that `JSON.stringify` makes of it.
--
-- Parameters. `Host` has what the program asks of its platform: whether `Intl` knows a time zone,
-- and the random ids, in the order of the calls within a command. The time is an argument.
--
-- The server's calls find their sessions, the memberships, the test of a UUID and the SHA-256 of a
-- command in `Context`.
--
-- Not modelled: the pages and reports that src/server/queries.ts reads, the import and backup of a
-- branch, staff accounts, HTTP, the user interface, the scripts, and of the domain the reports, the
-- integrity check, the sorting of lists, and the lists and filters of approvals. They read the
-- records, or are input and output. Of the storage the last revision of a row, the safe range of
-- the order numbers and what a call sends back are left out, and of money.ts `parseMoney` and
-- `formatMoney`. The other paths that write `poker_operations` (staff accounts) are not among the
-- calls between two calls of `mutate`.
pub mod Common
pub mod Model
pub mod Settings
pub mod Ledger
pub mod Commands
pub mod Operations
pub mod Domain
pub mod Server
