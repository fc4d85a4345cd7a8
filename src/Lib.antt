-- ===== src/Lib.antt =====
-- The textile ERP (textile-erp-cloud): models of the parts of its Go code that decide about money,
-- stock, vouchers and the accounts of customers, with the theorems about them.
--
-- The program. `financial/` is the accounting server: `internal/domain` has the entities and services
-- of invoices, stock, costs, credit and settlements; `internal/application/financecore` is the one
-- way by which typed bank and cash transactions reach the ledger; `internal/presentation` serves
-- both over HTTP; `internal/infrastructure` keeps the tables in PostgreSQL. `operational_cycle_go/`
-- is the server of the production cycle, and `portal_server/` sells and opens the customers' sites.
-- The web pages, the Telegram relay and the deployment files stand beside them.
--
-- What models what.
--   Base: Boolean tests (Base.Bools), lists, signed integers, Go's `int64` with its wrap-around
--     (Base.Int64, Base.Wrap), texts as code points (Base.Text), `(value, error)` results (Base.Result) and
--     `float64` as an interface (Base.Float).
--   FinanceCore: financial/internal/application/financecore/service.go.
--     Types: the transaction types, `typeRules`, the chart of accounts, `TransactionRequest`.
--     Validate, Accept: `Validate` and `validateAllocations`, and what they let through.
--     Plan, Balance: `postingPlan` and `partyBalanceEffect`, and the sums of the legs.
--     Jalali, Dates: `jalaliToGregorian`, `AccountingDate`, `AccountingClock`.
--     Store: the tables as one record `Db`, and `Tx`, a statement of a transaction that may fail.
--       `transaction` is `BeginTx` with the deferred `Rollback`: an error gives back the old tables.
--     Frames: what a statement ensures if it succeeds, and relations that statements keep.
--     Lookups: `ensureBankAccount`, `ensureCounterAccount`, `ensurePartyRole`, `ensureBranch`,
--       `ensureAccount`.
--     Vouchers: `insertVoucher` and `reverseVoucher`; Vouchers.Lines and Vouchers.Reversal: what they
--       write; Vouchers.Book: the balance of every voucher.
--     Effects: `applyPartyBalance` and `saveAllocations`; Effects.Net and Effects.Undo: the net
--       balance of a party; Effects.Changed: the statement on it; Effects.Allocations: the sums of the allocations.
--     Done: what makes the statements go through.
--     Post: `PostTransaction` and `ReverseTransaction`. Written, Reversed, Mirrored, Succeeds, Calls
--       and Undone have the theorems on one call, on sequences of calls, and on a posting with its
--       reversal.
--   Domain: financial/internal/domain.
--     Money, Invoice: valueobject/money.go and entity/invoice.go.
--     InvoiceService: service/invoice_service.go, with its maps by company as functions.
--     Stock: service/inventory_service.go.
--     Credit, Settlement, Calculators: the credit score, the settlement validator, and the
--       calculators of waste, downtime and commission.
--     Duration: `time.Time.Sub` and `Duration.Hours`.
--   Portal: portal_server.
--     Access: main.go, an account (`projectAccess`), its role, its pages, its modules and its trial;
--       Access.Days: the days that are shown of a trial.
--     Store: the file of accounts, as a list of rows, and what is looked up in it. Store.Distinct,
--       Kept, Sorted and Hits: that ids and user names stay apart; Order: how accounts are listed.
--     Names: the user names and passwords that are made up.
--     Services: the other servers and the libraries, as one record of functions.
--     Terms: the arguments of `createManagedAccess` and `updateManagedAccess`, which Managed has;
--       Managed.Granted: what they give.
--     Steps: how one account of the file is changed.
--     Trial: `grantFullTrial` and `startFullTrialOnFirstUse`; Trial.Lasting: that a failing server does
--       not stop a trial.
--     Passwords: their change, their check, the repair of their hashes and `authenticateTextileUser`
--       outside the local mode; Passwords.Login: who is let in.
--     Accounts: the setup, the tokens, the switch, the deletion and the weaving tenant;
--       Accounts.Calls: the functions of all these modules in a row.
--     Samples: a company and servers for the tests.
--     Team: `portalTeam` and `portalTeamByID`; Team.Below and Team.Bounded: what a manager can give;
--       Team.Trials and Team.Ends: what becomes of the trials in the file.
--     Launch: `issueLaunchTicket` and `consumeLaunchTicket`; Launch.Once: how often a ticket is good.
--     Owners: owner_integrity.go; Owners.Settled and Owners.Twice: what the repair leaves.
--     Orders: orders.go, the creation of purchase orders. Repeat and Valid have the theorems on
--       repeated requests and on what is stored.
--     Approvals: orders.go, the approval and the rejection of orders, which open and change
--       accounts through Managed. Decisions: the states of an order; Twice: repeated approvals.
--
-- Correspondence. A function of the code is a definition of the same name in snake case; an early
-- return is a case of the result. A loop is a recursion over its list, so no fuel is used and every
-- definition is total; the month loop of the Jalali conversion runs over the lengths of the months.
-- A mutex makes the calls of a service a sequence, and a database transaction those of the
-- financial core; concurrent transactions that interleave are not modelled. Time is an argument.
--
-- What the tables keep to. The constraints of the migrations that a request could break are tests of
-- the statements (`fits_table`, `fits_line`, `fits_balances`, `insert_allocation`, the lengths of
-- names): among them the foreign keys of a party in its company and the width of the DECIMAL(18,2)
-- columns of journal lines and balances, which hold amounts below 10^16. The
-- other columns are written with values that were checked before. NULL in a numeric column is 0.
-- Ids come from counters in the tables that a rollback restores, where a sequence of PostgreSQL may
-- skip numbers. The deferred trigger that checks a voucher's balance and the counts of changed rows
-- are left out: in the order of the statements they cannot refuse. All amounts are
-- whole, as the code writes them. A reversal copies lines that the table held, so it is not tested again.
--
-- Bounds. The amounts of requests are `int64` values, as their Go type is (`InInt64`). Where a theorem
-- asks that the sum of the allocations fits as well, the code does not check it.
--
-- What is left open. `float64` arithmetic is an interface; a theorem that needs more of it than its
-- operations names the law. Upper and lower case cover the letters of Latin and the like that the
-- codes of the program use; other letters stay as they are.
--
-- `net/mail.ParseAddress`, by which an order's email is tested, is an argument.
--
-- The portal. The files of accounts and orders can always be read and written, and JSON gives back what
-- was written. One call reads the clock once, and random numbers are arguments (`Draws`) and never
-- missing. An account is of one of the two projects. Ids do not overflow. bcrypt, the sealing of
-- passwords and the answers of the operational and weaving servers are functions that the theorems
-- leave open. `sort.Slice` keeps equal elements in their order here. Persian sentences in notes are
-- arguments. A call that asks another server does so while it holds the lock, so calls do not
-- interleave, but `grantFullTrial` and `ensureWeavingReady` release it between their two steps,
-- which are one step here.
--
-- Not modelled: the servers, the handlers and their guards, the queries that only read, the
-- production cycle, the sessions and pages of the portal, the reports, the agents and the import of
-- old data.
pub mod Base
pub mod FinanceCore
pub mod Domain
pub mod Portal
