-- ===== src/Lib.antt =====
-- d-transfert-backend: the services of a money transfer platform, app/services with the repositories,
-- models and schemas that they use, as definitions and theorems.
--
-- The program. Companies hold cash in wallets, receive money from clients as entries, and send it on
-- as transfers and payments to other companies, with which they collaborate at an agreed rate. A
-- router calls one service function per request; the function reads and writes rows through the
-- repositories and commits once, at its end. An exception ends the request without a commit; one that
-- is no AppError is answered with 500, and unhandled_error_handler writes a row of the system log.
--
-- How it is modelled.
--   Base, Int           helpers: Boolean tests, equality, lists, whole numbers
--   Money               Decimal amounts, _quantize (ROUND_HALF_UP), conversion by a rate
--   Errors              app/core/exceptions.py, and Python's own errors that reach a client as 500
--   Handlers            app/core/exceptions.py, how a request ends: answered m source s is the database
--                       after it, with that row of the system log
--   Table               a table as a list of rows: lookup by key, update, scalar_one_or_none
--   Models              app/models, the columns that the services read or write
--   Reference           app/utils/reference.py and _generate_unique_reference of the services
--   Database, Service   the tables in one record; a service call is Db -> Result (A x Db), composed in
--                       do blocks; committed m s is the database after the call
--   Audit               audit_service.log_action, notification_service.notify
--   Wallets             app/services/wallet_service.py
--   Clients             app/services/client_service.py
--   Locking             how entries and national operations lock wallets and compare currencies, and
--                       what they do to the sum of a wallet's movements
--   Entries             app/services/entry_service.py
--   Exchange            what app/services/transfer_service.py and payment_service.py share
--   Transfers           app/services/transfer_service.py
--   Payments            app/services/payment_service.py
--   Collaborations      app/services/collaboration_service.py
--   Operations          app/services/national_operation_service.py
--   PrivateRates        app/services/private_rate_service.py
--   Suppliers           app/services/supplier_service.py
--   Host                passlib, PyJWT, secrets and unicodedata as one parameter
--   Accounts            app/repositories/user_repository.py, role_repository.py, app/core/permission_codes.py
--   Companies           app/services/company_service.py, the slugs of app/utils/reference.py
--   Employees           app/services/employee_service.py
--   Administration      app/services/admin_service.py; Administration.Deletion is its delete_company
--   Access              app/core/security.py, app/core/permissions.py
--   Auth                app/services/auth_service.py
--   Platform            the requests of Companies, Employees, Administration and Auth in one type
--   Frame               the interface between an invariant and the operations: a record of the writes
--                       that the invariant allows, from which each operation is proved to keep it once
--   Consistency         the frames of the cash ledger and of the client journal
--   System              all requests in one type, steps and histories, and what holds of every history
--   Tests               concrete runs and an instance of each property
--
-- A definition has the name of the function it models; a private function of the source loses its
-- underscore. A loop over rows is for_each or structural recursion. A handler is the whole function,
-- its guards in the order of the source. Where two services write out the same code (the split of an
-- amount, the release of an allocation, the retry loop of references), it is one definition here.
--
-- Bounds and fuel. A Decimal is a whole number of units of 10^-8, so two decimals of a cent and rates
-- of six places are exact; a product is rounded once, as the source does. Printing a number takes the
-- number itself as fuel, and Reference.Printing shows that this is enough; the retry loop runs over
-- the five attempts of the source.
--
-- Times are microseconds, those of a token whole seconds. login and reset_password commit and then raise
-- on a wrong password or code: such a call returns an error as its answer, beside the database that it
-- leaves. A matricule is tried ten times and a registration code five times, as in the source.
--
-- What is not modelled. Row locks and concurrent requests: a request is one step, and what locking
-- serialises is the order of the steps. Notes, messages, descriptions and the name of a beneficiary, which
-- are display text. Of the schemas, only the validators of national operations are modelled, without their
-- test of the currency names. Identifiers come from a counter in place of uuid4. The columns' limits of
-- length and size, and the foreign keys that restrict a deletion. Listings, the dashboard, reports and
-- statistics, which only read. Backups, files of proofs, web sockets, the limit of requests and the
-- routers, which are input and output around the services. Writes of what is left out appear in a history
-- as steps that touch proofs, audit logs, notifications and the system log only; the deletion of a company
-- and a restored backup are not steps: each begins a new history.
pub mod Base
pub mod Int
pub mod Money
pub mod Errors
pub mod Table
pub mod Models
pub mod Reference
pub mod Database
pub mod Service
pub mod Audit
pub mod Wallets
pub mod Clients
pub mod Locking
pub mod TextOps
pub mod Entries
pub mod Exchange
pub mod Transfers
pub mod Frame
pub mod Collaborations
pub mod Payments
pub mod Operations
pub mod PrivateRates
pub mod Suppliers
pub mod Accounts
pub mod Companies
pub mod Employees
pub mod Administration
pub mod Access
pub mod Auth
pub mod Platform
pub mod Handlers
pub mod Host
pub mod Consistency
pub mod System
pub mod Tests
