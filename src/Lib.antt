-- ===== src/Lib.antt =====
-- Easy Clip Backend, a NestJS server: the clips of its users, and their subscriptions and payments.
--
-- src/clips, src/folders and src/trash keep texts, colors and images in folders of a workspace and
-- move them to a trash, from which they are restored or deleted for good. src/shared limits what a
-- user may reach: a free user has one folder of up to 50 clips, a paid one folders of up to 300.
-- src/auth keeps the sessions of users, with refresh tokens that are rotated and revoked.
-- src/subscriptions sells a PRO plan by the month. A user's card is registered with the payment
-- provider (Toss), charged once at the confirmation, and charged again by a scheduled batch at
-- each end of a period. A charge may be made and its answer lost, so each one is put on record
-- before it is asked for, and an order whose result is unknown is asked about later under a lease.
--
-- The files and what they model:
--   Common: texts, Boolean tests and lists, and the lemmas on them.
--   Prisma: a table's queries as the Prisma client documents them, the parameter of the model.
--   Subscriptions/Types: domain/subscription.types.ts, the parameters of
--     domain/subscriptions.repository.ts, and the rows of prisma/schema.prisma.
--   Subscriptions/Store: the tables, and transactions as functions of them that fail with P2002 or
--     P2025; an error rolls its transaction back.
--   Subscriptions/Repository: infrastructure/prisma-subscriptions.repository.ts. Rows holds the
--     data that it writes; Initial, Lifecycle, Renewal and Due hold its operations under their own
--     names, `claimInitialPayment` as `claim_initial_payment`. Schedule makes a list of writes a
--     schedule of committed transactions. The other files prove: Unresolved and SingleCharge on
--     pending charges, Phase and Lifelong on the life of a row, UniqueIds on the primary key,
--     Settling on completions, leases and failures, Refusals on claims, Resuming on cancellation,
--     DueLaws on the queue of due rows.
--   Subscriptions/Calendar: `Date.setMonth`, written out over days and months.
--   Subscriptions/Period: application/helpers/subscription-period.helper.ts.
--   Subscriptions/App: a request or a batch as a function of the world, which is the tables, the
--     number of steps taken, the charges and mails sent out, and the variables that a batch counts
--     in, with exceptions, which undo none of these; the ports.
--   Subscriptions/UseCases: application/usecases and the other helpers. Helpers, Reconcile,
--     Confirm, Manage, Renew and Batch hold the operations, `execute` under the name of its class;
--     SingleCharge, BatchCharge, Charging, Items (one item of the batch), Counting (its loops) and
--     Pricing prove.
--   Content/Types, Content/Store: the rows of folders, clips, tags and views in
--     prisma/schema.prisma, the cascades of its relations, and transactions on these tables, which
--     read the clock and take new identifiers.
--   Content/Access: Defs holds application/clip-limit.ts and folder-access.ts and their Prisma
--     halves in infrastructure, `lockClipQuota` as `lock_clip_quota`; Frame and Upgrade prove.
--   Content/App: a request that runs transactions, each of which may not run or may lose its
--     answer, and that stores and deletes images.
--   Content/Clips: infrastructure/prisma-clips.repository.ts in Reads and Writes; the helpers of
--     application in Colors and Data; application/usecases in UseCases and Lists. Pages proves on
--     the cursors of the lists, Images on the images of clips.
--   Content/Trash: infrastructure/prisma-trash.repository.ts in Listing and Writes; the pagination
--     helper in Pages; application/usecases in UseCases. Cursors proves on the pages, Keeping on
--     what is not deleted for good.
--   Content/Folders: infrastructure/prisma-folders.repository.ts in Repository; the names, tags and
--     colors in Names; the reorder helper in Order; application/usecases in UseCases.
--   Content/Quota: the limit of a folder under every transaction on clips: Writes, Restoring and
--     Deleting prove it of each, Schedule of a list of them.
--   Sessions/Defs: infrastructure/jwt-auth-session.port.ts and prisma-oauth-state.store.ts of
--     src/auth, its refresh-token helper, and its use cases that refresh an access token and log
--     out. Revoking and Once prove.
--   The files Tests, and Subscriptions/Sample and Content/Sample with their in-memory clients, hold
--     concrete runs.
--
-- Paths of a component are those of its folder in src, and those of Content/Access are of
-- src/shared; prisma/schema.prisma is at the root.
--
-- Times are milliseconds since 1970. Strings are texts, and an amount is a natural number, as the
-- guards of the code make it. A `SELECT ... FOR UPDATE` locks the row for its transaction: each
-- transaction is one step, and a schedule is the order of the commits. The identifier and the
-- time that the database fills in on a create are arguments.
--
-- Other requests and batches come between transactions where a theorem is about a schedule. A use
-- case on its own is run with none in between; so the queries of `findDueAutoRenewalSubscriptions`,
-- which are not one transaction in the code, read one state of the tables, and are one step.
--
-- Parameters: the Prisma client, with the laws of Prisma.IsDocumented (a search finds a row that
-- passes and none only if no row does; findMany filters, sorts and cuts; updateMany changes the
-- rows that pass and counts them; create refuses a row that breaks a unique key); the payment
-- provider, the mailer, the clock, the configuration, SHA-256, `toISOString` and random numbers,
-- of which nothing is assumed. The database may fail at any step, also after a commit. Memory is
-- a client for which the laws are proved.
--
-- Parameters of Content: a client of the eight tables with the same laws, with the database's
-- `contains` without regard to case and its order of texts; the clock and the identifiers; the
-- image storage, which may fail at any step; the numbers of a folder's order and what is done with
-- them, which are JavaScript's; the color of a parsed text, the decoder of URLs, the order of
-- names in a locale and of code units; the configured days of the trash. Locks read nothing, and
-- each transaction is one step. A time of a purge that lies before 1970 is none. A transaction
-- that is rolled back gives its readings of the clock and its identifiers back.
--
-- In Sessions each statement is a step of its own. The clients of its two tables have the laws
-- above; the clock, random identifiers, SHA-256, and the service that signs and verifies tokens are
-- parameters of which nothing is assumed. The database answers there.
--
-- Fuel: the year of a day is searched from 1970 through as many years as the day has 365 days,
-- and a year has no fewer. The pages of due rows are read with one round more than there are rows,
-- since every round but the last passes a row for good; the property of it stands below.
--
-- Not modelled: an update that breaks a unique key, error messages and logs, HTTP (the Toss
-- gateway, the mail service, the controllers), offsets from UTC that change or are west of
-- Greenwich; and the rest of the server: the rest of src/auth, src/users,
-- src/workspaces, src/prisma, and of src/shared the guards, cookies, logs, metrics and storage.
pub mod Common
pub mod Prisma
pub mod Subscriptions
pub mod Content
pub mod Sessions
