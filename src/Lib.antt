-- ===== src/Lib.antt =====
-- A verification library for the TypeScript parts of ShareSlices that carry its own logic.
--
-- The program's parts and their files:
--   * Gallery/Quota.antt models api/src/application/gallery/quota-accounting.ts: `reserve`,
--     `commit`, `release`, `reconcile` and `activatePolicy` over the policy, account and
--     reservation tables, with the transaction that rolls back on an error. `run` is any sequence
--     of these calls.
--   * Gallery/Listing.antt holds the words of api/src/application/gallery/domain.ts and the rows of
--     the listing tables. Its children are Transitions and Store (listing-transitions.ts:
--     `decideGalleryTransition` and `PostgresGalleryTransitionStore.transition`), Promotion
--     (proposal-promotion.ts: `decideProposalResolution` and `resolve`), Closure
--     (source-closure.ts: `closeAccount`) and Calls, where the three services write the same tables
--     in any order; a write that the row check on listed revisions or the index on open listings
--     refuses is rolled back. Rows says which moves a row can make, Sealed and Concurrency draw on it;
--     Ending is about `closeAccount`.
--   * Gallery/Governance.antt holds the rows of the governance tables over the listing tables. Its
--     children model api/src/application/gallery/governance.ts: Measures (`propagateRestriction`,
--     `closeBlockedProposals`, `recomputeArtifact`), Effects, Reversals and Chain (`applyDecision`
--     by its branches, `closeDerivedBasesAndRecompute`, `resolveAppeal`,
--     `removeFeaturedIfIneligible`), Decisions (`decide`, `decisionResponse`), Appeals (`appeal`),
--     Featured (`setFeatured`, `removeFeatured`); Authority models administrator-authority.ts,
--     Reports the method `submit` of reports.ts, Closing the appeals of `closeAccount`, and
--     Sequences the calls of all these services on the shared tables. Steps, Committed, Following,
--     Reach, Clearing, Once, Keeping, Reporting and Lasting hold the proofs, Outcomes their lemmas.
--   * Gallery/Eligibility.antt models api/src/application/gallery/eligibility.ts:
--     `evaluateGalleryEligibility` and `readGalleryRuntimeEligibility`, with `getDomain` of the
--     package tldts as a parameter; Separation holds the proofs.
--   * Gallery/Copy.antt holds the rows of api/src/application/gallery/copy.ts; its child Calls has
--     the methods `accept`, `recover` and `get`, which write the quota tables of Gallery/Quota.antt
--     on their own and read the governance tables. Accepting, Reserving and Repeating hold the
--     proofs.
--   * Cloudflare.antt models parts of api/src/cloudflare: JobWake (job-wake.ts: `uuid`,
--     `createCloudflareJobWake`, `parseCloudflareJobWake`; Valid, Roundtrip and Reading hold the proofs)
--     and Outbox (job-outbox.ts: the rows and the statements; its children are Drain with
--     `drainCloudflareJobOutbox`, Recovery with `recoverLostCloudflareJobWakes`, and Counting,
--     Rounds, Tracking, Draining, Keeping and Retrying with the proofs). The outbox sends the messages of JobWake.
--   * Preflight.antt models web/src/artifacts/archive-preflight.ts: Paths (`safePath`,
--     `isIgnoredMetadata`, `extension`), Entries (`preflightEntries`) and Directory
--     (`findEndOfCentralDirectory`, `unsupportedUnixEntry`).
--   * Publication.antt models api/src/application/artifacts/publication-viewer.ts and
--     api/src/db/publication-content-repository.ts: Paths (`normalizeContentPath` with the decoding
--     of percent escapes), Rows, Store (`publish`; the evidence cipher is a parameter),
--     Sharing (`unpublish`, `updateExpiration`, `resolveShareSlug`), Assets (the queries on versions
--     and files) and Viewer (the class `PublicationViewerService`). Publishing, Replay, Resolution,
--     Late, History, Viewing and Refusals hold the proofs about them, Newest and Indexes their
--     lemmas.
--   * Storage.antt models api/src/storage/in-memory-object-storage.ts: the class
--     `InMemoryObjectStorage`; Keys has the order of the keys, Paging the sequence of pages.
--   * Reconciliation.antt models api/src/application/reconciliation/reconciliation.ts:
--     `ReconciliationModule.run` over that storage, with the repository as an interface; Sweeping
--     holds the proofs.
--   * Base.antt has what the parts share: Boolean tests, lists, tables and texts; Base/Attempts.antt
--     has results that may be a thrown error.
--
-- How the code corresponds: a database table is a list of rows; a statement is a function on the
-- rows; a service's method is a function from the tables to its answer and the tables after it. A
-- transaction is one step, since the rows it writes are locked; that is an assumption for
-- `reconcile`, which reads its sums before it locks the account, and for the drain of the outbox,
-- where no other session claims a row between two of its statements. Random identifiers are taken
-- to be new, so the unique index on the outbox's `wake_id` refuses none. Of two publications that
-- were created at one instant, the one inserted last counts as the newer. Clock readings, fresh identifiers
-- and the answers of tables that are not modelled are inputs. Numbers are natural numbers: where
-- the database subtracts, a check constraint refuses a result below zero, and the model rolls back
-- there. Strings from the browser are lists of UTF-16 code units.
--
-- Loops run on the structure of their input, on the number of rounds that the code computes before
-- it enters the loop, or on the limit that bounds the loop (`maxMessages`), so no fuel can run out;
-- only Storage.Paging.follow counts the pages that a client reads, and as many as there are keys
-- are enough.
--
-- Not modelled: HTTP routes, authentication and e-mail, the clients of S3 and R2, the streaming
-- decompression of fflate, the worker of the copy jobs, downloads, the queue consumer, the scheduled
-- gate and the containers of the Cloudflare runtime, the artifacts' intake and management (its deletion
-- of an artifact closes listings), the owner's operations (owner-operations.ts: sharing and
-- withdrawing write listings too), the
-- governance queries that change only the audit log (`queue`, `getCase`, `notifications`), the
-- texts of notifications, evidence holds, the repository of the reconciliation, and the user
-- interface.
pub mod Base
pub mod Cloudflare
pub mod Gallery
pub mod Preflight
pub mod Publication
pub mod Reconciliation
pub mod Storage
