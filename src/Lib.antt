-- ===== src/Lib.antt =====
-- A verification library for the backend: the parts of src/ whose correctness does not rest on one
-- function alone. Paths below are from the repository's root.
--
-- Prelude and its children hold the shared types, Boolean tests, list functions over native numbers
-- and the lemmas on counting and updating rows. Errors is src/lib/errors.ts and the result type of
-- code that throws. Store is the interface of the database client (src/lib/prisma.ts configures it):
-- a table is known by its rows, and every operation by what it does to them; Store.Lists meets the
-- interface by plain lists. Every component takes the client as a parameter.
--
-- Outbox is the transactional outbox. Outbox.Event is the row and its failure policy
-- (src/modules/outbox/outbox.policy.ts); Outbox.Claim is claimOutboxBatch, Outbox.Relay the rest of
-- src/modules/outbox/outbox.relay.ts, Outbox.Redrive is redriveDeadLetterEvent of
-- src/modules/outbox/outbox.service.ts, and Outbox.Worker is processNotification of
-- src/queues/notification.worker.ts. Outbox.Action lists every write that these make to one row, as
-- one alphabet, and Outbox.History is about all sequences of them: the interleavings of relays,
-- workers and administrators. The relay's loop has as fuel the ten batches of one tick, the bound
-- that the code itself sets. The worker takes the provider's answer, and what other transactions do
-- while the provider works, as parameters.
--
-- RateLimit is src/lib/rate-limit.ts: the bounded fallback counters and enforceRateLimit; the answer
-- of Redis is a parameter. Times are milliseconds as natural numbers.
--
-- Auth.Sessions is src/modules/auth/auth.sessions.service.ts: log-in, refresh-token rotation with the
-- detection of reuse, and log-out, each serializable transaction one step. Auth.Sessions.Steps reads
-- back what a rotation did, Revocation and History are about ended sessions, and Replay is about a
-- token that is presented twice.
--
-- Auth.Otp is the verification of one-time codes (src/modules/auth/auth.otp.service.ts and
-- auth.policy.ts), with what others do between its read and its writes as a parameter; Auth.Otp.Guesses
-- is about how often a code is guessed at.
--
-- Auth.PasswordReset is confirmPasswordReset of src/modules/auth/auth.password-reset.service.ts.
--
-- TenantScope is src/lib/tenant-scope.ts: the narrowing of every database operation of a request to
-- its organization. TenantScope.Narrow is about one operation's arguments, TenantScope.Isolation about
-- what reaches the database. Which models carry an organization is a parameter.
--
-- Idempotency is src/lib/idempotency.ts: Idempotency itself has runIdempotent, Idempotency.Transaction
-- runIdempotentTransaction, whose loop of three attempts is a count of the attempts that may follow;
-- Lease is about who may run an operation and Replay about what a finished one leaves. The JSON of a
-- response, and the secret that it is sealed to (Crypto), are an interface that may throw.
--
-- Stripe.Chargeable is src/modules/stripe/stripe.chargeable.ts, with Bounds on what may be charged and
-- Reservation on who pays for an item; the loop of two attempts is a list of two entries.
-- Stripe.Refunds is the self-service policy of src/modules/stripe/stripe.refunds.service.ts.
--
-- Stripe.Webhooks, Stripe.Payments and Stripe.Projection are src/modules/stripe/stripe.webhooks.service.ts:
-- the storing of an event with its outbox row (Outbox.Enqueue), the row of a payment (with Order on one
-- event, Arrival on all of them and Latest on the one that wins) and the items that a payment consumes.
--
-- Uploads is src/modules/uploads/uploads.service.ts: Uploads itself has initiation, completion and
-- deletion, Scan the worker's processUploadScan, Download createUploadDownload, and Security
-- upload-security.ts. What others write while the provider or the scanner answers is a parameter.
-- Vetting is about one scan, Ready and Calls about all calls and their interruptions, Quota about the
-- storage of a user, and Bandwidth about what downloads spend.
--
-- Access is permissionGuard of src/middleware/access-control.ts and assignRole and revokeRole of
-- src/modules/roles/roles.service.ts: Coherence is about the cached decisions that role changes leave,
-- Guard about the answers.
--
-- Pagination is src/lib/cursor-pagination.ts; its client asks for at most one page more than there are
-- rows, which is the fuel. ClientIp is src/lib/client-ip.ts but for the reading of one address from its
-- text: the forwarding header and the chain of proxies, with ClientIp.Chain on whom the chain trusts.
--
-- Chat is src/modules/chat/chat.service.ts: the statement that counts up a conversation's sequence and
-- inserts a message is one step; Sequence is about the numbers of the messages and Calls about all
-- calls and their interruptions.
--
-- Crypto is src/lib/crypto.ts, and Crypto.Unsubscribe src/modules/notifications/unsubscribe.ts: texts are
-- lists of character codes (Crypto.Text has splitting and joining at dots), and what they call of
-- node:crypto is a record of operations and laws. Crypto.RoundTrip is about what is read back.
--
-- Outbox.Relay.Drain is about a whole tick of the relay, each claim and each answer at a time of its own.
--
-- Organizations is src/modules/organizations: Members (role changes and removals), Guards and Owners
-- (what their last-owner guards give), Invitations, and Tenancy (the organization of a session,
-- organizations.tenancy.ts).
--
-- Identifiers, hashes and keys are numbers that are only compared. Not modelled: HTTP routing,
-- validation schemas, logging, metrics, the packages' cryptography, providers, and the audit row that a
-- transaction writes; a transaction that throws leaves the tables as they were.
pub mod Prelude
pub mod Errors
pub mod Store
pub mod Outbox
pub mod RateLimit
pub mod Auth
pub mod Idempotency
pub mod Organizations
pub mod Stripe
pub mod Uploads
pub mod Access
pub mod Pagination
pub mod ClientIp
pub mod Chat
pub mod Crypto
pub mod TenantScope
