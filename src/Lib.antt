-- ===== src/Lib.antt =====
-- Verification of the Go server of collectr: forms with branching rules, their submissions and
-- the grid of these, consent and the requests of data subjects, encryption, the audit log, sign-in,
-- permissions, short links, webhook deliveries and uploaded files. Paths below are from the
-- repository's root.
--
-- Parts of the program, and the files that model them:
--   * Forms.Schema: internal/modules/forms/domain/schema.go. The structs are records, the string
--     constants are data types with a last constructor for any other string, and a Go map is the
--     list of its entries in one order of iteration.
--   * Forms.Validate: internal/modules/forms/domain/validate.go, `Validate` and its helpers.
--     Issues has the issue list; Fields validateField and validateFormat; Graph walkGraph with
--     its colours; Placement the loops on pages and fields; Rules the checks of conditions and
--     actions; Publish puts them together. Search and Edges have lemmas on the search.
--   * Forms.Engine: internal/modules/forms/engine/engine.go. Conditions has evalCondition and its
--     comparisons, Pages evalPage and defaultNext, Walk has Evaluate. Errors, Loop and Path have
--     lemmas on it.
--   * Forms.Safety: how `Validate`, which runs before a version is published, and `Evaluate`,
--     which runs on each submission, fit together.
--   * Forms.Diff: internal/modules/forms/domain/diff.go. Changes has Diff and diffOptions, Grid
--     has BuildColumnRegistry and CellState; Blocking, Impact, Order, Columns and Cells have
--     lemmas on them.
--   * Audit: internal/modules/audit/chain.go. Encoding has the bytes that are hashed, Chain the
--     rows, Write and Verify; Order, Verdict and Tamper have lemmas on them. The table is the
--     list of its rows. SHA-256 and json.Marshal are parameters.
--   * Iam: Roles, Grants and Canonical have internal/modules/iam/domain/roles.go, the
--     capabilities of roles and of memberships; Actor what a signed-in user may do, from
--     internal/platform/authn/authn.go and Resolve of internal/modules/iam/app/service.go.
--   * Accounts: sign-in and membership of internal/modules/iam. Calls has methods that keep what
--     they wrote, Tables the rows, Store the queries of store/store.go; Factor the second factor,
--     Login the sign-in and internal/platform/password/password.go, Reset the passwords that are
--     reset or changed, from app/service.go, app/recovery.go and store/recovery.go; Members and
--     Invitations store/invitations.go and app/invitations.go. Sessions, Guarded, Refused, Attempts,
--     Closed, Enrol, Removed and Joined have lemmas on them.
--   * Webhooks: internal/modules/webhooks. Retry has the classification of attempts and the
--     backoff of domain/webhook.go and app/deliver.go; Delivery one delivery and its endpoint,
--     from store/store.go and app/dispatcher.go; Lifecycle the steps of one worker; Address and
--     Reach the addresses that a delivery may reach; Signing the signature of a delivery.
--   * Links: internal/modules/links. Resolution has Check of domain/link.go, the service of
--     app/service.go with its cache, and the queries of store/store.go; Keys and Fresh have
--     lemmas on them.
--   * Files: internal/modules/files/domain/file.go. Content has Detect, Accepts and CheckSize,
--     Detection lemmas on them.
--   * Crypto: Envelope has internal/platform/crypto/envelope.go, the keys of subjects wrapped
--     under the key of the deployment and data sealed under them, Roundtrip lemmas on it; Totp
--     has internal/platform/totp/totp.go, the codes of a second factor.
--   * Consent: internal/modules/consent/store/store.go, with internal/contracts/consent.go.
--     Identity has identifierHash, Tables the rows, Subjects the rows of subjects with their
--     keys, from UpsertSubject to Shred, Log the documents, the records and the answers derived
--     from them. Projection, Erasure and Keys have lemmas on them.
--   * Forms.Formats: internal/modules/forms/domain/format.go, `CheckFormat` with its patterns and
--     bounds.
--   * Submit: internal/modules/forms/app/submit.go and uploads.go, with the rows of
--     internal/modules/forms/store/store.go, and Validate and Bind of internal/modules/files,
--     which attach a file. Answers has the checks of answers, Tables the rows that one
--     transaction writes, Checks what Submit tests before it, Store what it writes. Steps,
--     Minimal, Fits, Complete, Sealed and Once have lemmas on it.
--   * Dsr: internal/modules/dsr, the requests of the persons whom data are about. Requests has
--     domain/dsr.go and the rows of requests, Tokens the magic links, Processor what fulfils a
--     request (app/processor.go, and erase_subject of internal/migrations/0005_dsr.sql), Rectify
--     the corrections of store/store.go; Forgotten has lemmas on an erasure and on a withdrawal.
--   * Prelude: tests, lists, sets, integers, text, bytes, dates and fallible code, which the
--     parts share.
--
-- How they interact: Forms.Safety uses Forms.Validate and Forms.Engine, which both use
-- Forms.Schema, as the Go packages do. Submit runs Forms.Engine on the answers, checks them with
-- Forms.Formats, records the grants with Consent, and seals the sensitive answers with the key of
-- the subject, under Crypto. Dsr opens, corrects and forgets what Submit stored: it uses the rows
-- of Submit and the keys and records of Consent. Accounts checks codes with Crypto.Totp and opens
-- their secrets with Crypto.Envelope, and reads the roles of Iam. The other parts stand alone and
-- share only Prelude.
--
-- The files with Examples in their names hold forms, tables and runs, and the theorems applied to them.
--
-- Parameters: the float64 operations, ParseFloat, FormatFloat and fmt.Sprint are fields of the
-- record Floats of Forms.Engine.Conditions, with no law assumed. Errors keep the values that the
-- code formats into their text.
--
-- Parameters too are AES-GCM, HMAC, SHA-256, Argon2id, base32, json.Marshal and json.Unmarshal,
-- uuid.Parse, the clock, whether Redis answers a call, which bytes a TEXT column takes, and what the
-- code draws at random (ids, keys, nonces, tokens); theorems state the laws that they need, such as
-- that AES-GCM opens what it sealed. A sum of HMAC-SHA1 is given by its 20 bytes. A uuid is a natural
-- number, a table the list of the rows that one tenant sees, or of all rows in Accounts and
-- Links, and a column of bytes that is NULL the empty list. A function that runs in one
-- transaction returns the tables after it or an error, on which nothing is kept; a method of
-- Accounts with several returns the tables in both cases.
--
-- Bounds: `Evaluate` loops for len(pages) + 1 rounds and so does `walk`; the theorem on it says
-- that the rounds are never used up. The recursion `visit` of walkGraph has no bound in Go; here
-- it is cut off at a depth of one more than the number of page ids that the schema mentions, and
-- the theorem on `validate` says that this depth is never reached. Sequence numbers, attempts,
-- versions and times are natural numbers, as the code counts them from 0 or 1; the wait of
-- Backoff, the drift of a timestamp and the size limit of a question keep their 64 bits.
--
-- Not modelled: HTTP handlers, SQL statements apart from those of the functions named above,
-- mail, object storage, metrics and the web client, whose behaviour is that of other systems;
-- cryptography itself. Click analytics, exports, statistics, rate limits and the publishing of
-- versions are not modelled either.
pub mod Accounts
pub mod Audit
pub mod Consent
pub mod Crypto
pub mod Dsr
pub mod Files
pub mod Forms
pub mod Iam
pub mod Links
pub mod Prelude
pub mod Submit
pub mod Webhooks
