-- ===== src/Lib.antt =====
-- Verification library of the school backend: resumable uploads, teacher portal permissions, the chat
-- policies, the stock of the canteen, the store of revoked tokens, the payment of fees, and the
-- usernames and passwords of students.
--
-- Uploads. A client creates an upload session, sends the file in chunks at the offset that the
-- server reports, and completes it; the server assembles the object at its storage provider, checks
-- it, and links one file record. Upload/Status.antt, Upload/Session.antt, Upload/Create.antt and
-- Upload/Finalize.antt model src/modules/upload/upload-session.service.ts: the states and
-- `VALID_TRANSITIONS`, `cancelSession`, `expireSession`, `createSession` behind its validation, and
-- `finalizeSession`. Upload/Transfer.antt and Upload/Complete.antt model
-- src/modules/upload/upload-transfer.service.ts: `parseChunkHeaders`, `transferChunk`,
-- `assertPartsCover` and `completeUploadSession`; Upload/Mime.antt its type gate and the tables of
-- src/modules/upload/media.pipeline.ts. Upload/Db.antt has the tables of prisma/schema.prisma.
-- Every operation takes the database at its reads and at its writes apart, so that requests may run
-- in between, and a transaction that throws leaves nothing. Upload/Steps.antt interleaves the atomic
-- steps of any number of requests; its child modules carry the invariant through each step.
-- Upload/Invariant.antt, Upload/Ledger.antt, Upload/Protocol.antt, Upload/Answers.antt and
-- Upload/Replay.antt are about a single session, its part ledger, its client and its answers, and
-- Upload/Verified.antt and Upload/Cancelled.antt about what a completion has checked and a
-- cancellation has changed, and Upload/Carried.antt about what a file record keeps of its session.
--
-- Portal. Portal/Types.antt and Portal/Resolve.antt model src/modules/teacher/permissions: the stored
-- levels, `normalizeStoredPermissions` and `resolveTeacherPermissions`. Portal/Denial.antt,
-- Portal/Grants.antt and Portal/Legacy.antt are about what shuts and opens a feature.
--
-- Chat. Chat/AppGate.antt, Chat/Post.antt and Chat/Dm.antt model three files of
-- src/modules/chat/services: teacher-app-chat-permissions.service.ts, which asks the portal
-- permissions, chat-permissions.service.ts with `resolveCanPost`, and chat-dm-policy.service.ts with
-- `assertCanCreateDirectMessage`. Chat/Gated.antt, Chat/Flags.antt and
-- Chat/Policy.antt are about their decisions; Chat/Enrolled.antt describes what they look up.
--
-- Blacklist. Blacklist/Store.antt models src/config/blacklist-store.ts: `checkBlacklisted` and
-- `putBlacklist` over two Redis servers, each of which may fail to answer; Blacklist/Revoked.antt is
-- about what a revocation comes to.
--
-- Canteen. Canteen/Stock.antt models src/modules/canteen/canteen-stock.ts: stock as boxes and loose
-- units, and the quantities of a sale; Canteen/Conserved.antt and Canteen/Lines.antt are about what
-- the two keep.
--
-- Fees. Fees/Rows.antt, Fees/Db.antt, Fees/Receipts.antt, Fees/Waterfall.antt, Fees/Replay.antt,
-- Fees/Pay.antt, Fees/Revert.antt and Fees/Allocate.antt model src/modules/admin/routes/fee.routes.ts:
-- the amounts and statuses of fees, `generateReceiptNumber`, `POST /payments/waterfall`,
-- `POST /payments`, `POST /payments/:id/revert`, `POST /payments/allocate` and
-- `executeStudentAllocInTx`, and Fees/Family.antt
-- and Fees/FamilyPay.antt the two payments of a family; Fees/Breakdown.antt and Fees/Heads.antt model
-- src/modules/admin/services/fee-breakdown.utils.ts and the checks of the chosen heads. A handler takes
-- the tables that its first lookups, each of its attempts and its last lookup find, so that others may
-- run in between; a transaction holds the locks of its rows and is one step. Fees/Books.antt has the
-- invariant of the accounts and Fees/Traffic.antt the runs of transactions; Fees/Poured.antt,
-- Fees/Fresh.antt and Fees/Oldest.antt are about the waterfall, Fees/Once.antt about its keys,
-- Fees/Marked.antt and Fees/Undo.antt about reverts, Fees/Selected.antt, Fees/Stored.antt, Fees/Exact.antt,
-- Fees/Twice.antt and Fees/Tracked.antt about allocations, the
-- modules below Fees/Family.antt and Fees/FamilyPay.antt about families, and Fees/Numbering.antt, Fees/Merged.antt and
-- Fees/Statuses.antt about numbers, heads and statuses. Amounts are in paise and not negative; a
-- negative amount is refused by the same checks as 0. A number is tried ten times, as in the source.
--
-- Credentials. Credentials/Username.antt models src/utils/username.ts: `generateUsername`,
-- `decodeUsername`, `lettersToRoll` and what they use, on lists of character codes;
-- Credentials/Decimal.antt, Credentials/Letters.antt and Credentials/RoundTrip.antt are about the digits of
-- a number, its letters and decoding.
-- Credentials/Password.antt models `generatePassword` of the same file and
-- src/utils/password-policy.ts, and Credentials/Strong.antt is about both; the answers of `randomInt`
-- are a parameter, by the number of the call.
--
-- Ids, keys, etags and times are native natural numbers, and byte counts are the integers that the
-- headers' check lets through. `awaitFinalizeOutcome` polls 20 times, as in the source. The client
-- of Upload/Protocol.antt runs on a number of chunks; its theorem says how many are enough. The
-- storage provider, the reading of a header as a number, and whether the database grants a lock or
-- accepts a transaction, or a write of a best-effort cleanup, are parameters. Not modelled: the validation of a create request, logging,
-- provider aborts, the storage backends, and the other modules of src.
pub mod Prelude
pub mod Blacklist
pub mod Canteen
pub mod Chat
pub mod Credentials
pub mod Fees
pub mod Portal
pub mod Upload
