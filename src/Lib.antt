-- ===== src/Lib.antt =====
-- Verification of the marketplace's core: what a sale owes, how the payment is booked in the ledger and
-- how refunds and settlements move it; what an uploaded asset's Content Credentials establish; how
-- listings are ordered; and how requests are limited.
--
-- The program's parts and their files. Paths are from the repository's root.
--   internal/platform/money/money.go: `Money`, an `int64` of minor units with a currency. Money/Types
--     has the types, Money/Wide the 128-bit `mulDivRem` and `mulDivRound`, Money/Arith the methods
--     (`Add`, `Sub`, `MulRatio`, `Sum` and the others), Money/Split `Allocate`. Money/Exact,
--     Money/Round and Money/Sums state these against exact arithmetic.
--   internal/modules/tax/tax.go: `Compute` prices a line in sections. Tax/Types has the records,
--     Tax/Rules the rules (`validate`, `classify`, GST, TCS, TDS), Tax/Compute the rest of
--     `Compute` and `Verify`. Tax/Levies, Tax/Stages, Tax/Verified and Tax/Correct follow its sections.
--   internal/modules/ledger/ledger.go: `Validate` and `Post` of journal entries (Ledger/Types,
--     Ledger/Post), inside the transaction of `runOnce` of internal/platform/db/db.go. Ledger/Sound
--     is about `Validate`, Ledger/Balance about the journal's trial balance, Ledger/Replay about
--     idempotency keys.
--   internal/modules/orders: refund.go is Orders/Refund, and its entry is the subject of
--     Orders/Reversal, with Orders/Amounts and Orders/Entries. The table `order_transitions_allowed`
--     of db/migrations/0006_orders_payments.sql, `transition` of checkout.go and
--     `applyRefundStatuses` are Orders/Machine. `postCaptureLedger` and `splitCommissionGST` of
--     confirm.go are Orders/Capture, with Orders/Balanced and Orders/Fees. `releaseOne` and
--     `applyOffsets` of settlement.go are Orders/Settlement, with Orders/Offsets and Orders/Release.
--     Of webhook.go, the entry of `postChargebackLoss` is Orders/Chargeback, with Orders/Loss;
--     `HandleWebhook` is Orders/Webhook/Handler, with the rest of Orders/Webhook on how often an
--     event is applied; `onDispute` with the rest of `postChargebackLoss` is Orders/Dispute/Handler, with the
--     other modules of Orders/Dispute. `ConfirmPayment`, `recordCapture`, `onPaymentCaptured` and
--     `onPaymentFailed` are Orders/Payment/Handler, each call being one transaction; Orders/Payment/Licenses, Awaiting,
--     Elsewhere and Entitled follow a sale through any calls, Orders/Payment/Late is about a payment that is used again and a
--     capture behind a failed attempt.
--   internal/modules/provenance: cbor.go is Provenance/Cbor (Values, Access, Decode, Encode), with
--     Cbor/Bounds and Cbor/RoundTrip. c2pa.go is Provenance/Container (the walks over JPEG, PNG, BMFF and
--     JUMBF), Provenance/Ranges (`excludeRanges`), Provenance/Strict and Provenance/Claim (decoding and
--     comparing claims), Provenance/Cose (the signature), Provenance/Binding (`verifyHardBinding`) and
--     Provenance/Evaluate (`ExtractC2PA`), of which Provenance/Trusted puts the parts together. `Assess`
--     of provenance.go is Provenance/Assess, with Provenance/Routed.
--   internal/modules/ranking/ranking.go: Ranking/Formula has the gate, the exposure factor and `Score`,
--     Ranking/Sorting `Order`; Ranking/Exposure and Ranking/Reproducible are about them.
--   internal/platform/ratelimit/ratelimit.go: RateLimit/Limiter has `AllowN` and `Sweep`, RateLimit/Table the
--     map; RateLimit/Rate, RateLimit/Bound and RateLimit/Forgets are about what is granted.
--   internal/platform/ids/ids.go: Ids/Uuid has `NewUUIDv7`, with Ids/Monotone; Ids/Public has the public
--     identifiers, with Ids/Readable.
--   internal/platform/validate/validate.go: Validate/Fields has the validators of tax and bank
--     numbers, of which Validate/Checksum is about the GSTIN's check character.
--   Bytes has byte strings and big-endian numbers, which several parts use.
-- An order's line carries the breakdown of `Compute`; capture, refund and release make ledger entries
-- out of it, which `Post` validates and writes.
--
-- The model. A Go value of type `int64` is an integer ℤ, with each operation wrapped to 64 bits as
-- written (Prelude/Int64); `IsInt64` says that a value is one. A function that returns an error
-- returns a `Result` of the package's errors (Prelude/Fallible), and `Ends` (Prelude/Outcome) says
-- which errors and which values can come out. The tables of the journal are lists, and a
-- statement of the database may fail by a parameter. UUIDs are numbers. Loops are structural
-- recursion where they can be. The walks over a container take a number of rounds, one more than the
-- bytes, which is enough since every round goes up (Container/Scan, Container/Jpeg, Container/Jumbf); the
-- depth of JUMBF boxes and the CBOR decoder have the source's own limits. A slice out of bounds
-- and a division by 0, which panic, are results of their own.
--
-- Parameters: what the database finds for an account (`Accounts`), what package ids and the clock
-- give, `lower`, and an amount's `Decimal()` and an item's printed UUID where they only go into a
-- key. The entries of orders are what the code hands to `Post`, in its order.
--
-- Of `HandleWebhook`: what the provider's adapter reads from a request, the digest, and the effect of an
-- event on the rest of the service. Of the validators: trimming and the change of case. Clocks and random
-- bytes are inputs of the calls that read them; concurrent calls are taken one after the other, as
-- their locks make them.
--
-- Of the provenance module: the parser of certificates, the digests and the signatures (`Crypto`), and
-- the equality of floats. Of the limiter: the hash. Of the ranking: the floating-point decay curve.
--
-- Not modelled: HTTP, SQL queries that only read, the texts of explanations, notes and errors (they are
-- constructors), metrics, metadata, most audit and outbox records, the payment provider, image and text
-- hashes, and the packages that are I/O or glue.
pub mod Prelude
pub mod Money
pub mod Tax
pub mod Ledger
pub mod Orders
pub mod Bytes
pub mod Provenance
pub mod RateLimit
pub mod Ranking
pub mod Ids
pub mod Validate
