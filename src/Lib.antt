-- ===== src/Lib.antt =====
-- Coloanex, a lending platform: the services of coloanex-api that decide on transactions and keep
-- contracts, payments, subscriptions and wallets.
--
-- The program is a NestJS server. A controller calls a service with the caller's token; a service
-- reads and writes the database through Prisma, asks the transaction orchestrator whether the caller
-- may make a transaction and who pays its gas, and may record it on a chain. The web and mobile
-- clients only call the server.
--
-- Common: numbers, lists, options, texts and signed integers.
-- Db: the rows of coloanex-api/prisma/schema.prisma (Db/Rows), Prisma's calls on a table (Db/Table),
--   and what a request handler is (Db/Handler): a function from the database to a result and a
--   database. What is written before an exception stays written, except in $transaction.
-- Orchestrator: coloanex-api/src/transaction-orchestrator. Gas is gas-resolver.service.ts; Usage and
--   Subscriptions are subscription-resolver.service.ts (isSubscriptionActive, getUsageWindowDays,
--   ensureWindowFresh, isLimitReached, resolveActiveSubscription, consumeUsage); Policy is
--   transaction-policy-engine.service.ts; Wallets is wallet-resolver.service.ts; Decide is
--   orchestrate of transaction-orchestrator.service.ts. The other files are about its decisions.
-- Service: the caller, the clock, fresh identifiers and the chain, which every handler is given.
-- Contracts: coloanex-api/src/contracts/contracts.service.ts. Installments and Schedule are
--   calculateInstallments and createPaymentSchedules; Drafting is create and
--   generateFromLoanApproval; Editing is update, generateContractPdf, reportContract and remove;
--   Listing is findAll and findOne; Signing is signContract; Disbursing is
--   ensureDisbursementPaymentCompleted, ensureContractActivatedState, signAndDisburse and disburse.
--   Ledger is the abstract view of the table of contracts: what each loan owes.
-- Subscriptions: coloanex-api/src/subscriptions/subscriptions.service.ts. Lifecycle is
--   computeLifecycleStatus and resolvePlanDurationMs; Purchase is purchase; Select is
--   selectSubscription; Plans is createPlan, updatePlan and removePlan; Admin is create, update and
--   remove.
-- Wallets: coloanex-api/src/wallets/wallets.service.ts. Service is create; Changes is update,
--   setPrimary, remove and updateGasPaymentMode.
-- Payments: Configs and Configuring are the resolution of a configuration, and upsert and remove, of
--   coloanex-api/src/payment-configs/payment-configs.service.ts;
--   Verify and Apply are verifyPayment, and Webhook is initiatePayment, lookupPayment and
--   processWebhook, of coloanex-api/src/payments/payments.service.ts.
-- Loans: coloanex-api/src/loans/loans.service.ts. Apply is create, findOne and the lists of a
--   borrower; Change is update and remove; Review is review and makePayment.
-- Transactions: coloanex-api/src/transactions/transactions.service.ts. Record is create, updateStatus
--   and two lists; Buckets and Summary are getWalletSummary.
-- Rules: coloanex-api/src/rules/rules.service.ts. Service is create, findOne, update and remove.
-- System: Requests and Reachable are sequences of requests on loans, contracts, payments and
--   transactions; Permits is what each request may do to the ledger of contracts.
-- Tests: a small database, and runs on it.
--
-- Numbers: amounts are whole hundredths, as the columns are Decimal(20, 2), and rates are hundredths
-- of a percent. The floating-point fractions of the program are taken exactly, so that a tie
-- which floating point rounds down is rounded up here. Amounts and terms of requests are natural
-- numbers; the negative ones that the review of a loan lets through are not modelled. Instants are
-- milliseconds, and all of one request's readings of the clock agree. Identifiers, addresses and
-- texts that are only compared are numbers. Loops run over lists or count down what is left; the loop
-- over the buckets of a summary has fuel, one turn for every instant of the range and two more, which
-- is enough as every turn moves the cursor on.
--
-- Given from outside: the calendar of the JavaScript Date, fresh identifiers, the chain's answer, the
-- payment gateways' answers, the configuration in the environment. Requests are run one at a time:
-- two requests that interleave are not modelled. Left out: mail, PDF files and uploads, the merged
-- JSON of the chain's data but its signing hash, the activity logs of other services, queries with
-- pages for display, and the services of KYC, users, roles and analytics.
pub mod Common
pub mod Db
pub mod Orchestrator
pub mod Service
pub mod Contracts
pub mod Wallets
pub mod Subscriptions
pub mod Payments
pub mod Loans
pub mod Transactions
pub mod Rules
pub mod System
pub mod Tests
