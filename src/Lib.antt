-- ===== src/Lib.antt =====
-- Verification of the core of the meal-delivery services: orders, payments, payouts, stock,
-- reviews, accounts and restaurants that apply.
--
-- The catalog service (catalog-service/src) keeps the orders of a food delivery platform. A
-- customer places an order (createOrder), which the restaurant accepts or declines; the payment
-- service reports on the payment; the restaurant prepares, readies and completes the order, which
-- earns the customer points; the customer collects it with a code or a token. A sweep each minute
-- cancels orders that were not paid in time. Here each part is a module, and its file names the
-- source that it follows.
--
-- - Entities: the rows of catalog-service/src/entities and the messages to Kafka and the sockets.
-- - World: the database, the messages sent and the cache of reward rules as one state; a handler is
--   a function from a state to a result and a state. transaction rolls the database back and
--   nothing else; attempt is a try block that logs; notify is a socket message, whose failures are
--   caught; emit is a Kafka message, which fails if the broker is away. A table with a unique
--   column is a map from that column, a table that is only inserted into a list.
-- - Promo, Promo.Codes: catalog-service/src/modules/promos/promo.service.ts (applyPromo is
--   apply_promo, computeSharedPromo is compute_shared_promo, ensureUniqueCode is
--   ensure_unique_code).
-- - Rewards: catalog-service/src/modules/rewards/rewards.service.ts (addPointsForCompletedOrder,
--   processRedemption, adminAdjustPoints, getActiveRule and the rules' createRule, updateRule,
--   deleteRule).
-- - Pickup: catalog-service/src/modules/order/order-pickup.service.ts (issuePickupForOrder,
--   verifyPickupAsOwner).
-- - Fulfilment, Payments, Scheduling, Checkout: catalog-service/src/modules/order/order.service.ts.
--   Fulfilment has the calls of owner and customer (ownerResponse, markOrderPreparing, markAsReady,
--   markAsComplete, cancelOrder, markCustomerComing, toggleMenuAvailability), Payments has
--   handlePaymentInitiated, handlePaymentResult and maskPickupCode, Scheduling has
--   validateSchedulingTime, rescheduleOrder and unscheduleOrder, Checkout has createOrder, which
--   uses Promo, Rewards and Scheduling.
-- - Scheduler: catalog-service/src/modules/order/order-scheduler.service.ts, which cancels through
--   Fulfilment.
-- - Charges: payment-service/src/modules/payment/payment.service.ts, the payments of orders. Splits,
--   Gate and Checkout are handleOrderAwaitingPayment, Subaccounts is createSubaccountInternal, Webhook is
--   the payment flow of handleChapaWebhook and verifyTxRef; Orders sets them against what the
--   catalog service makes of their messages.
-- - Payouts: the same file, what the platform owes to restaurants for promo codes. Create is
--   createAggregatedBatch, Process is processAggregatedBatch, Transfers is the flow of transfer
--   results of handleChapaWebhook, and Provider is bulkTransfer of
--   payment-service/src/modules/payment/chapa.service.ts. Runs has sequences of these calls. The
--   tables of this service are in its own state, Ledger, which holds the Store of the payouts: lists
--   of rows, or maps where rows are only found by one key.
-- - Inventory: catalog-service/src/modules/inventory/inventory.service.ts, with its own state, Room
--   (deductStockForOrder, updateStockManually, replenishStock, handleDailyStockReset, setParLevel,
--   bulkSetParLevels, removeParLevel, syncAvailability).
-- - Reviews: catalog-service/src/modules/reviews/reviews.service.ts (create, update, delete and
--   canReview in Calls, the ratings that are kept with dishes and restaurants in the parent).
-- - Auth: auth-service/src/modules/AuthModule/auth.service.ts, with its own Store. Sessions has login,
--   refresh, revoke and logout, Codes has verifyOtp, resendOtp, forgotPassword and resetPassword,
--   Accounts has register, ssoLogin and the deletion of customers, Members has changePassword,
--   updateProfile, assignRole and removeRole of auth-service/src/modules/UserModule/user.service.ts.
--   Calls has runs of them with the time that passes; Evolution, Steps, Sent, Posted and MemberSteps say how
--   a call may change the tables of sessions and codes.
-- - Onboarding: auth-service/src/modules/restaurants/restaurants.service.ts. Calls has register,
--   addDocument, updateProfile, updateAddress, updateHours and upsertBankDetails, Review has
--   updateStatus, which gives and takes roles through Auth.Members, and Catalog has
--   handleRestaurantUpdate of catalog-service/src/modules/restaurants/restaurants.consumer.ts.
-- - Permissions: auth-service/src/modules/RolesModule/roles.service.ts (createRole, assignPermissions,
--   deleteRole).
-- - Lifecycle: runs of the operations that change an order's status.
-- - Prelude: the names and lemmas that these share. Fixtures: the rows of the tests, which stand in
--   the module Tests of each part.
--
-- Names are those of the source in snake case (createOrder is create_order). Identifiers are
-- natural numbers, and those of new rows are arguments, as are random codes and the clock. Times
-- are milliseconds, and one call sees one time. Prices, gross and promo discounts are cents; totals
-- and what points are worth are ten-thousandths of the currency unit, as rates have four decimals;
-- splits are millionths. Where the code rounds doubles to two decimals, the model rounds the exact
-- quotient half up, as the database does for the total and the discount of an order, which has columns
-- of two decimals. Texts are lists of
-- ASCII codes.
--
-- In the payment service amounts are cents too, shares of a payment are exact fractions, new rows take
-- the next number, and the answers of Chapa over HTTP are arguments, one for each call; a provider
-- in Payouts is any function from transfers to a reply, of which bulk_transfer is one. Groups of
-- createAggregatedBatch come in the order of their first row.
--
-- In the authentication service bcrypt, sha256, jsonwebtoken and the identity providers are the fields of
-- Env, the salts and codes that are drawn are arguments, and the clock of the database, by which a session is
-- created, is one of the fields too (db_time), as the service computes the expiry by its own. Averages of ratings are
-- in tenths of a star. Where a Kafka message is awaited and not caught, its failure is the call's
-- (Reviews); where it is not awaited or skipped (Onboarding), it is only lost. Which of two stacked
-- patterns a consumer listens to is an argument.
--
-- The packages jsonwebtoken (Tokens) and date-fns-tz (Zone) are parameters, as is what TypeORM
-- finds for a query with an undefined key. All loops run over lists, except that of
-- ensureUniqueCode, which has one random number for each of its six rounds, and that over due jobs,
-- which stops at fifty, and that of bulkTransfer, which recurses on its three attempts.
--
-- Not modelled: columns that are only carried along (names, currency, instructions, meta), failures
-- of the database itself (but for the update of a payout's children, which a Context may refuse), the expiry of the cache, two handlers that run at once (the rows are
-- locked or the database serialises them only in part), the queries that only read, the
-- personalization counters, the signature of a webhook, new transaction references, the platform's
-- account and refunds, access tokens with their permissions, the audit log, profile pictures, and the
-- other services.
pub mod Prelude
pub mod Entities
pub mod World
pub mod Promo
pub mod Rewards
pub mod Pickup
pub mod Fulfilment
pub mod Payments
pub mod Scheduling
pub mod Checkout
pub mod Scheduler
pub mod Lifecycle
pub mod Payouts
pub mod Charges
pub mod Inventory
pub mod Auth
pub mod Reviews
pub mod Onboarding
pub mod Permissions
pub mod Fixtures
