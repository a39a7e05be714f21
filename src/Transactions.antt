-- ===== src/Transactions.antt =====
-- src/global/prisma: which client a query goes through, the transactions around methods, and the log
-- of the queries.
pub mod Nested
pub mod Queries
use aideep_websocket.Common.{Option, none, some, Io, throw, not_initialized}

-- The Prisma client: itself as a `TransactionClient`, $transaction, which hands the client of a new
-- transaction to its argument, and the queries that a client sends.
pub record PrismaClient (W : Type 0) : Type 1 where
  pub Tx : Type 0
  pub Query : Type 0
  pub Answer : Type 0
  pub itself : Tx
  pub transaction : {A : Type 0} → (Tx → Io W A) → Io W A
  pub send : Tx → Query → Io W Answer

module _ {W : Type 0} (prisma : PrismaClient W) where
  -- A method and all that it calls, for what transactionStorage.getStore() gives.
  abbrev pub Scoped : Type 0 → Type 0
  Scoped A = Option prisma.Tx → Io W A

  -- get client()
  unfoldable pub client : Option prisma.Tx → prisma.Tx
  client none = prisma.itself
  client (some tx) = tx

  -- A query of a repository, which goes through prisma.client.
  unfoldable pub query : prisma.Query → Scoped prisma.Answer
  unfolding client
  query q store = prisma.send (client store) q

  -- PrismaService.runInTransaction
  unfoldable pub run_in_transaction : {A : Type 0} → Scoped A → Scoped A
  run_in_transaction fn (some tx) = fn (some tx)
  run_in_transaction fn none = prisma.transaction (λ tx. fn (some tx))

  -- runInTransaction of transaction.storage.ts, and a method with @Transactional. `_runner` is null
  -- until onModuleInit has set it.
  pub data Runner : Type 0 where
    unset set : Runner

  unfoldable pub transactional : {A : Type 0} → Runner → Scoped A → Scoped A
  unfolding run_in_transaction
  transactional unset fn store = throw not_initialized
  transactional set fn store = run_in_transaction fn store
