-- ===== src/Transactions/Nested.antt =====
-- Methods with @Transactional that call each other, and that catch each other's errors:
-- src/global/prisma/transactional.decorator.ts.
use aideep_websocket.Common.{
  ◌≡◌, refl, ◌∙◌, sym, none, some, Io, pure, throw, err, Fault, ◌>>◌, ◌>>=◌, catch,
}
use aideep_websocket.Transactions.{
  PrismaClient, Scoped, set, client, query, run_in_transaction, transactional,
}

module _ {W : Type 0} (prisma : PrismaClient W) where
  -- The body of a method: its end, an error, a query with what follows its answer, one part after
  -- another, a call of a method with @Transactional, and a part whose error is caught.
  pub data Body : Type 0 where
    done : Body
    fails : Fault → Body
    asks : prisma.Query → (prisma.Answer → Body) → Body
    both : Body → Body → Body
    calls : Body → Body
    caught : Body → Body

  -- What the decorated methods and their repositories do, for the client that is in the storage.
  unfoldable pub run : Body → Scoped prisma (Unit {0})
  unfolding transactional query
  run done store = pure tt
  run (fails e) store = throw e
  run (asks q next) store = query prisma q store >>= λ answer. run (next answer) store
  run (both first second) store = run first store >> run second store
  run (calls body) store = transactional prisma set (run body) store
  run (caught body) store = catch (run body store) (λ _. pure tt)

  -- The queries of a body, all sent to one client.
  unfoldable pub sent_to : prisma.Tx → Body → Io W (Unit {0})
  sent_to tx done = pure tt
  sent_to tx (fails e) = throw e
  sent_to tx (asks q next) = prisma.send tx q >>= λ answer. sent_to tx (next answer)
  sent_to tx (both first second) = sent_to tx first >> sent_to tx second
  sent_to tx (calls body) = sent_to tx body
  sent_to tx (caught body) = catch (sent_to tx body) (λ _. pure tt)

  inside : (body : Body) (tx : prisma.Tx) → run body (some tx) ≡ sent_to tx body
  unfolding run sent_to transactional run_in_transaction query client
  inside done tx = refl
  inside (fails e) tx = refl
  inside (asks q next) tx = λ i. prisma.send tx q >>= λ answer. inside (next answer) tx i
  inside (both first second) tx = λ i. inside first tx i >> inside second tx i
  inside (calls body) tx = inside body tx
  inside (caught body) tx = λ i. catch (inside body tx i) (λ _. pure tt)

  -- What the documentation of Prisma says of $transaction: if its argument fails, none of the
  -- queries that were sent to the client of the transaction has changed the database.
  pub record IsAtomic {V : Type 0} (database : W → V) : Type 0 where
    pub rolls_back :
        (body : Body) (w w' : W) (e : Fault)
        → prisma.transaction (λ tx. sent_to tx body) w ≡ (err e, w')
        → database w' ≡ database w

  -- Let a transaction of Prisma that fails leave the database as it was, if all the queries in it
  -- were sent to its client. A method with @Transactional, the body of which has queries, errors,
  -- parts that are caught and calls of other such methods at any depth, opens one transaction if it
  -- is called outside of any and sends all the queries of the body to its client; called inside of
  -- one, it opens none and sends them to the client of that one. Where the outermost method fails,
  -- the database is as it was.
  pub transactional-flat :
      {V : Type 0} (database : W → V) (atomic : IsAtomic database) (body : Body)
      → (run (calls body) none ≡ prisma.transaction (λ tx. sent_to tx body))
        × ((tx : prisma.Tx) → run (calls body) (some tx) ≡ sent_to tx body)
        × ((w w' : W) (e : Fault)
            → run (calls body) none w ≡ (err e, w')
            → database w' ≡ database w)
  unfolding run transactional run_in_transaction
  transactional-flat database atomic body =
      let outermost : run (calls body) none ≡ prisma.transaction (λ tx. sent_to tx body) =
        λ i. prisma.transaction (λ tx. inside body tx i) in
      (
        outermost,
        inside body,
        λ w w' e failed. atomic.rolls_back body w w' e (sym (λ i. outermost i w) ∙ failed),
      )
