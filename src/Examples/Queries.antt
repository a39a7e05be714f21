-- ===== src/Examples/Queries.antt =====
-- A method with a transaction in a transaction, on a database that is a number.
use aideep_websocket.Common.{
  ℕ, ◌≡◌, refl, arith, sym, ap, ◌∙◌, none, some, >>=-keeps, catch-keeps, ◌+◌, ok, err, external,
  Result, Fault, Io,
}
use aideep_websocket.Transactions.{PrismaClient, transactional, run_in_transaction, query, client}
use aideep_websocket.Transactions.Nested.{
  Body, done, fails, asks, both, calls, caught, IsAtomic, run, sent_to, transactional-flat,
}

-- What is committed, and what the open transaction would make of it.
pub record Store : Type 0 where
  pub committed : ℕ
  pub pending : ℕ

-- A client: that of the transaction, or the one outside of it.
data Client : Type 0 where
  inner outer : Client

-- The end of a transaction: its writes are committed, or they are dropped.
abbrev settled : {A : Type 0} → Result A × Store → Result A × Store
settled (ok a, s) = (ok a, record s { committed = s.pending })
settled (err e, s) = (err e, record s { pending = s.committed })

-- A query adds to the number.
abbrev add : Client → ℕ → Io Store (Unit {0})
add inner n s = (ok tt, record s { pending = s.pending + n })
add outer n s = (ok tt, record { committed = s.committed + n; pending = s.pending + n })

abbrev counter : PrismaClient Store
counter = record {
  Tx = Client;
  Query = ℕ;
  Answer = Unit {0};
  itself = outer;
  transaction = λ body s. settled (body inner (record s { pending = s.committed }));
  send = add;
}

inner_only :
    (body : Body counter) (n : ℕ) (s : Store)
    → s.committed ≡ n
    → (sent_to counter inner body s).1.committed ≡ n
unfolding sent_to
inner_only done n s h = h
inner_only (fails e) n s h = h
inner_only (asks q next) n s h = inner_only (next tt) n _ h
inner_only (both first second) n s h =
    >>=-keeps (λ t. t.committed ≡ n) (sent_to counter inner first) _ s (inner_only first n s h)
      (λ _ t k. inner_only second n t k)
inner_only (calls body) n s h = inner_only body n s h
inner_only (caught body) n s h =
    catch-keeps (λ t. t.committed ≡ n) (sent_to counter inner body) _ s (inner_only body n s h)
      (λ _ t k. k)

dropped :
    (p : Result (Unit {0}) × Store) (s' : Store) (e : Fault)
    → settled p ≡ (err e, s')
    → s'.committed ≡ p.1.committed
dropped (ok a, s) s' e h = absurd (ground arith)
dropped (err x, s) s' e h = sym (ap (λ p. p.1.committed) h)

counter-IsAtomic : IsAtomic counter (λ s. s.committed)
counter-IsAtomic = record {
  rolls_back = λ body s s' e h.
      let opened = record s { pending = s.committed } in
      dropped (sent_to counter inner body opened) s' e h ∙ inner_only body s.committed opened refl;
}

-- The inner method fails, and the outer one goes on and fails too, or not.
abbrev method : Body counter → Body counter
method last =
    both (caught (calls (asks 1 (λ _. fails (external 0))))) (both (asks 1 (λ _. done)) last)

abbrev store : Store
store = record { committed = 5; pending = 5 }

transactional-flat_example :
    (run counter (calls (method done)) none
      ≡ counter.transaction (λ tx. sent_to counter tx (method done)))
    × ((tx : Client)
        → run counter (calls (method done)) (some tx) ≡ sent_to counter tx (method done))
    × ((s s' : Store) (e : Fault)
        → run counter (calls (method done)) none s ≡ (err e, s')
        → s'.committed ≡ s.committed)
transactional-flat_example =
    transactional-flat counter (λ s. s.committed) counter-IsAtomic (method done)

-- The queries of the inner method are kept.
inner_is_kept : (run counter (calls (method done)) none store).1.committed ≡ 7
unfolding run transactional run_in_transaction query client
inner_is_kept = refl

-- They are dropped with those of the outer one.
all_dropped : (run counter (calls (method (fails (external 1)))) none store).1.committed ≡ 5
unfolding run transactional run_in_transaction query client
all_dropped = refl
