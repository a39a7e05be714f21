-- ===== src/Ws/Counted.antt =====
-- The gauge of connections of src/domain/ws/controller/ws.gateway.ts against the sockets that it has
-- counted.
use aideep_websocket.Common.{
  ◌+◌, ◌≤◌, Text, ◌≡◌, refl, Bool-cases, inl, inr, true, false, List, [], ◌∷◌, text_eq, text_eq_iff,
  if◌then◌else◌, arith,
}
use aideep_websocket.Common.Items
use aideep_websocket.Common.Lists.{count}
use aideep_websocket.Ws.State.{Gateway}
use aideep_websocket.Ws.Gateway.{count_connection, uncount_connection}

size-add :
    (a : Text) (xs : List Text)
    → Items.size (Items.add a xs) ≡ Items.size xs + (if Items.has a xs then 0 else 1)
unfolding Items.add Items.has
size-add a [] = ground arith
size-add a (x ∷ xs) = ground (arith, size-add a xs)

count-add :
    (a b : Text) (xs : List Text)
    → count b (Items.add a xs)
      ≡ count b xs + (if text_eq a b then (if Items.has a xs then 0 else 1) else 0)
unfolding Items.add Items.has
count-add a b [] = ground arith
count-add a b (x ∷ xs) =
    ground (arith, count-add a b xs, text_eq_iff x a, text_eq_iff x b, text_eq_iff a b)

size-delete :
    (a : Text) (xs : List Text) → Items.size (Items.delete a xs) + count a xs ≡ Items.size xs
unfolding Items.delete
size-delete a [] = refl
size-delete a (x ∷ xs) = ground (arith, size-delete a xs)

count-delete : (a b : Text) (xs : List Text) → count b (Items.delete a xs) ≤ count b xs
unfolding Items.delete
count-delete a b [] = omega arith
count-delete a b (x ∷ xs) = ground (arith, count-delete a b xs)

count-has : (a : Text) (xs : List Text) → Items.has a xs ≡ true → 1 ≤ count a xs
unfolding Items.has
count-has a [] there = ground arith
count-has a (x ∷ xs) there = ground (arith, count-has a xs)

count-has_not : (a : Text) (xs : List Text) → Items.has a xs ≡ false → count a xs ≡ 0
unfolding Items.has
count-has_not a [] absent = refl
count-has_not a (x ∷ xs) absent = ground (arith, count-has_not a xs)

-- The gauge is the number of the counted sockets, each of which is counted once.
pub record IsCounted {D W : Type 0} (g : Gateway D W) : Type 0 where
  pub gauge : g.active ≡ Items.size g.counted_connections
  pub once : (a : Text) → count a g.counted_connections ≤ 1

module _ {D W : Type 0} (a : Text) (g : Gateway D W) where
  pub manager-count_connection : (count_connection a g).manager ≡ g.manager
  unfolding count_connection
  manager-count_connection = ground arith

  pub manager-uncount_connection : (uncount_connection a g).manager ≡ g.manager
  unfolding uncount_connection
  manager-uncount_connection = ground arith

  pub rooms-count_connection : (count_connection a g).yjs_rooms ≡ g.yjs_rooms
  unfolding count_connection
  rooms-count_connection = ground arith

  pub rooms-uncount_connection : (uncount_connection a g).yjs_rooms ≡ g.yjs_rooms
  unfolding uncount_connection
  rooms-uncount_connection = ground arith

  pub count_connection-IsCounted : IsCounted g → IsCounted (count_connection a g)
  unfolding count_connection
  count_connection-IsCounted v = elim (Bool-cases (Items.has a g.counted_connections)) [
    | inl again ↦ rw (again, count_connection) v
    | inr first ↦
        rw (first, count_connection)
          (record {
            gauge = ground (arith, v.gauge, size-add a g.counted_connections);
            once = λ b. ground (
              arith,
              v.once b,
              count-add a b g.counted_connections,
              count-has_not a g.counted_connections first,
              text_eq_iff a b,
            );
          })
  ]

  pub uncount_connection-IsCounted : IsCounted g → IsCounted (uncount_connection a g)
  unfolding uncount_connection
  uncount_connection-IsCounted v = elim (Bool-cases (Items.has a g.counted_connections)) [
    | inr gone ↦ rw (gone, uncount_connection) v
    | inl there ↦
        rw (there, uncount_connection)
          (record {
            gauge = ground (
              arith,
              v.gauge,
              v.once a,
              size-delete a g.counted_connections,
              count-has a g.counted_connections there,
            );
            once = λ b. ground (arith, v.once b, count-delete a b g.counted_connections);
          })
  ]
