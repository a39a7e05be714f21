-- ===== src/Env/Cache.antt =====
-- The commands of the `redis` client that the server sends.
use aideep_websocket.Common.{Text, ℕ, Bool, Option, List, Io}

pub record Redis (W : Type 0) : Type 0 where
  -- GET key
  pub get : Text → Io W (Option Text)
  -- SET key value EX seconds
  pub set : Text → Text → ℕ → Io W (Unit {0})
  -- SET key value EX seconds NX; true for the reply OK
  pub set_nx : Text → Text → ℕ → Io W Bool
  -- DEL key
  pub del : Text → Io W (Unit {0})
  -- HSET key field value
  pub h_set : Text → Text → Text → Io W (Unit {0})
  -- EXPIRE key seconds
  pub expire : Text → ℕ → Io W (Unit {0})
  -- HDEL key field
  pub h_del : Text → Text → Io W (Unit {0})
  -- HGETALL key, as its entries
  pub h_get_all : Text → Io W (List (Text × Text))
  -- RPUSH key value
  pub r_push : Text → Text → Io W (Unit {0})
