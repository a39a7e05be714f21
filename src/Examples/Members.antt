-- ===== src/Examples/Members.antt =====
-- Two members of a workspace, in a Redis that keeps hashes.
use aideep_websocket.Common.{Text, codes, ◌≡◌, refl, none, some, List, [], ◌∷◌, ok, arith}
use aideep_websocket.Common.Dict
use aideep_websocket.Common.Dict.{Dict}
use aideep_websocket.Env.Database.{editor}
use aideep_websocket.RedisKeys.{ws_presence, yjs_ws_awareness}
use aideep_websocket.Ws.Event.{PresenceMember}
use aideep_websocket.Ws.Presence.{list_presence, get_cached_awareness}
use aideep_websocket.Ws.Presence.Table.{
  Change, upsert, remove, Shows, Table, after, find_member, run_changes, run_changes-list_presence,
}
use aideep_websocket.Ws.Presence.Cached.{IsKept, cache_all, get_cached_awareness-cache_awareness}
use aideep_websocket.Examples.World.{World, app, workspace}
use aideep_websocket.Examples.Hashes.{
  Hashes, fields_at, stored, distinct, hash_app, reads_back, hash_redis-IsHashes,
}
use aideep_websocket.Examples.Opened.{server}

abbrev anne : PresenceMember
anne = record { user_id = codes "a"; user_name = codes "Anne"; color = codes "red"; profile = none }

abbrev bert : PresenceMember
bert = record {
  user_id = codes "b";
  user_name = codes "Bert";
  color = codes "blue";
  profile = none;
}

abbrev changes : List Change
changes = upsert workspace anne ∷ upsert workspace bert ∷ remove workspace (codes "a") ∷ []

abbrev nobody : Table
nobody ws u = none

nobody-Shows : Shows hash_app stored hash_redis-IsHashes nobody []
unfolding Dict.get
nobody-Shows = record { texts = λ ws u. refl; named = λ ws u m h. ground arith }

abbrev changed : Hashes
changed = (run_changes hash_app changes []).1

changed_ok : run_changes hash_app changes [] ≡ (ok tt, changed)
unfolding server
changed_ok = refl

run_changes-list_presence_example :
    (ms : List PresenceMember) × (list_presence hash_app workspace changed ≡ (ok ms, changed))
    × ((u : Text) → find_member u ms ≡ after changes nobody workspace u)
run_changes-list_presence_example =
    run_changes-list_presence hash_app stored hash_redis-IsHashes reads_back nobody changes []
      changed changed workspace (distinct (fields_at (ws_presence workspace) changed)) nobody-Shows
      changed_ok refl

bert_is_listed : list_presence hash_app workspace changed ≡ (ok (bert ∷ []), changed)
unfolding server
bert_is_listed = refl

abbrev cached : World
cached = (cache_all (app editor) workspace (codes "x" ∷ codes "y" ∷ codes "z" ∷ []) []).1

kept : IsKept (app editor) workspace
kept = record {
  sets = λ text w w' e. ground (arith, Dict.get-insert_self (yjs_ws_awareness workspace) text w);
}

get_cached_awareness-cache_awareness_example :
    (cache_all (app editor) workspace (codes "x" ∷ codes "y" ∷ codes "z" ∷ []) [] ≡ (ok tt, cached))
    × (get_cached_awareness (app editor) workspace cached ≡ (ok (some (codes "z")), cached))
unfolding server
get_cached_awareness-cache_awareness_example =
    get_cached_awareness-cache_awareness (app editor) workspace kept (codes "x" ∷ codes "y" ∷ [])
      (codes "z") [] cached refl refl refl
