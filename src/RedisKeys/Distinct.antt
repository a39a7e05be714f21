-- ===== src/RedisKeys/Distinct.antt =====
-- src/global/redis/redis.keys.ts: whether two things can share a key.
use aideep_websocket.Common.{Text, ◌≡◌, refl, Bool, true, not, ◌&&◌, [], ◌∷◌, ◌++◌, arith, ◌==◌}
use aideep_websocket.RedisKeys.{node_content_operation}

-- A text without a colon, such as a UUID.
unfoldable pub is_colon_free : Text → Bool
is_colon_free [] = true
is_colon_free (c ∷ t) = not (c == 58) && is_colon_free t

split_at_colon :
    (s s' t t' : Text)
    → is_colon_free s ≡ true
    → is_colon_free s' ≡ true
    → s ++ 58 ∷ t ≡ s' ++ 58 ∷ t'
    → (s ≡ s') × (t ≡ t')
unfolding is_colon_free
split_at_colon [] [] t t' f f' e = (refl, ground arith)
split_at_colon [] (c ∷ s') t t' f f' e = ground arith
split_at_colon (c ∷ s) [] t t' f f' e = ground arith
split_at_colon (c ∷ s) (d ∷ s') t t' f f' e = ground (arith, split_at_colon s s' t t')

-- Two content operations whose workspace, node and actor hold no colon share a Redis key only if
-- they have the same workspace, node, actor and idempotency key.
pub node_content_operation-injective :
    (ws node actor key ws' node' actor' key' : Text)
    → is_colon_free ws ≡ true
    → is_colon_free node ≡ true
    → is_colon_free actor ≡ true
    → is_colon_free ws' ≡ true
    → is_colon_free node' ≡ true
    → is_colon_free actor' ≡ true
    → node_content_operation ws node actor key ≡ node_content_operation ws' node' actor' key'
    → (ws ≡ ws') × (node ≡ node') × (actor ≡ actor') × (key ≡ key')
unfolding node_content_operation
node_content_operation-injective ws node actor key ws' node' actor' key' f g h f' g' h' e =
    let (same_ws, r) =
      split_at_colon ws ws' (node ++ 58 ∷ (actor ++ 58 ∷ key)) (node' ++ 58 ∷ (actor' ++ 58 ∷ key'))
        f f' (ground arith) in
    let (same_node, r') =
      split_at_colon node node' (actor ++ 58 ∷ key) (actor' ++ 58 ∷ key') g g' r in
    let (same_actor, same_key) = split_at_colon actor actor' key key' h h' r' in
    (same_ws, same_node, same_actor, same_key)
