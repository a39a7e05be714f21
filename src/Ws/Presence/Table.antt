-- ===== src/Ws/Presence/Table.antt =====
-- src/domain/ws/service/presence.service.ts against a table of the members of each workspace.
use aideep_websocket.Common.{
  Text, ◌≡◌, refl, sym, ap, ◌∙◌, Bool, true, false, ◌&&◌, Option, none, some, List, [], ◌∷◌, ok, Io,
  pure, ◌>>◌, >>=-ok, arith, inl, inr, Option-cases, if◌then◌else◌,
}
use aideep_websocket.Common.Strings.{text_eq, text_eq_iff}
use aideep_websocket.Common.Dict
use aideep_websocket.Common.Dict.{Dict}
use aideep_websocket.RedisKeys.{ws_presence}
use aideep_websocket.Ws.Event.{PresenceMember}
use aideep_websocket.App.{App}
use aideep_websocket.Ws.Presence.{
  upsert_presence, remove_presence, parse_members, list_presence, ws_presence_ttl_sec,
}

-- Who is in each workspace, by the identifier of the user.
abbrev pub Table : Type 0
Table = Text → Text → Option PresenceMember

abbrev pub set_at : {A : Type 0} → Text → Text → A → (Text → Text → A) → Text → Text → A
set_at key field value at k f = if text_eq k key && text_eq f field then value else at k f

pub data Change : Type 0 where
  upsert : Text → PresenceMember → Change
  remove : Text → Text → Change

-- What a list of changes makes of the table.
abbrev pub after : List Change → Table → Table
after [] table = table
after (upsert workspace_id member ∷ changes) table =
    after changes (set_at workspace_id member.user_id (some member) table)
after (remove workspace_id user_id ∷ changes) table =
    after changes (set_at workspace_id user_id none table)

-- The member of a user in a list.
abbrev pub find_member : Text → List PresenceMember → Option PresenceMember
find_member user_id [] = none
find_member user_id (member ∷ members) =
    if text_eq member.user_id user_id then some member else find_member user_id members

abbrev pub All : {A : Type 0} → (A → Type 0) → List A → Type 0
All P [] = Unit
All P (x ∷ xs) = P x × All P xs

module _ {D E W : Type 0} (app : App D E W) where
  abbrev pub member_text : Option PresenceMember → Option Text
  member_text none = none
  member_text (some member) = some (app.members.stringify member)

  -- What the documentation of Redis says of hashes. `stored` is the value of a field of a hash.
  pub record IsHashes (stored : W → Text → Text → Option Text) : Type 0 where
    pub sets :
        (key field value : Text) (w w' : W)
        → app.env.redis.h_set key field value w ≡ (ok tt, w')
        → (k f : Text) → stored w' k f ≡ set_at key field (some value) (stored w) k f
    pub expires :
        (key : Text) (w w' : W)
        → app.env.redis.expire key ws_presence_ttl_sec w ≡ (ok tt, w')
        → (k f : Text) → stored w' k f ≡ stored w k f
    pub deletes :
        (key field : Text) (w w' : W)
        → app.env.redis.h_del key field w ≡ (ok tt, w')
        → (k f : Text) → stored w' k f ≡ set_at key field none (stored w) k f
    -- The fields of a hash come in any order.
    pub gets :
        (key : Text) (w w' : W) (entries : List (Text × Text))
        → app.env.redis.h_get_all key w ≡ (ok entries, w')
        → (f : Text) → Dict.get f entries ≡ stored w key f
    pub entries_are_stored :
        (key : Text) (w w' : W) (entries : List (Text × Text))
        → app.env.redis.h_get_all key w ≡ (ok entries, w')
        → All (λ e. stored w key e.0 ≡ some e.1) entries

  -- The calls of the service, one after the other.
  abbrev pub run_changes : List Change → Io W (Unit {0})
  unfolding upsert_presence remove_presence
  run_changes [] = pure tt
  run_changes (upsert workspace_id member ∷ changes) =
      upsert_presence app workspace_id member >> run_changes changes
  run_changes (remove workspace_id user_id ∷ changes) =
      remove_presence app workspace_id user_id >> run_changes changes

  module _ (stored : W → Text → Text → Option Text) (laws : IsHashes stored) where
    -- The hashes hold the table, each member under the identifier of its user.
    pub record Shows (table : Table) (w : W) : Type 0 where
      pub texts :
          (workspace_id user_id : Text)
          → stored w (ws_presence workspace_id) user_id ≡ member_text (table workspace_id user_id)
      pub named :
          (workspace_id user_id : Text) (member : PresenceMember)
          → table workspace_id user_id ≡ some member
          → member.user_id ≡ user_id

    moves :
        (b : Bool) (new old : Option PresenceMember) {text : Option Text}
        → text ≡ member_text old
        → (if b then member_text new else text) ≡ member_text (if b then new else old)
    moves true new old h = refl
    moves false new old h = h

    upsert_presence-Shows :
        (table : Table) (workspace_id : Text) (member : PresenceMember) (w w' : W)
        → Shows table w
        → upsert_presence app workspace_id member w ≡ (ok tt, w')
        → Shows (set_at workspace_id member.user_id (some member) table) w'
    unfolding upsert_presence ws_presence text_eq
    upsert_presence-Shows table workspace_id member w w' shows e =
        let (a, mid, set, expired) = >>=-ok (app.env.redis.h_set _ _ _) _ w e in
        record {
          texts = λ ws u.
              laws.expires _ mid w' expired _ u
              ∙ laws.sets _ _ _ w mid set _ u
              ∙ moves _ (some member) (table ws u) (shows.texts ws u);
          named = λ ws u m h. ground (arith, shows.named ws u m, text_eq_iff u member.user_id);
        }

    remove_presence-Shows :
        (table : Table) (workspace_id user_id : Text) (w w' : W)
        → Shows table w
        → remove_presence app workspace_id user_id w ≡ (ok tt, w')
        → Shows (set_at workspace_id user_id none table) w'
    unfolding remove_presence ws_presence text_eq
    remove_presence-Shows table workspace_id user_id w w' shows e = record {
      texts = λ ws u. laws.deletes _ _ w w' e _ u ∙ moves _ none (table ws u) (shows.texts ws u);
      named = λ ws u m h. ground (arith, shows.named ws u m);
    }

    run_changes-Shows :
        (changes : List Change) (table : Table) (w w' : W)
        → Shows table w
        → run_changes changes w ≡ (ok tt, w')
        → Shows (after changes table) w'
    unfolding run_changes
    run_changes-Shows [] table w w' shows e = rw (sym (ap (λ p. p.1) e)) shows
    run_changes-Shows (upsert ws member ∷ changes) table w w' shows e =
        let (a, mid, first, rest) = >>=-ok (upsert_presence app ws member) _ w e in
        run_changes-Shows changes _ mid w' (upsert_presence-Shows table ws member w mid shows first)
          rest
    run_changes-Shows (remove ws user_id ∷ changes) table w w' shows e =
        let (a, mid, first, rest) = >>=-ok (remove_presence app ws user_id) _ w e in
        run_changes-Shows changes _ mid w'
          (remove_presence-Shows table ws user_id w mid shows first) rest

    -- The entries of a hash that shows a table are members, each under its identifier.
    IsEntry : Text × Text → Type 0
    IsEntry e = (m : PresenceMember) × (m.user_id ≡ e.0) × (e.1 ≡ app.members.stringify m)

    parsed :
        ((m : PresenceMember) → app.members.parse (app.members.stringify m) ≡ ok m)
        → (entries : List (Text × Text)) → All IsEntry entries
        → (ms : List PresenceMember) × (parse_members app (Dict.values entries) ≡ ok ms)
          × ((u : Text) → member_text (find_member u ms) ≡ Dict.get u entries)
    unfolding IsEntry parse_members Dict.get
    parsed codec [] are = ([], refl, λ u. refl)
    parsed codec ((key, text) ∷ entries) ((m, name, shown), are) =
        let (ms, rest, found) = parsed codec entries are in
        (m ∷ ms, rw (shown, codec m, rest) refl, λ u. ground (arith, found u, name, shown))

    stringify_injective :
        ((m : PresenceMember) → app.members.parse (app.members.stringify m) ≡ ok m)
        → (a b : Option PresenceMember) → member_text a ≡ member_text b
        → a ≡ b
    stringify_injective codec none none h = refl
    stringify_injective codec none (some m) h = ground arith
    stringify_injective codec (some m) none h = ground arith
    stringify_injective codec (some m) (some n) h = ground (arith, codec m, codec n)

    entry :
        (table : Table) (w : W) (workspace_id : Text)
        → Shows table w
        → (e : Text × Text) → stored w (ws_presence workspace_id) e.0 ≡ some e.1
        → IsEntry e
    unfolding IsEntry
    entry table w workspace_id shows (key, text) h = elim (Option-cases (table workspace_id key)) [
      | inl n ↦ absurd (ground (arith, shows.texts workspace_id key))
      | inr (m, s) ↦
          (m, shows.named workspace_id key m s, ground (arith, shows.texts workspace_id key))
    ]

    All-IsEntry :
        (table : Table) (w : W) (workspace_id : Text)
        → Shows table w
        → (entries : List (Text × Text))
        → All (λ e. stored w (ws_presence workspace_id) e.0 ≡ some e.1) entries
        → All IsEntry entries
    All-IsEntry table w workspace_id shows [] are = tt
    All-IsEntry table w workspace_id shows (e ∷ entries) (h, are) =
        (entry table w workspace_id shows e h, All-IsEntry table w workspace_id shows entries are)

    -- Let the hash commands of Redis do what their documentation says, with the entries of a hash
    -- in any order, and let the text of a member parse to that member. If the hashes show a table
    -- of members by workspace and user, each of them under the identifier of its user, then after
    -- calls of upsertPresence and removePresence that succeed, and a reading of the hash that
    -- succeeds, listPresence answers, and for each user the list has the member that the same
    -- changes leave in the table, or none.
    pub run_changes-list_presence :
        ((m : PresenceMember) → app.members.parse (app.members.stringify m) ≡ ok m)
        → (table : Table) (changes : List Change) (w w' w'' : W) (workspace_id : Text)
        → (entries : List (Text × Text)) → Shows table w
        → run_changes changes w ≡ (ok tt, w')
        → app.env.redis.h_get_all (ws_presence workspace_id) w' ≡ (ok entries, w'')
        → (ms : List PresenceMember) × (list_presence app workspace_id w' ≡ (ok ms, w''))
          × ((u : Text) → find_member u ms ≡ after changes table workspace_id u)
    unfolding list_presence
    run_changes-list_presence codec table changes w w' w'' ws entries shows ran got =
        let shown = run_changes-Shows changes table w w' shows ran in
        let are = laws.entries_are_stored (ws_presence ws) w' w'' entries got in
        let (ms, parses, found) =
          parsed codec entries (All-IsEntry (after changes table) w' ws shown entries are) in
        (
          ms,
          rw (got, parses) refl,
          λ u.
              stringify_injective codec _ _
                (found u ∙ laws.gets _ w' w'' entries got u ∙ shown.texts ws u),
        )
