-- ===== src/Messaging/Marks.antt =====
-- backend/internal/modules/messaging/infra/postgres_repository.go: what a user keeps about messages and rooms,
-- and the encryption of rooms.
use merope.Prelude.{ℕ, Bool, true, Option, none, some, List, [], ◌∷◌, String, if◌then◌else◌}
use merope.Prelude.Text.{str_eq}
use merope.Prelude.Outcome.{Result, ok, err}
use merope.Prelude.Pairs.{find_pair, remove, upsert}
use merope.Messaging.Store.{
  Room, Tables, Rotation, Error, Faults, statement_failed, not_found, is_member, find_room,
  set_e2ee, sees,
}
use merope.Messaging.Rows.{ChatRoom, exec, flag_of}

-- The rooms of a user, newest first, with what the user keeps about each.
unfoldable pub rooms_of : String → Tables → List Room → List ChatRoom
unfolding is_member find_pair
rooms_of user t [] = []
rooms_of user t (r ∷ rest) =
    let below = rooms_of user t rest in
    if is_member r.id user t.members
    then record {
      id = r.id;
      name = r.name;
      is_group = r.is_group;
      is_e2ee_enabled = r.is_e2ee_enabled;
      is_archived = flag_of (find_pair (user, r.id) t.archives);
      muted_until = find_pair (user, r.id) t.mutes;
    }
      ∷ below
    else below

-- The users of the members of a room.
unfoldable pub users_in : String → List (String × String) → List String
users_in room [] = []
users_in room (m ∷ rest) =
    let below = users_in room rest in if str_eq m.0 room then m.1 ∷ below else below

module _ (scan_uuid : String → Option String) where
  -- A statement on the row of two identifiers.
  abbrev pub with_pair :
      Faults
      → String
      → String
      → Tables
      → Tables
      → (String × String → Tables)
      → Result Error (Unit {0}) × Tables
  with_pair f a b t missing next = elim (scan_uuid a) [
    | none ↦ exec f 0 t missing
    | some x ↦ elim (scan_uuid b) [ none ↦ exec f 0 t missing | some y ↦ exec f 0 t (next (x, y)) ]
  ]

  -- `MarkRead`
  unfoldable pub mark_read :
      Faults → ℕ → String → String → Tables → Result Error (Unit {0}) × Tables
  unfolding sees upsert
  mark_read f now message user t = with_pair f message user t t (λ k.
      if sees k.0 k.1 t.members t.messages then record t { reads = upsert k now t.reads } else t)

  -- `AddReaction`
  unfoldable pub add_reaction :
      Faults → String → String → String → Tables → Result Error (Unit {0}) × Tables
  unfolding sees upsert
  add_reaction f message user emoji t = with_pair f message user t t (λ k.
      if sees k.0 k.1 t.members t.messages
      then record t { reactions = upsert k emoji t.reactions }
      else t)

  -- An upsert whose key columns must not be NULL.
  abbrev pub keyed :
      Faults
      → String
      → String
      → Tables
      → (String × String → Tables)
      → Result Error (Unit {0}) × Tables
  keyed f a b t next = elim (scan_uuid a) [
    | none ↦ (err statement_failed, t)
    | some x ↦ elim (scan_uuid b) [
      | none ↦ (err statement_failed, t)
      | some y ↦ exec f 0 t (next (x, y))
    ]
  ]

  -- `MuteRoom`
  unfoldable pub mute_room :
      Faults → String → String → Option ℕ → Tables → Result Error (Unit {0}) × Tables
  unfolding remove upsert
  mute_room f user room none t =
      with_pair f user room t t (λ k. record t { mutes = remove k (λ _. true) t.mutes })
  mute_room f user room (some until) t =
      keyed f user room t (λ k. record t { mutes = upsert k until t.mutes })

  -- `ArchiveRoom`
  unfoldable pub archive_room :
      Faults → String → String → Bool → Tables → Result Error (Unit {0}) × Tables
  unfolding upsert
  archive_room f user room archived t =
      keyed f user room t (λ k. record t { archives = upsert k archived t.archives })

  -- `GetUserRooms`, at the statement `n` of a call.
  unfoldable pub get_user_rooms : Faults → ℕ → String → Tables → Result Error (List ChatRoom)
  unfolding rooms_of
  get_user_rooms f n user t =
      if f.fails n
      then err statement_failed
      else elim (scan_uuid user) [ none ↦ ok [] | some u ↦ ok (rooms_of u t t.rooms) ]

module _ (uuid_in : String → Option String) where
  -- `SetE2EEStatus`
  unfoldable pub set_e2ee_status :
      Faults → String → Bool → Tables → Result Error (Unit {0}) × Tables
  unfolding set_e2ee
  set_e2ee_status f room enabled t = elim (uuid_in room) [
    | none ↦ (err statement_failed, t)
    | some id ↦ exec f 0 t (record t { rooms = set_e2ee id enabled t.rooms })
  ]

  -- `GetE2EEStatus`, at the statement `n` of a call. pgx answers its own `pgx.ErrNoRows` for no row, which
  -- is not equal to the `sql.ErrNoRows` that the function compares with.
  unfoldable pub get_e2ee_status : Faults → ℕ → String → Tables → Result Error Bool
  unfolding find_room
  get_e2ee_status f n room t = elim (uuid_in room) [
    | none ↦ err statement_failed
    | some id ↦
        if f.fails n
        then err statement_failed
        else elim (find_room id t.rooms) [ none ↦ err not_found | some r ↦ ok r.is_e2ee_enabled ]
  ]

  -- `GetRoomMembers`, at the statement `n` of a call: the identifiers of the members.
  unfoldable pub get_room_members : Faults → ℕ → String → Tables → Result Error (List String)
  unfolding users_in
  get_room_members f n room t = elim (uuid_in room) [
    | none ↦ err statement_failed
    | some id ↦ if f.fails n then err statement_failed else ok (users_in id t.members)
  ]

  -- `RecordKeyRotation`; the room is a foreign key.
  unfoldable pub record_key_rotation :
      Faults → String → String → String → String → Tables → Result Error (Unit {0}) × Tables
  unfolding find_room
  record_key_rotation f room user key device t = elim (uuid_in room) [
    | none ↦ (err statement_failed, t)
    | some r ↦ elim (uuid_in user) [
      | none ↦ (err statement_failed, t)
      | some u ↦
          let row : Rotation = record {
            room_id = r;
            user_id = u;
            public_key_id = key;
            device_id = device;
          } in
          elim (find_room r t.rooms) [
            | none ↦ (err statement_failed, t)
            | some _ ↦ exec f 0 t (record t { rotations = row ∷ t.rotations })
          ]
    ]
  ]
