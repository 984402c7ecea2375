-- ===== src/Db/Leftovers.antt =====
-- What a connection leaves behind (backend/db/db.c).
use mmo_backend.Base.{
  Bool-cases, inl, inr, ℕ, ◌+◌, ◌≡◌, Bool, true, false, ◌&&◌, if◌then◌else◌, Option, none, some,
  List, [], ◌∷◌, ◌++◌, ok, arith,
}
use mmo_backend.Base.Actions.{pure, ◌>>=◌}
use mmo_backend.Base.Handles.{Handles, acquire, take_out, release}
use mmo_backend.Db.{
  Driver, MongoConnection, db_connect, db_free, malloc_connection, mongo_connection_create_cleanup,
  add_collection, ping_db, add_database, add_api, add_client,
}

-- Whether the driver answers every call.
abbrev pub all_answered : Driver → Bool
all_answered d =
    d.client_new && d.server_api_new && d.get_database && d.command_simple && d.get_collection

-- The command of the ping is left, and the reply when the ping failed.
abbrev pub left_over : Driver → ℕ → List ℕ
left_over d next =
    if d.client_new && d.server_api_new && d.get_database
    then if d.command_simple then (next + 4) ∷ [] else (next + 5) ∷ (next + 4) ∷ []
    else []

-- A failed connection, with what is left of it.
abbrev pub Fails : Driver → Handles → Type 0
Fails d h =
    (n : ℕ) × (db_connect d h ≡ ok (none, record { next = n; live = left_over d h.next ++ h.live }))

module _ (d : Driver) (h : Handles) where
  no_client : d.client_new ≡ false → Fails d h
  unfolding db_connect add_client malloc_connection acquire mongo_connection_create_cleanup release
      take_out
  no_client e = (h.next + 1, ground arith)

  no_api : d.client_new ≡ true → d.server_api_new ≡ false → Fails d h
  unfolding db_connect add_client add_api malloc_connection acquire mongo_connection_create_cleanup
      release take_out
  no_api e1 e2 = (h.next + 1 + 1, ground arith)

  no_database : d.client_new ≡ true → d.server_api_new ≡ true → d.get_database ≡ false → Fails d h
  unfolding db_connect add_client add_api add_database malloc_connection acquire
      mongo_connection_create_cleanup release take_out
  no_database e1 e2 e3 = (h.next + 1 + 1 + 1, ground arith)

  no_ping :
      d.client_new ≡ true
      → d.server_api_new ≡ true
      → d.get_database ≡ true
      → d.command_simple ≡ false
      → Fails d h
  unfolding db_connect add_client add_api add_database ping_db malloc_connection acquire
      mongo_connection_create_cleanup release take_out
  no_ping e1 e2 e3 e4 = (h.next + 1 + 1 + 1 + 1 + 1 + 1, ground arith)

  no_collection :
      d.client_new ≡ true
      → d.server_api_new ≡ true
      → d.get_database ≡ true
      → d.command_simple ≡ true
      → d.get_collection ≡ false
      → Fails d h
  unfolding db_connect add_client add_api add_database ping_db add_collection malloc_connection
      acquire mongo_connection_create_cleanup release take_out
  no_collection e1 e2 e3 e4 e5 = (h.next + 1 + 1 + 1 + 1 + 1 + 1, ground arith)

  abbrev pub made : MongoConnection
  made = record {
    address = h.next;
    client = some (h.next + 1);
    api = some (h.next + 2);
    database = some (h.next + 3);
    playerdata = some (h.next + 6);
  }

  abbrev pub held : Handles
  held = record {
    next = h.next + 7;
    live =
        (h.next + 6) ∷ (h.next + 4) ∷ (h.next + 3) ∷ (h.next + 2) ∷ (h.next + 1) ∷ h.next ∷ h.live;
  }

  all_made :
      d.client_new ≡ true
      → d.server_api_new ≡ true
      → d.get_database ≡ true
      → d.command_simple ≡ true
      → d.get_collection ≡ true
      → db_connect d h ≡ ok (some made, held)
  unfolding db_connect add_client add_api add_database ping_db add_collection malloc_connection
      acquire mongo_connection_create_cleanup release take_out
  all_made e1 e2 e3 e4 e5 = ground arith

  freed : db_free made held ≡ ok (tt, record { next = h.next + 7; live = (h.next + 4) ∷ h.live })
  unfolding db_free release take_out
  freed = ground arith

  -- When a call of the driver fails, db_connect ends without a fault and without a connection,
  -- and of all that it got only the command of the ping is left, and the reply when the ping
  -- failed; what was alive before is untouched.
  pub db_connect-failed : all_answered d ≡ false → Fails d h
  db_connect-failed e = elim (Bool-cases d.client_new) [
    | inr f1 ↦ no_client f1
    | inl e1 ↦ elim (Bool-cases d.server_api_new) [
      | inr f2 ↦ no_api e1 f2
      | inl e2 ↦ elim (Bool-cases d.get_database) [
        | inr f3 ↦ no_database e1 e2 f3
        | inl e3 ↦ elim (Bool-cases d.command_simple) [
          | inr f4 ↦ no_ping e1 e2 e3 f4
          | inl e4 ↦ no_collection e1 e2 e3 e4 (ground (arith, e, e1, e2, e3, e4))
        ]
      ]
    ]
  ]

  pub db_connect-made : all_answered d ≡ true → db_connect d h ≡ ok (some made, held)
  db_connect-made e =
      all_made (ground (arith, e)) (ground (arith, e)) (ground (arith, e)) (ground (arith, e))
        (ground (arith, e))

  -- When the driver answers every call, db_free after db_connect ends without a fault and
  -- destroys all that db_connect got but the command of the ping; what was alive before is
  -- untouched.
  pub db_free-db_connect :
      all_answered d ≡ true
      → ((db_connect d >>= λ conn. elim conn [ none ↦ pure tt | some conn ↦ db_free conn ]) h)
        ≡ ok (tt, record { next = h.next + 7; live = (h.next + 4) ∷ h.live })
  db_free-db_connect e = ground (arith, db_connect-made e, freed)

  -- However the driver's calls turn out, connecting ends without a fault.
  pub db_connect-total :
      (conn : Option MongoConnection) × (left : Handles) × (db_connect d h ≡ ok (conn, left))
  db_connect-total = elim (Bool-cases (all_answered d)) [
    | inl e ↦ (some made, held, db_connect-made e)
    | inr e ↦ (let (n, failed) = db_connect-failed e in (none, _, failed))
  ]
