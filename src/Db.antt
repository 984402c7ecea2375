-- ===== src/Db.antt =====
-- Connections to the database (backend/db/db.c). The driver is outside the program: `Driver` says
-- which of its calls succeed.
pub mod Leftovers
use mmo_backend.Base.{
  ℕ, suc, ◌+◌, ◌==◌, if◌then◌else◌, Bool, true, false, Option, none, some, List, [], ◌∷◌, ◌++◌,
  length, Result, ok, fault, dangling,
}
use mmo_backend.Base.Strings.{ascii}
use mmo_backend.Base.Actions.{Action, pure, ◌>>=◌, ◌>>◌}
use mmo_backend.Base.Handles.{Handles, acquire, release}
use mmo_backend.Receiver.{c_string}
use mmo_backend.Socket.{copy_from}

-- The player's name, whoever it is.
unfoldable pub db_get_name : List ℕ → List ℕ
db_get_name id = ascii "Sam"

-- A copy of the string that the iterator holds, with the zero byte that ends it.
unfoldable pub bson_get_string : List ℕ → Result (List ℕ)
bson_get_string hold = let size = length (c_string hold) + 1 in copy_from (some hold) size

pub record Driver : Type 0 where
  pub client_new : Bool
  pub server_api_new : Bool
  pub get_database : Bool
  pub command_simple : Bool
  pub get_collection : Bool

pub record MongoConnection : Type 0 where
  pub address : ℕ
  pub client : Option ℕ
  pub api : Option ℕ
  pub database : Option ℕ
  pub playerdata : Option ℕ

-- A connection with nothing in it, as `memset` leaves it.
abbrev pub no_connection : ℕ → MongoConnection
no_connection address = record {
  address = address;
  client = none;
  api = none;
  database = none;
  playerdata = none;
}

-- The label that the failed calls jump to.
unfoldable pub mongo_connection_create_cleanup :
    MongoConnection → Action Handles (Option MongoConnection)
mongo_connection_create_cleanup conn = do
  release conn.database
  release conn.api
  release conn.client
  release (some conn.address)
  pure none

unfoldable pub add_collection : MongoConnection → Option ℕ → Action Handles (Option MongoConnection)
add_collection conn none = mongo_connection_create_cleanup conn
add_collection conn (some p) = pure (some (record conn { playerdata = some p }))

-- The command and the reply are objects too; the driver gives the reply whether it succeeds or not.
unfoldable pub ping_db : Driver → MongoConnection → Action Handles (Option MongoConnection)
ping_db driver conn = do
  command ← acquire true
  reply ← acquire true
  elim driver.command_simple [
    | false ↦ mongo_connection_create_cleanup conn
    | true ↦ (do
      release reply
      playerdata ← acquire driver.get_collection
      add_collection conn playerdata)
  ]

unfoldable pub add_database :
    Driver → MongoConnection → Option ℕ → Action Handles (Option MongoConnection)
add_database driver conn none = mongo_connection_create_cleanup conn
add_database driver conn (some d) = ping_db driver (record conn { database = some d })

unfoldable pub add_api :
    Driver → MongoConnection → Option ℕ → Action Handles (Option MongoConnection)
add_api driver conn none = mongo_connection_create_cleanup conn
add_api driver conn (some a) = do
  database ← acquire driver.get_database
  add_database driver (record conn { api = some a }) database

unfoldable pub add_client :
    Driver → MongoConnection → Option ℕ → Action Handles (Option MongoConnection)
add_client driver conn none = mongo_connection_create_cleanup conn
add_client driver conn (some c) = do
  api ← acquire driver.server_api_new
  add_api driver (record conn { client = some c }) api

-- The block of the connection itself, which is taken to be there.
unfoldable pub malloc_connection : Action Handles ℕ
malloc_connection h = ok (h.next, record { next = h.next + 1; live = h.next ∷ h.live })

unfoldable pub db_connect : Driver → Action Handles (Option MongoConnection)
db_connect driver = do
  address ← malloc_connection
  client ← acquire driver.client_new
  add_client driver (no_connection address) client

unfoldable pub db_free : MongoConnection → Action Handles (Unit {0})
db_free conn = do
  release conn.database
  release conn.api
  release conn.client
  release conn.playerdata
  release (some conn.address)
