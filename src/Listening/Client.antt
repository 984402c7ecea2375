-- ===== src/Listening/Client.antt =====
-- What the thread of a client allocates and gives back: `web_server_handle_client` and `error` of
-- backend/networking/web-server.c up to the handshake, `br_init` and `br_destroy` of
-- buffered-reader.c. What the client says is the subject of `Http.Server`; the lines that are read and
-- the list of headers are not counted.
pub mod Closes
use mmo_backend.Base.{
  ℕ, Bool, true, false, Option, none, some, ok, fault, null_pointer, if◌then◌else◌,
}
use mmo_backend.Base.Actions.{Action, pure, fail, ◌>>=◌, ◌>>◌}
use mmo_backend.Base.Handles.{Handles, acquire, release}
use mmo_backend.Listening.{Resources, on_fds, on_blocks, ConnInfo}

-- Which requests for memory are granted and which calls succeed, and whether the first line was too
-- long for the reader; `lower` is the block for a header's name in `header_list_get_header`, and
-- `upgraded` says whether the client asks for a web socket.
pub record Calls : Type 0 where
  pub reader : Bool
  pub buffer : Bool
  pub named : Bool
  pub detached : Bool
  pub method : Bool
  pub route : Bool
  pub args : Bool
  pub too_long : Bool
  pub lower : Bool
  pub upgraded : Bool

-- The blocks of a reader, and its descriptor.
pub record Reader : Type 0 where
  pub block : ℕ
  pub buf : ℕ
  pub fd : ℕ

unfoldable pub with_buffer : ℕ → ℕ → Option ℕ → Action Resources (Option Reader)
with_buffer fd block none = do on_blocks (release (some block)); pure none
with_buffer fd block (some buf) = pure (some (record { block = block; buf = buf; fd = fd }))

unfoldable pub with_reader : Bool → ℕ → Option ℕ → Action Resources (Option Reader)
with_reader buffer fd none = pure none
with_reader buffer fd (some block) = do buf ← on_blocks (acquire buffer); with_buffer fd block buf

unfoldable pub br_init : Bool → Bool → ℕ → Action Resources (Option Reader)
br_init reader buffer fd = do block ← on_blocks (acquire reader); with_reader buffer fd block

unfoldable pub br_destroy : Option Reader → Action Resources (Unit {0})
br_destroy none = pure tt
br_destroy (some br) = do
  on_fds (release (some br.fd))
  on_blocks (release (some br.buf))
  on_blocks (release (some br.block))

-- The message is printed. No thread that ends so goes over to the handshake.
unfoldable pub error : Option Reader → Action Resources Bool
error br = do br_destroy br; pure false

-- A header is looked up under a name in lower case, for which there is a block that nobody frees. A client
-- that asks for a web socket goes over to the handshake and the loop of the events.
unfoldable pub look_up : Bool → Reader → Option ℕ → Action Resources Bool
look_up upgraded br none = fail null_pointer
look_up upgraded br (some lower) =
    if upgraded then pure true else (do br_destroy (some br); pure false)

-- The request is read, and what the thread has is given back.
unfoldable pub talk : Calls → Option Reader → ℕ → ℕ → ℕ → Action Resources Bool
talk c none method route args = fail null_pointer
talk c (some br) method route args = if c.too_long then error (some br) else (do
  on_blocks (release (some method))
  on_blocks (release (some route))
  on_blocks (release (some args))
  lower ← on_blocks (acquire c.lower)
  look_up c.upgraded br lower)

unfoldable pub with_args : Calls → Option Reader → ℕ → ℕ → Option ℕ → Action Resources Bool
with_args c br method route none = error br
with_args c br method route (some args) = talk c br method route args

unfoldable pub with_route : Calls → Option Reader → ℕ → Option ℕ → Action Resources Bool
with_route c br method none = error br
with_route c br method (some route) = do
  args ← on_blocks (acquire c.args)
  with_args c br method route args

unfoldable pub with_method : Calls → Option Reader → Option ℕ → Action Resources Bool
with_method c br none = error br
with_method c br (some method) = do
  route ← on_blocks (acquire c.route)
  with_route c br method route

unfoldable pub allocate : Calls → Option Reader → Action Resources Bool
allocate c br = do method ← on_blocks (acquire c.method); with_method c br method

-- Whether the thread goes over to the handshake.
unfoldable pub client_thread : Calls → ConnInfo → Action Resources Bool
client_thread c ci = do
  br ← br_init c.reader c.buffer ci.fd
  on_blocks (release (some ci.block))
  if c.named then (if c.detached then allocate c br else error br) else error br
