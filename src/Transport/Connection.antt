-- ===== src/Transport/Connection.antt =====
-- internal/transport/grpc.go: how the server listens and serves, and how the client connects. What
-- `net.Listen`, `Serve` and `grpc.NewClient` return is a parameter.
use distributed_gpu_training.Base.{Bool, true, Bytes, Option, none, some, if◌then◌else◌}

-- What `net.Listen` returns: a listener with its address, or an error.
pub data Listened : Type 0 where
  bound : Bytes → Listened
  refused : Bytes → Listened

-- `listenAddr`, and the address of `lis`, if it is not nil.
pub record Endpoint : Type 0 where
  pub listen_addr : Bytes
  pub lis : Option Bytes

abbrev pub new_server : Bytes → Endpoint
new_server addr = record { listen_addr = addr; lis = none }

module _ (net_listen : Bytes → Listened) where
  -- With an error the listener is nil.
  unfoldable pub listen : Endpoint → Endpoint × Option Bytes
  listen s = elim (net_listen s.listen_addr) [
    | bound addr ↦ (record s { lis = some addr }, none)
    | refused err ↦ (record s { lis = none }, some err)
  ]

  -- `serve` is what `Serve` returns on a listener; a nil listener never gets there.
  unfoldable pub serve_on : (Bytes → Option Bytes) → Endpoint → Endpoint × Option Bytes
  serve_on serve s = elim s.lis [ none ↦ (s, none) | some addr ↦ (s, serve addr) ]

  -- `Start`: listens if that has not been done, and serves.
  unfoldable pub start : (Bytes → Option Bytes) → Endpoint → Endpoint × Option Bytes
  unfolding listen serve_on
  start serve s = elim s.lis [
    | some addr ↦ serve_on serve s
    | none ↦
        let (s', err) = listen s in elim err [ some t ↦ (s', some t) | none ↦ serve_on serve s' ]
  ]

-- `conn` is whether it is not nil.
pub record Client : Type 0 where
  pub conn : Bool

-- `NewClient`, by the error of `grpc.NewClient`.
abbrev pub new_client : Option Bytes → Option Client
new_client (some err) = none
new_client none = some (record { conn = true })

-- `Close`, by the error of the connection's `Close`.
abbrev pub close : Option Bytes → Client → Option Bytes
close err c = if c.conn then err else none
