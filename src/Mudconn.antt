-- ===== src/Mudconn.antt =====
-- internal/mudconn/mudconn.go: the connection to the MUD.
use pitviper.Base.{ℕ, Bool, true, false, if◌then◌else◌, Option, none, some, List}

-- `Conn`, less the socket
pub record MudConn : Type 0 where
  pub addr : List ℕ
  pub closed : Bool

-- `Dial`, with whether the network takes it.
unfoldable pub dial_mud : Bool → List ℕ → Option MudConn
dial_mud dials addr = if dials then some (record { addr = addr; closed = false }) else none

-- `Close`, and whether it closes the socket.
unfoldable pub close_mud : MudConn → MudConn × Bool
close_mud c = if c.closed then (c, false) else (record c { closed = true }, true)
