-- ===== src/Exits/Tunnel.antt =====
-- A WireGuard tunnel and its users (modules/exits/tunnel.go). Each function is what the source does
-- under the tunnel's mutex; a number of users never falls below zero, as releases follow uses.
pub mod Device
use solstein.Base.{
  ℕ, suc, ◌+◌, ◌-◌, Bool, true, false, not, ◌&&◌, Option, none, some, ◌==◌, ltb, if◌then◌else◌,
}

-- `key` is which of the pool's keys the tunnel uses, if any.
pub record Tunnel : Type 0 where
  pub active : ℕ
  pub last_used : ℕ
  pub closed : Bool
  pub device_closed : Bool
  pub key : Option ℕ

-- A tunnel just opened.
abbrev pub new_tunnel : ℕ → Option ℕ → Tunnel
new_tunnel now key = record {
  active = 0;
  last_used = now;
  closed = false;
  device_closed = false;
  key = key;
}

-- A user starts, or gets the error that the tunnel is shut.
unfoldable pub use_tunnel : Tunnel → ℕ → Tunnel × Bool
use_tunnel tunnel now =
    if tunnel.closed
    then (tunnel, false)
    else (record tunnel { active = tunnel.active + 1; last_used = now }, true)

-- A user leaves; whether that closes the device.
unfoldable pub release : Tunnel → ℕ → Tunnel × Bool
release tunnel now = (
  record tunnel { active = tunnel.active - 1; last_used = now },
  tunnel.closed && (tunnel.active - 1 == 0),
)

unfoldable pub idle_for : Tunnel → ℕ → ℕ
idle_for tunnel now = if ltb 0 tunnel.active then 0 else now - tunnel.last_used

-- The tunnel is shut; whether that closes the device.
unfoldable pub close : Tunnel → Tunnel × Bool
close tunnel =
    if tunnel.closed
    then (tunnel, false)
    else (record tunnel { closed = true }, not (ltb 0 tunnel.active))

-- Whether the device is closed by this call.
unfoldable pub close_device : Tunnel → Tunnel × Bool
close_device tunnel =
    if tunnel.device_closed then (tunnel, false) else (record tunnel { device_closed = true }, true)
