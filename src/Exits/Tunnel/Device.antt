-- ===== src/Exits/Tunnel/Device.antt =====
-- When the device of a tunnel is closed (modules/exits/tunnel.go): the sections under the mutex
-- interleave in any order, also between a release or a close and its call of closeDevice.
use solstein.Base.{ℕ, ◌+◌, ◌-◌, ◌<◌, ◌≡◌, refl, ◌⊎◌, Bool, true, false, Option, arith}
use solstein.Exits.Tunnel.{Tunnel, new_tunnel, use_tunnel, release, close, close_device}

-- A tunnel, the calls of closeDevice that are still to come, and how often the device was closed.
pub record Shared : Type 0 where
  pub tunnel : Tunnel
  pub pending : ℕ
  pub closes : ℕ

abbrev pub one_if : Bool → ℕ
one_if true = 1
one_if false = 0

abbrev pub new_shared : ℕ → Option ℕ → Shared
new_shared now key = record { tunnel = new_tunnel now key; pending = 0; closes = 0 }

abbrev pub after_use : Shared → ℕ → Shared
after_use s now = record s { tunnel = (use_tunnel s.tunnel now).0 }

abbrev pub after_release : Shared → ℕ → Shared
after_release s now = record s {
  tunnel = (release s.tunnel now).0;
  pending = s.pending + one_if (release s.tunnel now).1;
}

abbrev pub after_close : Shared → Shared
after_close s = record s {
  tunnel = (close s.tunnel).0;
  pending = s.pending + one_if (close s.tunnel).1;
}

abbrev pub after_close_device : Shared → Shared
after_close_device s = record {
  tunnel = (close_device s.tunnel).0;
  pending = s.pending - 1;
  closes = s.closes + one_if (close_device s.tunnel).1;
}

-- Any interleaving of users that start, users that leave, closes, and the calls of closeDevice.
pub data Reached (now : ℕ) (key : Option ℕ) : Shared → Type 0 where
  opened : Reached now key (new_shared now key)
  used : (s : Shared) (at : ℕ) → Reached now key s → Reached now key (after_use s at)
  released :
      (s : Shared) (at : ℕ)
      → 0 < s.tunnel.active
      → Reached now key s
      → Reached now key (after_release s at)
  shut : (s : Shared) → Reached now key s → Reached now key (after_close s)
  device_shut :
      (s : Shared) → 0 < s.pending → Reached now key s → Reached now key (after_close_device s)

-- The device is closed at most once, by no call while the tunnel has users, and it is closed or about
-- to be once the tunnel is shut and its users have left.
pub record IsSafe (s : Shared) : Type 0 where
  pub once : s.closes ≡ one_if s.tunnel.device_closed
  pub unused : s.tunnel.device_closed ≡ true → (s.tunnel.closed ≡ true) × (s.tunnel.active ≡ 0)
  pub pending_unused : 0 < s.pending → (s.tunnel.closed ≡ true) × (s.tunnel.active ≡ 0)
  pub promised :
      s.tunnel.closed ≡ true
      → s.tunnel.active ≡ 0
      → (0 < s.pending) ⊎ (s.tunnel.device_closed ≡ true)

-- However users, closes and the calls of closeDevice interleave, the device of a tunnel is closed at
-- most once, is closed and has calls pending only when the tunnel is shut and has no users, and is
-- closed or has a call pending once the tunnel is shut and unused.
pub Reached-IsSafe : (now : ℕ) (key : Option ℕ) (s : Shared) → Reached now key s → IsSafe s
unfolding use_tunnel release close close_device
Reached-IsSafe now key _ opened = record {
  once = refl;
  unused = λ e. absurd cc;
  pending_unused = λ lt. absurd (omega arith);
  promised = λ e e'. absurd cc;
}
Reached-IsSafe now key _ (used s at r) =
    let safe = Reached-IsSafe now key s r in
    record {
      once = ground (arith, safe.once);
      unused = λ e. ground (arith, e, safe.unused);
      pending_unused = λ e. ground (arith, e, safe.pending_unused);
      promised = λ e e'. ground (arith, e, e', safe.promised);
    }
Reached-IsSafe now key _ (released s at pos r) =
    let safe = Reached-IsSafe now key s r in
    record {
      once = ground (arith, safe.once);
      unused = λ e. ground (arith, e, safe.unused);
      pending_unused = λ e. ground (arith, e, safe.pending_unused);
      promised = λ e e'. ground (arith, e, e', safe.promised);
    }
Reached-IsSafe now key _ (shut s r) =
    let safe = Reached-IsSafe now key s r in
    record {
      once = ground (arith, safe.once);
      unused = λ e. ground (arith, e, safe.unused);
      pending_unused = λ e. ground (arith, e, safe.pending_unused);
      promised = λ e e'. ground (arith, e, e', safe.promised);
    }
Reached-IsSafe now key _ (device_shut s pos r) =
    let safe = Reached-IsSafe now key s r in
    record {
      once = ground (arith, safe.once);
      unused = λ e. ground (arith, e, safe.unused, safe.pending_unused);
      pending_unused = λ e. ground (arith, e, safe.pending_unused);
      promised = λ e e'. ground (arith, e, e', safe.promised);
    }
