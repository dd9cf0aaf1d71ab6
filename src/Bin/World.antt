-- ===== src/Bin/World.antt =====
-- What the commands of bin/ ask the machine for: the clock's registers, what the stack held, and what
-- comes back from the network.
use ephemeral_os.Base.{ℕ, Bool, Option, Bytes}

pub record World : Type 0 where
  -- The registers of the clock.
  pub cmos : ℕ → ℕ
  -- The bytes that an array on the stack holds before it is written.
  pub stack : ℕ → ℕ
  -- `network_is_ready`, and the address that `network_get_info` gives.
  pub ready : Bool
  pub ip : ℕ
  -- What `dns_resolve` makes of a name.
  pub resolve : Bytes → Option ℕ
  -- What `icmp_wait_reply` answers for each sequence number.
  pub replies : ℕ → Bool
