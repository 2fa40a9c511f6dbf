-- ===== src/BootstrapManager/Delay.antt =====
-- The delay before a BootstrapManager (lib/bootstrap-manager.ts) tries again.
use Prim.Native.Nat.{min}
use xpi_p2p_ts.BootstrapManager.{Config, base_delay, jittered, delay}
use xpi_p2p_ts.Base.{ℕ, suc, ◌+◌, ◌*◌, ◌≤◌, ◌≡◌, arith}

base_delay-le : (c : Config) (attempts : ℕ) → base_delay c attempts ≤ c.reconnect_max_delay
unfolding base_delay
base_delay-le c attempts = omega arith

jittered_bounds :
    (c : Config) (base random : ℕ)
    → random ≤ 1000
    → (jittered c base random ≤ base * 1000000 + base * c.reconnect_jitter * 500)
      × (base * 1000000 ≤ jittered c base random + base * c.reconnect_jitter * 500)
unfolding jittered
jittered_bounds c base random h = grind arith

-- The base of the delay doubles with each attempt until it reaches the longest delay.
base_delay-suc :
    (c : Config) (attempts : ℕ)
    → base_delay c (suc attempts) ≡ min (base_delay c attempts * 2) c.reconnect_max_delay
unfolding base_delay
base_delay-suc c attempts = grind arith

base_delay-start : (c : Config) → base_delay c 0 ≡ min c.reconnect_base_delay c.reconnect_max_delay
unfolding base_delay
base_delay-start c = omega arith

-- The delay lies around a base by half the jitter's share of this base at most, whatever is drawn. The
-- base of the first try is the configured one, and doubles with each attempt until it is as long as
-- the longest delay, which no base exceeds.
pub delay_range :
    (c : Config) (attempts random : ℕ)
    → random ≤ 1000
    → (delay c attempts random
        ≤ base_delay c attempts * 1000000 + base_delay c attempts * c.reconnect_jitter * 500)
      × (base_delay c attempts * 1000000
          ≤ delay c attempts random + base_delay c attempts * c.reconnect_jitter * 500)
      × (base_delay c attempts ≤ c.reconnect_max_delay)
      × (base_delay c 0 ≡ min c.reconnect_base_delay c.reconnect_max_delay)
      × (base_delay c (suc attempts) ≡ min (base_delay c attempts * 2) c.reconnect_max_delay)
unfolding delay
delay_range c attempts random h =
    let (below, above) = jittered_bounds c (base_delay c attempts) random h in
    (below, above, base_delay-le c attempts, base_delay-start c, base_delay-suc c attempts)
