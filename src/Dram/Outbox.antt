-- ===== src/Dram/Outbox.antt =====
-- What the DRAM asks of the rest of the simulator, for the call of memsys_callback in
-- src/dramchannel.cpp.
use mds.Base.{ℕ, ◌+◌, ◌<◌, ◌≡◌, ◌≢◌, Result, ok}

-- The outside waits for reads: `pending a w` of line `a` in the state `w`. The answer to a read that is
-- waited for does not fail, and takes one read of its line away. `Good` is what the outside keeps true.
pub record Outbox (W : Type 0) : Type 1 where
  pub callback : ℕ → W → Result W
  pub pending : ℕ → W → ℕ
  pub Good : W → Type 0
  pub delivers :
      (a : ℕ) (w : W)
      → Good w
      → 0 < pending a w
      → (w' : W) × (callback a w ≡ ok w')
        × Good w'
        × (pending a w' + 1 ≡ pending a w)
        × ((b : ℕ) → b ≢ a → pending b w' ≡ pending b w)
