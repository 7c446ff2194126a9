-- ===== src/Protocol/Mode.antt =====
-- The bits of `epmode_t` (src/common.h).
use Prim.Native.Nat.{bit_and}
use libov.Prelude.{ℕ, Bool, not, ◌==◌}

abbrev pub peer2peer : ℕ
peer2peer = 0x01

abbrev pub receivedownmix : ℕ
receivedownmix = 0x02

abbrev pub donotsend : ℕ
donotsend = 0x04

abbrev pub senddownmix : ℕ
senddownmix = 0x08

abbrev pub usingproxy : ℕ
usingproxy = 0x10

abbrev pub encryption : ℕ
encryption = 0x20

-- `(bool)(mode & flag)`.
abbrev pub has : ℕ → ℕ → Bool
has mode flag = not (bit_and mode flag == 0)
