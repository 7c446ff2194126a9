-- ===== src/Protocol/Port.antt =====
-- The special ports (src/common.h).
use libov.Prelude.{ℕ}

abbrev pub register : ℕ
register = 0

abbrev pub listcid : ℕ
listcid = 1

abbrev pub ping : ℕ
ping = 2

abbrev pub pong : ℕ
pong = 3

abbrev pub peerlatrep : ℕ
peerlatrep = 4

abbrev pub seqrep : ℕ
seqrep = 5

abbrev pub setlocalip : ℕ
setlocalip = 6

abbrev pub ping_srv : ℕ
ping_srv = 7

abbrev pub pong_srv : ℕ
pong_srv = 8

abbrev pub ping_local : ℕ
ping_local = 9

abbrev pub pong_local : ℕ
pong_local = 10

abbrev pub pubkey : ℕ
pubkey = 11

abbrev pub maxspecialport : ℕ
maxspecialport = 12
