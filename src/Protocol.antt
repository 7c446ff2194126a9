-- ===== src/Protocol.antt =====
-- The constants and scalar types of the wire protocol (src/common.h, src/ov_types.h). A value of
-- `stage_device_id_t`, `port_t`, `secret_t` or `epmode_t` is a number below 2^8, 2^16, 2^32 or 2^8.
-- A `sequence_t` is kept as its 16 bit pattern.
pub mod Port
pub mod Mode
use libov.Prelude.{ℕ}

-- BUFSIZE, MAX_STAGE_ID and STAGE_ID_SERVER.
abbrev pub buf_size : ℕ
buf_size = 8192

abbrev pub max_stage_id : ℕ
max_stage_id = 32

abbrev pub stage_id_server : ℕ
stage_id_server = 0xff

-- POS_CALLERID, POS_PORT, POS_SEQ and HEADERLEN.
abbrev pub pos_callerid : ℕ
pos_callerid = 4

abbrev pub pos_port : ℕ
pos_port = 5

abbrev pub pos_seq : ℕ
pos_seq = 7

abbrev pub header_len : ℕ
header_len = 9
