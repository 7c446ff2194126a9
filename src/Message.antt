-- ===== src/Message.antt =====
-- Packed messages: the header accessors of src/common.h and the functions `packmsg` and `addmsg` of
-- src/common.cc. A buffer is the list of its bytes; the header fields lie in it with the least
-- significant byte first, as on every platform that the program is built for.
pub mod Laws
pub mod Crypt
pub mod Buffer
pub mod Edit
mod Tests
use libov.Prelude.{
  ℕ, List, ◌+◌, ltb, if◌then◌else◌, take, slice, write_at, le_bytes, le_value, add_size,
}
use libov.Protocol.{header_len, pos_callerid, pos_port, pos_seq}

abbrev pub Bytes : Type 0
Bytes = List ℕ

-- The accessors, as reads and as writes through the reference.
unfoldable pub msg_secret : Bytes → ℕ
msg_secret m = le_value (slice 0 4 m)

unfoldable pub msg_callerid : Bytes → ℕ
msg_callerid m = le_value (slice pos_callerid 1 m)

unfoldable pub msg_port : Bytes → ℕ
msg_port m = le_value (slice pos_port 2 m)

unfoldable pub msg_seq : Bytes → ℕ
msg_seq m = le_value (slice pos_seq 2 m)

unfoldable pub set_secret : ℕ → Bytes → Bytes
set_secret v m = write_at 0 (le_bytes 4 v) m

unfoldable pub set_callerid : ℕ → Bytes → Bytes
set_callerid v m = write_at pos_callerid (le_bytes 1 v) m

unfoldable pub set_port : ℕ → Bytes → Bytes
set_port v m = write_at pos_port (le_bytes 2 v) m

unfoldable pub set_seq : ℕ → Bytes → Bytes
set_seq v m = write_at pos_seq (le_bytes 2 v) m

-- The four header fields, written in the order of the code.
pub write_header : ℕ → ℕ → ℕ → ℕ → Bytes → Bytes
write_header secret callerid destport seq m =
    set_seq seq (set_port destport (set_callerid callerid (set_secret secret m)))

-- The result is the returned length and the destination buffer.
unfoldable pub packmsg : Bytes → ℕ → ℕ → ℕ → ℕ → ℕ → Bytes → ℕ → ℕ × Bytes
unfolding write_header
packmsg destbuf maxlen secret callerid destport seq msg msglen =
    if ltb maxlen (add_size header_len msglen) then (0, destbuf) else (
      add_size header_len msglen,
      write_at header_len (take msglen msg) (write_header secret callerid destport seq destbuf),
    )

unfoldable pub addmsg : Bytes → ℕ → ℕ → Bytes → ℕ → ℕ × Bytes
addmsg destbuf maxlen currentlen msg msglen =
    if ltb maxlen (add_size currentlen msglen)
    then (0, destbuf)
    else (add_size currentlen msglen, write_at currentlen (take msglen msg) destbuf)
