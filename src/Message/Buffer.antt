-- ===== src/Message/Buffer.antt =====
-- `msgbuf_t` of src/udpsocket.h: `msg` points into `rawbuffer`, at `msg_pos`.
use libov.Prelude.{ℕ, Bool, true, false, ◌&&◌, leb, if◌then◌else◌, replicate, drop, sub_size}
use libov.Protocol.{buf_size, header_len}
use libov.Endpoint.{Endpoint}
use libov.Message.{Bytes, msg_callerid, msg_port, msg_seq, packmsg}

pub record MsgBuf : Type 0 where
  pub valid : Bool
  pub cid : ℕ
  pub destport : ℕ
  pub seq : ℕ
  pub size : ℕ
  pub rawbuffer : Bytes
  pub msg_pos : ℕ
  pub sender : Endpoint

-- The bytes from `msg` on.
abbrev pub msg_bytes : MsgBuf → Bytes
msg_bytes b = drop b.msg_pos b.rawbuffer

-- The constructor leaves `sender` as it finds it in memory.
unfoldable pub new_msgbuf : Endpoint → MsgBuf
new_msgbuf garbage = record {
  valid = false;
  cid = 0;
  destport = 0;
  seq = 0;
  size = 0;
  rawbuffer = replicate buf_size 0;
  msg_pos = 0;
  sender = garbage;
}

-- `dest.copy(src)`: all but `sender`.
unfoldable pub copy : MsgBuf → MsgBuf → MsgBuf
copy dest src = record dest {
  valid = src.valid;
  cid = src.cid;
  destport = src.destport;
  seq = src.seq;
  size = src.size;
  rawbuffer = src.rawbuffer;
  msg_pos = header_len;
}

unfoldable pub unpack : MsgBuf → ℕ → MsgBuf
unpack b msglen =
    if leb header_len msglen && leb msglen buf_size
    then record b {
      cid = msg_callerid b.rawbuffer;
      destport = msg_port b.rawbuffer;
      seq = msg_seq b.rawbuffer;
      size = sub_size msglen header_len;
      msg_pos = header_len;
      valid = true;
    }
    else record b { valid = false }

-- The packed bytes go to the buffer that `unpack` reads.
unfoldable pub pack : MsgBuf → ℕ → ℕ → ℕ → ℕ → Bytes → ℕ → MsgBuf
pack b secret callerid destport seq msg msglen =
    let (len, m) = packmsg b.rawbuffer buf_size secret callerid destport seq msg msglen in
    unpack (record b { rawbuffer = m }) len
