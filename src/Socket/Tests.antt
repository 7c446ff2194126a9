-- ===== src/Socket/Tests.antt =====
-- A stream of two messages from device 5 to port 4464, across the end of the numbers.
use libov.Prelude.{
  ℕ, ◌≤◌, ◌≡◌, refl, true, false, some, List, [], ◌∷◌, map, length, take, replicate, le_bytes,
  length-replicate, arith,
}
use libov.Protocol.{buf_size}
use libov.Endpoint.{Endpoint, zero_endpoint}
use libov.Message.{Bytes, packmsg, msg_secret, set_secret, set_callerid, set_port, set_seq}
use libov.Message.Laws.{packmsg-Packed}
use libov.Message.Buffer.{MsgBuf}
use libov.Socket.{Socket, recv_sec_msg}
use libov.Socket.Receive.{Holds, recv_sec_msg-Packed, recv_sec_msg_only}
use libov.Socket.Stream.{data_of, transmit, transmit_in_order}
use libov.Sorter.{Store, receive_all}
use libov.Sorter.Rounds.{used}

abbrev empty_buffer : MsgBuf
empty_buffer = record {
  valid = false;
  cid = 0;
  destport = 0;
  seq = 0;
  size = 0;
  rawbuffer = replicate buf_size 0;
  msg_pos = 0;
  sender = zero_endpoint;
}

abbrev peer : Endpoint
peer = record { sin_family = 2; sin_port = 0x7011; s_addr = 0x0100007f; sin_zero = 0 }

-- The secret is 77, and the last number given for any port is 65535.
abbrev socket : Socket
socket = record {
  secret = 77;
  callerid = 5;
  seqmap = λ p. 0xffff;
  serv_addr = zero_endpoint;
  recipient_public = [];
  recipient_secret = [];
  tx_bytes = 0;
  rx_bytes = 0;
}

abbrev sorter : Store
sorter = record {
  buf1 = empty_buffer;
  buf2 = empty_buffer;
  seq_in = λ c p. some 0xffff;
  seq_out = λ c p. some 0xffff;
  stat = λ c. record { received = 0; lost = 0; seqerr_in = 0; seqerr_out = 0 };
  input = empty_buffer;
}

abbrev stack : Bytes
stack = replicate buf_size 0xcc

room : (x : ℕ) → buf_size ≤ length (replicate buf_size x)
room x = omega (arith, length-replicate buf_size x)

abbrev messages : List Bytes
messages = (b'h' ∷ b'i' ∷ []) ∷ (b'y' ∷ b'o' ∷ b'u' ∷ []) ∷ []

transmit_in_order_example :
    (map data_of
        (receive_all used sorter (transmit stack peer 4464 socket socket empty_buffer messages)).0
      ≡ messages)
    × ((receive_all used sorter
          (transmit stack peer 4464 socket socket empty_buffer messages)).1.buf1.valid
        ≡ false)
transmit_in_order_example =
    transmit_in_order stack peer 4464 (omega arith) (omega arith) (room 0xcc) socket socket
      empty_buffer messages used sorter (λ b. refl)
      (record { secret_fits = omega arith; callerid_fits = omega arith }) refl (room 0)
      (omega arith, (omega arith, tt)) (omega arith)
      (record { empty1 = refl; empty2 = refl; last_out = refl })

-- A datagram of eleven bytes.
abbrev datagram : Bytes
datagram = (packmsg (replicate 12 0) 12 77 5 4464 0 (b'h' ∷ b'i' ∷ []) 2).1

recv_sec_msg-Packed_example :
    let (ok, b', s') = recv_sec_msg (some (take 11 datagram, peer)) socket empty_buffer in
    (ok ≡ true)
    × Holds 5 4464 0 (b'h' ∷ b'i' ∷ []) peer b'
    × (length b'.rawbuffer ≡ length empty_buffer.rawbuffer)
unfolding packmsg set_seq set_port set_callerid set_secret le_bytes
recv_sec_msg-Packed_example =
    recv_sec_msg-Packed socket empty_buffer peer 11 5 4464 0 (b'h' ∷ b'i' ∷ []) datagram
      (packmsg-Packed (replicate 12 0) 12 77 5 4464 0 (b'h' ∷ b'i' ∷ []) (omega arith) (omega arith)
        (omega arith) (omega arith) (omega arith) (omega arith) (omega arith)).0
      (omega arith) (room 0) (omega arith)

received_is_valid :
    (recv_sec_msg (some (take 11 datagram, peer)) socket empty_buffer).1.valid ≡ true
received_is_valid = recv_sec_msg-Packed_example.1.is_valid

recv_sec_msg_only_example :
    ((recv_sec_msg (some (take 11 datagram, peer)) socket empty_buffer).0 ≡ true)
    × (msg_secret (recv_sec_msg (some (take 11 datagram, peer)) socket empty_buffer).1.rawbuffer
        ≡ 77)
    × ((got : Bytes × Endpoint) × (some (take 11 datagram, peer) ≡ some got) × (9 ≤ length got.0))
recv_sec_msg_only_example =
    recv_sec_msg_only (some (take 11 datagram, peer)) socket empty_buffer received_is_valid
