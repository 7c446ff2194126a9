-- ===== src/Sorter/Tests.antt =====
-- The sorter on concrete messages.
use libov.Prelude.{ℕ, ◌+◌, ◌%◌, ◌≡◌, refl, true, false, List, [], ◌∷◌, map, some, none, arith}
use libov.Endpoint.{Endpoint, zero_endpoint}
use libov.Message.Buffer.{MsgBuf, copy}
use libov.Sorter.{
  Store, zero_stat, receive, receive_all, drain, process, process_data, account, hold, hand_out,
  flush,
}
use libov.Sorter.Rounds.{used}
use libov.Sorter.Conserve.{Conserves, content, held, receive-Conserves, receive-overwrites}
use libov.Sorter.Order.{Ready, receive_all-in_order}
use libov.Sorter.Reorder.{receive_all-swapped, receive_all-lost}
use libov.Sorter.Stats.{receive_all-lost_count}
use libov.CallerList.Laws.{All}
use libov.Sorter.Sender.{held_senders, IsNamed, receive-AreNamed}

-- A message of device 5 to port 4464, with one byte of its buffer to tell it by.
abbrev message : ℕ → MsgBuf
message s = record {
  valid = true;
  cid = 5;
  destport = 4464;
  seq = s;
  size = 1;
  rawbuffer = s ∷ [];
  msg_pos = 9;
  sender = zero_endpoint;
}

abbrev empty_buffer : MsgBuf
empty_buffer = used (message 0)

-- Nothing is held, and the stream stands at `n`.
abbrev at : ℕ → Store
at n = record {
  seq_in = λ c p. some n;
  seq_out = λ c p. some n;
  buf1 = empty_buffer;
  buf2 = empty_buffer;
  stat = λ c. zero_stat;
  input = empty_buffer;
}

-- The message 12 is held behind 10.
abbrev holding : Store
holding = record (at 10) { buf1 = message 12 }

at-Ready : (n : ℕ) → Ready 5 4464 n (at n)
at-Ready n = record { empty1 = refl; empty2 = refl; last_out = refl }

-- The series 1-2-4-3-5 of the class comment.
swapped_series :
    map content (receive_all used (at 0) (map message (1 ∷ 2 ∷ 4 ∷ 3 ∷ 5 ∷ []))).0
    ≡ map content (map message (1 ∷ 2 ∷ 3 ∷ 4 ∷ 5 ∷ []))
unfolding receive_all receive drain process process_data account hold hand_out flush copy
swapped_series = refl

-- A first message with a number above 1 is held, since the number 0 is taken for the last one.
first_is_held :
    (receive_all used
      (record (at 0) { seq_in = λ c p. none; seq_out = λ c p. none })
      (message 7 ∷ [])).0
    ≡ []
unfolding receive_all receive drain process process_data account hold copy
first_is_held = refl

receive-Conserves_example :
    Conserves (content (message 11) ∷ held holding) (receive used holding (message 11))
receive-Conserves_example = receive-Conserves used (λ b. refl) holding (message 11) refl refl refl

receive-overwrites_example :
    ((receive used holding (message 14)).0 ≡ [])
    × (held (receive used holding (message 14)).1 ≡ content (message 14) ∷ [])
receive-overwrites_example = receive-overwrites used (λ b. refl) holding (message 14) refl refl refl

-- From the largest number to the smallest.
receive_all-in_order_example :
    ((receive_all used (at 0x7fff) (message 0x8000 ∷ message 0x8001 ∷ [])).0
      ≡ used (message 0x8000) ∷ used (message 0x8001) ∷ [])
    × ((receive_all used (at 0x7fff) (message 0x8000 ∷ message 0x8001 ∷ [])).1.buf1.valid ≡ false)
receive_all-in_order_example =
    receive_all-in_order used (λ b. refl) 5 4464 (omega arith) (at 0x7fff) 0x7fff
      (message 0x8000 ∷ message 0x8001 ∷ []) (omega arith) (at-Ready 0x7fff)
      (
        record { is_valid = refl; from_cid = refl; to_port = refl; with_seq = refl },
        (record { is_valid = refl; from_cid = refl; to_port = refl; with_seq = refl }, tt),
      )

receive_all-swapped_example :
    ((receive_all used (at 10) (message 12 ∷ message 11 ∷ [])).0
      ≡ used (message 11) ∷ used (copy empty_buffer (message 12)) ∷ [])
    × Ready 5 4464 12 (receive_all used (at 10) (message 12 ∷ message 11 ∷ [])).1
receive_all-swapped_example =
    receive_all-swapped used (λ b. refl) 5 4464 (omega arith) (at 10) 10 (omega arith) (at-Ready 10)
      refl (message 12)
      (record { is_valid = refl; from_cid = refl; to_port = refl; with_seq = refl }) (message 11)
      (record { is_valid = refl; from_cid = refl; to_port = refl; with_seq = refl })

-- 32766 is lost: 32767 and -32768 change places.
receive_all-lost_example :
    (receive_all used (at 0x7ffd) (message 0x7fff ∷ message 0x8000 ∷ [])).0
    ≡ used (message 0x8000) ∷ used (copy empty_buffer (message 0x7fff)) ∷ []
receive_all-lost_example =
    receive_all-lost used (λ b. refl) 5 4464 (omega arith) (at 0x7ffd) 0x7ffd (omega arith)
      (at-Ready 0x7ffd) refl (message 0x7fff)
      (record { is_valid = refl; from_cid = refl; to_port = refl; with_seq = refl })
      (message 0x8000)
      (record { is_valid = refl; from_cid = refl; to_port = refl; with_seq = refl })

-- 11 is lost, and 13 and 14 change places.
abbrev history : List MsgBuf
history = map message (12 ∷ 14 ∷ 13 ∷ 15 ∷ [])

receive_all-lost_count_example :
    (((receive_all used (at 10) history).1.stat 5).lost + 10 + 4) % 0x10000 ≡ (0 + 15) % 0x10000
receive_all-lost_count_example =
    receive_all-lost_count used (λ b. refl) 5 4464 (omega arith) (at 10) 10 history (omega arith)
      (record { spare = refl; last = refl; known = refl })
      (
        refl,
        refl,
        refl,
        omega arith,
        omega arith,
        (
          refl,
          refl,
          refl,
          omega arith,
          omega arith,
          (
            refl,
            refl,
            refl,
            omega arith,
            omega arith,
            (refl, refl, refl, omega arith, omega arith, tt),
          ),
        ),
      )

-- Message 13 is held when message 12 comes, from another address.
abbrev gap : List MsgBuf
gap = map message (11 ∷ 13 ∷ [])

abbrev elsewhere : Endpoint
elsewhere = record zero_endpoint { s_addr = 5 }

abbrev late : MsgBuf
late = record (message 12) { sender = elsewhere }

receive-AreNamed_example :
    let st = (receive_all used (at 10) gap).1 in
    (held_senders st ≡ (zero_endpoint, zero_endpoint))
    × All (IsNamed elsewhere (zero_endpoint, zero_endpoint)) (receive used st late).0
receive-AreNamed_example = receive-AreNamed used (λ b. refl) (at 10) gap late
