-- ===== src/Tunnel.antt =====
-- The tunnel of src/ovtcpsocket.cc, which carries datagrams over a TCP connection, each behind its
-- length in four bytes. What a call of `read` or `write` meets is an argument: a schedule.
pub mod Stream
pub mod Frames
pub mod Prefix
mod Tests
use libov.Prelude.{
  ℕ, zero, suc, ◌+◌, ◌-◌, ◌^◌, Bool, true, false, List, [], ◌∷◌, ◌++◌, ltb, leb, ◌==◌,
  if◌then◌else◌, length, take, drop, min, le_bytes, le_value,
}
use libov.Protocol.{buf_size}
use libov.Message.{Bytes}

-- One turn of the loop of `nbread` or `nbwrite`: nothing to be had (EAGAIN), another error, a call that
-- returns 0, `run_server` found false, or at most `k + 1` bytes transferred. A server that was stopped
-- remains so.
pub data Attempt : Type 0 where
  again failed closed stopped : Attempt
  moved : ℕ → Attempt

-- The return value; `waiting` has not returned at the end of the schedule.
pub data Ret : Type 0 where
  returned : ℕ → Ret
  minus_one minus_two minus_four waiting : Ret

abbrev pub add_count : ℕ → Ret → Ret
add_count k (returned n) = returned (k + n)
add_count k r = r

-- What was returned, the bytes read into the buffer, the bytes that are still to come, and the rest of
-- the schedule. The stream ends, for the reader, behind its last byte.
abbrev pub Reading : Type 0
Reading = Ret × Bytes × Bytes × List Attempt

abbrev pub read_on : ℕ → Bytes → Reading → Reading
read_on g s (r, bytes, rest, sch) = (add_count g r, take g s ++ bytes, rest, sch)

unfoldable pub nbread : ℕ → Bytes → List Attempt → Reading
nbread zero s sch = (returned 0, [], s, sch)
nbread (suc n) s [] = (waiting, [], s, [])
nbread (suc n) s (again ∷ sch) = nbread (suc n) s sch
nbread (suc n) s (failed ∷ sch) = (minus_one, [], s, sch)
nbread (suc n) s (closed ∷ sch) = (minus_two, [], s, sch)
nbread (suc n) s (stopped ∷ sch) = (returned 0, [], s, stopped ∷ sch)
nbread (suc n) s (moved k ∷ sch) =
    let g = min (min (suc n) (suc k)) (length s) in
    let rest = nbread (suc n - g) (drop g s) sch in
    if g == 0 then (minus_two, [], s, sch) else read_on g s rest

-- What was returned, the bytes written, and the rest of the schedule.
abbrev pub Writing : Type 0
Writing = Ret × Bytes × List Attempt

abbrev pub write_on : Bytes → Writing → Writing
write_on bytes (r, out, sch) = (add_count (length bytes) r, bytes ++ out, sch)

-- The bytes are taken off the buffer as they are written, `n` of them in all.
unfoldable pub nbwrite : ℕ → Bytes → List Attempt → Writing
nbwrite zero buf sch = (returned 0, [], sch)
nbwrite (suc n) buf [] = (waiting, [], [])
nbwrite (suc n) buf (again ∷ sch) = nbwrite (suc n) buf sch
nbwrite (suc n) buf (failed ∷ sch) = (minus_one, [], sch)
nbwrite (suc n) buf (closed ∷ sch) = (minus_two, [], sch)
nbwrite (suc n) buf (stopped ∷ sch) = (returned 0, [], stopped ∷ sch)
nbwrite (suc n) buf (moved k ∷ sch) =
    let g = min (suc n) (suc k) in write_on (take g buf) (nbwrite (suc n - g) (drop g buf) sch)

-- After the four bytes of the length.
send_rest : Bytes → Writing → Writing
send_rest buf (returned n, out, sch) =
    let (r, out', sch') = nbwrite (length buf) buf sch in
    if ltb n 4 then (minus_four, out, sch) else (r, out ++ out', sch')
send_rest buf (waiting, out, sch) = (waiting, out, sch)
send_rest buf (r, out, sch) = (minus_four, out, sch)

unfoldable pub send : Bytes → List Attempt → Writing
unfolding send_rest
send buf sch = send_rest buf (nbwrite 4 (le_bytes 4 (length buf)) sch)

-- The datagrams that come in, each sent as it was received, in at most `BUFSIZE` bytes. The result of
-- `send` is only logged.
unfoldable pub udpreceive : List Bytes → List Attempt → Bytes × List Attempt
udpreceive [] sch = ([], sch)
udpreceive (d ∷ ds) sch =
    let got = take buf_size d in
    let (r, out, sch') = send got sch in
    if ltb 0 (length got)
    then (let (outs, sch2) = udpreceive ds sch' in (out ++ outs, sch2))
    else udpreceive ds sch

-- The sum of the four bytes is an `int`, which is extended to a `size_t`.
abbrev pub frame_size : Bytes → ℕ
frame_size csize = let v = le_value csize in if ltb v (2 ^ 31) then v else v + (2 ^ 64 - 2 ^ 32)

-- How the loop ends: it left, the schedule ended, or it wrote out of the bounds of its buffer by then.
pub data End : Type 0 where
  left out_of_bounds unfinished : End

abbrev pub is_stopped : List Attempt → Bool
is_stopped (stopped ∷ sch) = true
is_stopped _ = false

abbrev pub overran : List Bytes × End → List Bytes × End
overran (ds, end) = (ds, out_of_bounds)

-- After `nbread(fd, buf, size)`: `buf[cnt] = 0`, and the datagram if it is whole. The loop goes on also
-- where the write is out of the bounds of the buffer, and where the read has failed.
unfoldable pub deliver : ℕ → Reading → (Bytes → List Attempt → List Bytes × End) → List Bytes × End
deliver size (returned cnt, bytes, s, sch) next =
    let rest = next s sch in
    let out = if cnt == size then bytes ∷ rest.0 else rest.0 in
    if leb buf_size cnt then overran (out, rest.1) else (out, rest.1)
deliver size (waiting, bytes, s, sch) next = ([], unfinished)
deliver size (_, bytes, s, sch) next = overran (next s sch)

-- After `nbread(fd, csize, 4)`.
unfoldable pub receive_frame :
    Reading → (Bytes → List Attempt → List Bytes × End) → List Bytes × End
unfolding deliver
receive_frame (returned cnt, csize, s, sch) next =
    if ltb cnt 4
    then ([], left)
    else (let size = frame_size csize in
        if ltb buf_size size then ([], left) else deliver size (nbread size s sch) next)
receive_frame (waiting, csize, s, sch) next = ([], unfinished)
receive_frame (_, csize, s, sch) next = ([], left)

-- The datagrams that the loop of `handleconnection` sends to the target port. A turn has a size to
-- read, so a loop on as many turns as there are bytes, and one, never runs out of them.
unfoldable pub turns : ℕ → Bytes → List Attempt → List Bytes × End
turns zero s sch = ([], unfinished)
turns (suc fuel) s sch =
    let rest = turns fuel in
    if is_stopped sch then ([], left) else receive_frame (nbread 4 s sch) rest

unfoldable pub handleconnection : Bytes → List Attempt → List Bytes × End
handleconnection s sch = turns (suc (length s)) s sch
