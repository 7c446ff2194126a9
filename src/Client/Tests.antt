-- ===== src/Client/Tests.antt =====
-- A client with one peer, both with encryption.
use libov.Prelude.{
  ℕ, ◌+◌, refl, Option, none, some, List, [], ◌∷◌, replicate, length-replicate, arith, le_bytes,
}
use libov.Protocol.{buf_size}
use libov.Message.{Bytes, set_secret, set_callerid, set_port, set_seq}
use libov.Message.Crypt.{encryptmsg}
use libov.Message.Crypt.Plain.{plain_box}
use libov.CallerList.Laws.{All}
use libov.Socket.{Socket}
use libov.Client.{Client, Request}
use libov.Client.Sample.{client}
use libov.Client.Route.{recsrv, to_peers, to_server, route_ep, prepare}
use libov.Client.Route.Returns.{Returns, recsrv-Returns}
use libov.Client.Route.Secure.{IsSealed, packed, recsrv_secure}

abbrev stack : Bytes
stack = replicate 16 0

abbrev room : Bytes
room = replicate 64 0

abbrev hello : Bytes
hello = b'h' ∷ b'i' ∷ []

abbrev round : Option (List Request × Client ℕ)
round = recsrv plain_box (λ k. 5 + k) stack room client hello 2

abbrev calls : List Request
calls = elim round [ none ↦ [] | some (out, c) ↦ out ]

abbrev after : Client ℕ
after = elim round [ none ↦ client | some (out, c) ↦ c ]

recsrv_secure_example :
    All
      (IsSealed plain_box
        (λ k. 5 + k)
        (packed plain_box (λ k. 5 + k) stack room client hello 2).1
        (packed plain_box (λ k. 5 + k) stack room client hello 2).0)
      calls
unfolding recsrv to_peers to_server route_ep prepare encryptmsg libov.Socket.packmsg
    libov.Message.packmsg set_seq set_port set_callerid set_secret le_bytes mathlib.Core.Bool.xor
recsrv_secure_example =
    recsrv_secure plain_box (λ k. 5 + k) stack room client hello 2 calls after refl refl

recsrv-Returns_example :
    Returns (recsrv plain_box (λ k. 5 + k) (replicate buf_size 0) room client hello 2)
recsrv-Returns_example =
    recsrv-Returns plain_box (λ k. 5 + k) (replicate buf_size 0) room client hello
      (record { secret_fits = omega arith; callerid_fits = omega arith })
      (omega (arith, length-replicate {A = ℕ} buf_size 0)) (omega arith) (omega arith)
