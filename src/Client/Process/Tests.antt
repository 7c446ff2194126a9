-- ===== src/Client/Process/Tests.antt =====
-- A message of device 1 for a client that is device 0, and for a proxy client.
use libov.Prelude.{
  ℕ, ◌+◌, ◌≡◌, refl, true, false, List, [], ◌∷◌, ◌++◌, some, take, replicate, length-replicate,
  arith,
}
use libov.Protocol.{buf_size}
use libov.Protocol.Port
use libov.Protocol.Mode
use libov.Endpoint.{zero_endpoint}
use libov.Real.{nat_real}
use libov.Message.{Bytes}
use libov.Message.Buffer.{MsgBuf}
use libov.Message.Crypt.Plain.{plain_box}
use libov.CallerList.{EpDesc}
use libov.CallerList.Laws.{All}
use libov.Socket.{Socket, send_ping, recv_sec_msg}
use libov.Socket.Ping.{direct}
use libov.Client.{Client, to_endpoint}
use libov.Client.Sample.{address, doubles}
use libov.Client.Process.{Action, local, remote, pinged, measured, process_msg}
use libov.Client.Process.Echo.{process_msg-send_ping}
use libov.Client.Process.Local.{IsSafe, process_msg-IsSafe}
use libov.Client.Process.Opened.{Carries, process_msg-Carries}

abbrev device : EpDesc ℕ
device = record {
  ep = address 5;
  localep = zero_endpoint;
  timeout = 100;
  announced = true;
  mode = Mode.peer2peer + Mode.encryption;
  pingt_min = 0;
  pingt_max = 0;
  pingt_sum = 0;
  pingt_n = 0;
  num_received = 0;
  num_lost = 0;
  version = [];
  has_pubkey = true;
  pubkey = 3 ∷ [];
}

abbrev client : Client ℕ
client = record {
  remote_server = record {
    secret = 77;
    callerid = 0;
    seqmap = λ p. 0;
    serv_addr = address 9;
    recipient_public = 3 ∷ [];
    recipient_secret = 3 ∷ [];
    tx_bytes = 0;
    rx_bytes = 0;
  };
  list = record {
    endpoints = device ∷ device ∷ [];
    pingperiodms = 100;
    srv_has_pubkey = false;
    srv_pubkey = [];
  };
  xdest = 100 ∷ 2000 ∷ [];
  proxyclients = (1, address 21) ∷ (2, address 22) ∷ [];
  toport = 4464;
  recport = 4564;
  portoffset = 0;
  callerid = 0;
  mode = Mode.peer2peer + Mode.encryption;
  localep = address 1;
  decrypted = replicate 64 0;
  sendlocal = false;
  send_encrypt_any = false;
  send_encrypt_all = false;
}

abbrev hello : Bytes
hello = b'h' ∷ b'i' ∷ []

abbrev message : MsgBuf
message = record {
  valid = true;
  cid = 1;
  destport = 4464;
  seq = 1;
  size = 50;
  rawbuffer = replicate 9 0 ++ (replicate 48 0 ++ hello);
  msg_pos = 9;
  sender = address 0x01000005;
}

process_msg-IsSafe_example :
    All (IsSafe client message) (process_msg plain_box nat_real doubles true 32 7 client message).2
process_msg-IsSafe_example =
    process_msg-IsSafe plain_box nat_real doubles true 32 7 client message
      (omega arith, (omega arith, (omega arith, tt)))

process_msg-Carries_example :
    let out = (process_msg plain_box nat_real doubles true 32 7 client message).2 in
    All (Carries hello) out
    × ((m : Bytes) × (n : ℕ) × (rest : List (Action ℕ)) × (out ≡ local m n 4464 ∷ rest))
process_msg-Carries_example =
    process_msg-Carries plain_box nat_real doubles true 32 7 client message 5 3 hello
      (record {
        is_data = omega arith;
        other = λ e. absurd (omega (arith, e));
        known = omega arith;
        peer_wants = refl;
        client_wants = refl;
        public_is = refl;
        secret_is = refl;
        sealed = refl;
        size_is = refl;
        size_fits = omega arith;
        room = omega arith;
      })
      (λ e. absurd (omega (arith, e)))

abbrev peer : Client ℕ
peer = record client {
  callerid = 1;
  remote_server = (let s : Socket = client.remote_server in record s { callerid = 1 });
}

abbrev box : MsgBuf
box = record message { rawbuffer = replicate buf_size 0 }

-- Client 0 sends a ping at time 7, and its answer comes at time 9.
process_msg-send_ping_example :
    (ping raw : Bytes) × (n : ℕ) × ((send_ping nat_real doubles
        (some 33)
        (replicate 134 0)
        client.remote_server
        7
        (address 5)
        1
        Port.ping).0
      ≡ record { payload = ping; dest = address 5 } ∷ [])
    × (let (ok, x, _) = recv_sec_msg (some (ping, address 1)) peer.remote_server box in
        (ok ≡ true)
        × ((process_msg plain_box nat_real doubles true 32 8 peer x).2
            ≡ remote (to_endpoint raw n (address 1)) ∷ []))
    × (let (ok, y, _) = recv_sec_msg (some (take n raw, address 5)) client.remote_server box in
        (ok ≡ true)
        × ((process_msg plain_box nat_real doubles true 32 9 client y).2
            ≡ pinged 1 Port.pong 2000 (address 5) ∷ measured Port.pong 1 2000 ∷ []))
process_msg-send_ping_example =
    process_msg-send_ping plain_box nat_real doubles true 32 7 (address 5) client client peer
      (record { secret_fits = omega arith; callerid_fits = omega arith }) (omega arith) refl
      (λ e. absurd (omega (arith, e))) refl refl refl (replicate 134 0)
      (omega (arith, length-replicate {A = ℕ} 134 0)) box box
      (omega (arith, length-replicate {A = ℕ} buf_size 0))
      (omega (arith, length-replicate {A = ℕ} buf_size 0)) (some 33) 1 8 9 (address 1) (address 5)
      direct
