-- ===== src/Client/Sample.antt =====
-- A client with one peer, both with encryption, for the tests.
use libov.Prelude.{ℕ, ◌+◌, refl, true, false, [], ◌∷◌, replicate, get_or}
use libov.Protocol.Mode
use libov.Endpoint.{Endpoint, zero_endpoint}
use libov.CallerList.{EpDesc}
use libov.Socket.{Socket, Doubles}
use libov.Client.{Client}

abbrev pub address : ℕ → Endpoint
address a = record { sin_family = 2; sin_port = 0x7011; s_addr = a; sin_zero = 0 }

abbrev pub device : ℕ → ℕ → EpDesc ℕ
device a timeout = record {
  ep = address a;
  localep = zero_endpoint;
  timeout = timeout;
  announced = true;
  mode = Mode.peer2peer + Mode.encryption;
  pingt_min = 0;
  pingt_max = 0;
  pingt_sum = 0;
  pingt_n = 0;
  num_received = 0;
  num_lost = 0;
  version = [];
  has_pubkey = true;
  pubkey = 3 ∷ [];
}

abbrev pub socket : Socket
socket = record {
  secret = 77;
  callerid = 0;
  seqmap = λ p. 0;
  serv_addr = address 9;
  recipient_public = 3 ∷ [];
  recipient_secret = 3 ∷ [];
  tx_bytes = 0;
  rx_bytes = 0;
}

-- Device 0 is the client, device 1 is there, and device 2 is not.
abbrev pub client : Client ℕ
client = record {
  remote_server = socket;
  list = record {
    endpoints = device 1 100 ∷ device 2 100 ∷ device 3 0 ∷ [];
    pingperiodms = 100;
    srv_has_pubkey = false;
    srv_pubkey = [];
  };
  xdest = [];
  proxyclients = [];
  toport = 4464;
  recport = 4464;
  portoffset = 0;
  callerid = 0;
  mode = Mode.peer2peer + Mode.encryption;
  localep = address 1;
  decrypted = replicate 64 0;
  sendlocal = false;
  send_encrypt_any = false;
  send_encrypt_all = false;
}

abbrev pub doubles : Doubles ℕ
doubles = record {
  store = λ t. t ∷ replicate 7 0;
  load = λ m. get_or m 0 0;
  length-store = λ t. refl;
  load-store = λ t. refl;
}
