-- ===== src/Client/Process/Opened.antt =====
-- What `process_msg` makes of a message that was encrypted for this client.
use libov.Prelude.{
  ℕ, ◌+◌, ◌%◌, ◌^◌, ◌≤◌, ◌<◌, ◌≡◌, ◌≢◌, refl, Bool, true, false, not, ◌&&◌, List, [], ◌∷◌, ◌++◌,
  ◌==◌, if◌then◌else◌, arith, length, take, slice, write_at, slice-write_at_self, lt→ltb, sub_size,
}
use libov.Protocol.{max_stage_id}
use libov.Protocol.Port
use libov.Protocol.Mode
use libov.Endpoint.{is_same_network}
use libov.Real.{RealOps}
use libov.Message.{Bytes}
use libov.Message.Buffer.{MsgBuf}
use libov.Message.Crypt.{SealedBox}
use libov.CallerList.Laws.{All}
use libov.Socket.{Doubles}
use libov.Client.{Client, to_endpoint, to_port}
use libov.Client.Process.{
  Action, local, remote, mode_at, open_msg, send_local, send_all, send_proxies, process_data_msg,
  process_msg,
}
use libov.Client.Process.Local.{All-append, if_actions, send_proxies-All}

-- The action sends these bytes.
abbrev pub Carries : {R : Type 0} → Bytes → Action R → Type 0
Carries bytes (local m n port) = take n m ≡ bytes
Carries bytes (remote (to_endpoint m n ep)) = take n m ≡ bytes
Carries bytes (remote (to_port m n port)) = take n m ≡ bytes
Carries bytes _ = ⊥

module _ (box : SealedBox) {R : Type 0} (c : Client R) (b : MsgBuf) (r s : ℕ) (bytes : Bytes) where
  -- A message of data from another device, which and this client want encryption, sealed for the key
  -- pair of this client; the memory for decrypted messages has room for the data.
  pub record IsSealedFor : Type 0 where
    pub is_data : Port.maxspecialport < b.destport
    pub other : b.cid ≢ c.callerid
    pub known : b.cid < max_stage_id
    pub peer_wants : Mode.has (mode_at c b.cid) Mode.encryption ≡ true
    pub client_wants : Mode.has c.mode Mode.encryption ≡ true
    pub public_is : c.remote_server.recipient_public ≡ box.public_key s
    pub secret_is : c.remote_server.recipient_secret ≡ box.secret_key s
    pub sealed : slice b.msg_pos b.size b.rawbuffer ≡ box.seal r bytes (box.public_key s)
    pub size_is : b.size ≡ length bytes + box.sealbytes
    pub size_fits : b.size < 2 ^ 64
    pub room : length bytes ≤ length c.decrypted

module _ (box : SealedBox) {R : Type 0} (c : Client R) (b : MsgBuf) (r s : ℕ) (bytes : Bytes)
    (h : IsSealedFor box c b r s bytes) where
  abbrev memory : Bytes
  memory = write_at 0 bytes c.decrypted

  open_msg-sealed : open_msg box c b ≡ (memory, length bytes, memory)
  unfolding open_msg
  open_msg-sealed =
      let rest : sub_size b.size box.sealbytes ≡ length bytes =
        omega (arith, h.size_is, h.size_fits) in
      rw
        (
          lt→ltb b.cid max_stage_id h.known,
          h.peer_wants,
          h.client_wants,
          h.public_is,
          h.secret_is,
          h.sealed,
          box.seal_open-seal r s bytes,
          rest,
        )
        refl

  carried : take (length bytes) memory ≡ bytes
  carried = slice-write_at_self 0 bytes c.decrypted (length bytes) refl (omega (arith, h.room))

  send_local-Carries : (x : ℕ) → All (Carries bytes) (send_local c b memory (length bytes) x)
  unfolding send_local
  send_local-Carries x =
      if_actions (Carries bytes) (b.destport + x == c.recport) []
        (local memory (length bytes) ((b.destport + x) % 2 ^ 16) ∷ []) (λ e. tt)
        (λ e. (carried, tt))

  send_all-Carries : (xs : List ℕ) → All (Carries bytes) (send_all c b memory (length bytes) xs)
  send_all-Carries [] = tt
  send_all-Carries (x ∷ xs) =
      All-append (Carries bytes) (send_local c b memory (length bytes) x)
        (send_all c b memory (length bytes) xs) (send_local-Carries x) (send_all-Carries xs)

  far-Carries :
      (q : Bool)
      → All
          (Carries {R = R} bytes)
          (if q
            then ([], c.proxyclients)
            else send_proxies b memory (length bytes) c.proxyclients).0
  far-Carries true = tt
  far-Carries false =
      send_proxies-All (Carries {R = R} bytes) memory (length bytes) (λ ep. carried) b
        c.proxyclients

  data-Carries : All (Carries bytes) (process_data_msg box c b).2
  unfolding process_data_msg
  data-Carries = rw open_msg-sealed (
      All-append (Carries bytes)
        (send_local c b memory (length bytes) c.portoffset
          ++ send_all c b memory (length bytes) c.xdest)
        _
        (All-append (Carries bytes) (send_local c b memory (length bytes) c.portoffset)
          (send_all c b memory (length bytes) c.xdest) (send_local-Carries c.portoffset)
          (send_all-Carries c.xdest))
        (far-Carries (is_same_network b.sender c.localep)))

  -- The first thing that is done is to hand the data to the local port.
  abbrev pub HandsOver : List (Action R) → Type 0
  HandsOver out =
      (m : Bytes) × (n : ℕ) × (rest : List (Action R)) × (out
        ≡ local m n ((b.destport + c.portoffset) % 2 ^ 16) ∷ rest)

  data-HandsOver :
      (b.destport + c.portoffset == c.recport) ≡ false → HandsOver (process_data_msg box c b).2
  unfolding process_data_msg send_local
  data-HandsOver e = rw (open_msg-sealed, e) (memory, length bytes, _, refl)

passes :
    (cid own p : ℕ)
    → cid ≢ own
    → (cid == own && (not (p == Port.listcid) && not (p == Port.pubkey))) ≡ false
passes cid own p h = ground arith

not_equal : (a b : ℕ) → a ≢ b → (a == b) ≡ false
not_equal a b h = ground arith

module _ (box : SealedBox) {R : Type 0} (real : RealOps R) (double : Doubles R) (free : Bool)
    (keybytes : ℕ) (now : R) where
  -- Data of another device that were sealed for the key pair of this client, where both want
  -- encryption, and whose port with the offset is not the one that the client listens on: all that
  -- `process_msg` sends, to the local machine and to proxy clients, are the data in the clear, and the
  -- first call hands them to that local port.
  pub process_msg-Carries :
      (c : Client R) (b : MsgBuf) (r s : ℕ) (bytes : Bytes)
      → IsSealedFor box c b r s bytes
      → b.destport + c.portoffset ≢ c.recport
      → let out = (process_msg box real double free keybytes now c b).2 in
        All (Carries bytes) out
        × ((m : Bytes) × (n : ℕ) × (rest : List (Action R)) × (out
              ≡ local m n ((b.destport + c.portoffset) % 2 ^ 16) ∷ rest))
  unfolding process_msg
  process_msg-Carries c b r s bytes h away =
      let b' : MsgBuf = record b { valid = false } in
      let h' : IsSealedFor box c b' r s bytes = record {
        is_data = h.is_data;
        other = h.other;
        known = h.known;
        peer_wants = h.peer_wants;
        client_wants = h.client_wants;
        public_is = h.public_is;
        secret_is = h.secret_is;
        sealed = h.sealed;
        size_is = h.size_is;
        size_fits = h.size_fits;
        room = h.room;
      } in
      rw
        (
          passes b.cid c.callerid b.destport h.other,
          lt→ltb Port.maxspecialport b.destport h.is_data,
        )
        (
          data-Carries box c b' r s bytes h',
          data-HandsOver box c b' r s bytes h'
              (not_equal (b.destport + c.portoffset) c.recport away),
        )
