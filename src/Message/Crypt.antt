-- ===== src/Message/Crypt.antt =====
-- `encryptmsg` and `decryptmsg` of src/common.cc over the sealed boxes of libsodium, which are a
-- parameter: a seed stands for the randomness that the library draws.
pub mod Laws
pub mod Plain
use libov.Prelude.{
  ℕ, ◌+◌, ◌≡◌, Option, none, some, ltb, leb, if◌then◌else◌, take, length, slice, write_at, add_size,
  sub_size,
}
use libov.Protocol.{header_len}
use libov.Message.{Bytes}

-- crypto_box_seal, crypto_box_seal_open and crypto_box_keypair with what their manual promises: the
-- size of a sealed box, and that the key pair's owner opens it.
pub record SealedBox : Type 0 where
  pub sealbytes : ℕ
  pub seal : ℕ → Bytes → Bytes → Bytes
  pub seal_open : Bytes → Bytes → Bytes → Option Bytes
  pub public_key : ℕ → Bytes
  pub secret_key : ℕ → Bytes
  pub length-seal : (r : ℕ) (m pk : Bytes) → length (seal r m pk) ≡ length m + sealbytes
  pub seal_open-seal :
      (r s : ℕ) (m : Bytes)
      → seal_open (seal r m (public_key s)) (public_key s) (secret_key s) ≡ some m

module _ (box : SealedBox) where
  open box use {sealbytes, seal, seal_open}

  -- `none` is a read behind the end of the source: `msglen - HEADERLEN` wraps below HEADERLEN.
  unfoldable pub encryptmsg : ℕ → Bytes → ℕ → Bytes → ℕ → Bytes → Option (ℕ × Bytes)
  encryptmsg r destmsg maxlen srcmsg msglen pubkey =
      let n = sub_size msglen header_len in
      if ltb maxlen (add_size msglen sealbytes)
      then some (0, destmsg)
      else if ltb (length srcmsg) (header_len + n)
      then none
      else some (
        add_size msglen sealbytes,
        write_at header_len (seal r (slice header_len n srcmsg) pubkey)
            (write_at 0 (take header_len srcmsg) destmsg),
      )

  -- The message as it came, on either error path.
  return_original : Bytes → Bytes → ℕ → ℕ × Bytes
  return_original destmsg srcmsg msglen = (msglen, write_at 0 (take msglen srcmsg) destmsg)

  unfoldable pub decryptmsg : Bytes → Bytes → ℕ → Bytes → Bytes → ℕ × Bytes
  unfolding return_original
  decryptmsg destmsg srcmsg msglen pubkey seckey =
      if leb msglen header_len
      then return_original destmsg srcmsg msglen
      else elim (seal_open (slice header_len (sub_size msglen header_len) srcmsg) pubkey seckey) [
        | none ↦ return_original destmsg srcmsg msglen
        | some plain ↦ (
          sub_size msglen sealbytes,
          write_at header_len plain (write_at 0 (take header_len srcmsg) destmsg),
        )
      ]
