-- ===== src/Message/Crypt/Laws.antt =====
-- A message that was encrypted for the owner of a key pair, and decrypted by it.
use libov.Prelude.{
  ℕ, ◌+◌, ◌-◌, ◌^◌, ◌≤◌, ◌<◌, ◌≡◌, ◌∙◌, refl, ap, none, some, arith, leb, take, drop, length, slice,
  write_at, add_size, sub_size, lt→ltb, ge→ltb, length-take, length-slice, length-write_at,
  slice-write_at_self, slice-write_at_before, drop-write_at_after, Bool-cases, inl, inr, true,
  false,
}
use libov.Protocol.{header_len}
use libov.Message.{Bytes}
use libov.Message.Crypt.{SealedBox, encryptmsg, decryptmsg, return_original}

gt→leb : (a b : ℕ) → b < a → leb a b ≡ false
gt→leb a b h = ground arith

leb-false : (a b : ℕ) → leb a b ≡ false → b < a
leb-false a b h = ground arith

le→leb : (a b : ℕ) → a ≤ b → leb a b ≡ true
le→leb a b h = ground arith

module _ (box : SealedBox) where
  open box use {sealbytes, seal, seal_open, public_key, secret_key, length-seal, seal_open-seal}

  -- The encrypted message: the header in the clear, and the sealed rest.
  abbrev sealed : ℕ → Bytes → ℕ → Bytes → Bytes → Bytes
  sealed r src n pk dest =
      write_at header_len (seal r (slice header_len (n - header_len) src) pk)
        (write_at 0 (take header_len src) dest)

  module _ (r : ℕ) (src : Bytes) (n maxlen : ℕ) (dest pk : Bytes) (long : header_len ≤ n)
      (inside : n ≤ length src) (room : n + sealbytes ≤ maxlen) (small : maxlen < 2 ^ 64) where
    pub encryptmsg_fits :
        encryptmsg box r dest maxlen src n pk ≡ some (n + sealbytes, sealed r src n pk dest)
    unfolding encryptmsg
    encryptmsg_fits =
        let size : add_size n sealbytes ≡ n + sealbytes = omega arith in
        let rest : sub_size n header_len ≡ n - header_len = omega arith in
        let fits : header_len + (n - header_len) ≤ length src = omega arith in
        rw
          (
            size,
            rest,
            ge→ltb maxlen (n + sealbytes) room,
            ge→ltb (length src) (header_len + (n - header_len)) fits,
          )
          (ap
            (λ k. some (
              n + sealbytes,
              write_at header_len (seal r (slice header_len k src) pk)
                  (write_at 0 (take header_len src) dest),
            ))
            rest)

  module _ (src : Bytes) (n : ℕ) (dest pk sk plain : Bytes) (long : header_len < n)
      (small : n < 2 ^ 64) where
    pub decryptmsg_opens :
        seal_open (slice header_len (n - header_len) src) pk sk ≡ some plain
        → decryptmsg box dest src n pk sk ≡ (
          sub_size n sealbytes,
          write_at header_len plain (write_at 0 (take header_len src) dest),
        )
    unfolding decryptmsg
    decryptmsg_opens e =
        let rest : sub_size n header_len ≡ n - header_len = omega arith in
        rw (gt→leb n header_len long, rest, e)

  -- `encryptmsg` does not check that the message has a header: called with a length below that of the
  -- header, such as the 0 that `packmsg` returns for a message that does not fit, it reads behind the
  -- end of the source, whatever source of up to 2^63 bytes it is given.
  pub encryptmsg_short :
      (r : ℕ) (src : Bytes) (n maxlen : ℕ) (dest pk : Bytes)
      → n < header_len
      → n + sealbytes ≤ maxlen
      → maxlen < 2 ^ 64
      → length src < 2 ^ 63
      → encryptmsg box r dest maxlen src n pk ≡ none
  unfolding encryptmsg
  encryptmsg_short r src n maxlen dest pk short room small real =
      let size : add_size n sealbytes ≡ n + sealbytes = omega arith in
      let over : length src < header_len + sub_size n header_len = omega arith in
      rw (
        size,
        ge→ltb maxlen (n + sealbytes) room,
        lt→ltb (length src) (header_len + sub_size n header_len) over,
      )

  module _ (src : Bytes) (n : ℕ) (dest pk sk : Bytes) (hs : n ≤ length src) (hd : n ≤ length dest)
      (small : n < 2 ^ 64) where
    returned :
        let (len, m) = return_original box dest src n in
        (len ≡ n) × (slice 0 n m ≡ slice 0 n src) × (drop n m ≡ drop n dest)
    unfolding return_original
    returned =
        let same : length (take n src) ≡ n = omega (arith, length-take n src) in
        (
          refl,
          slice-write_at_self 0 (take n src) dest n same (omega arith),
          drop-write_at_after 0 n (take n src) dest (omega arith),
        )

    -- Where a message has no data, or its data do not open with these keys, `decryptmsg` copies the
    -- message as it came and returns its length, and the rest of the buffer is unchanged.
    pub decryptmsg_returns :
        (header_len < n → seal_open (slice header_len (n - header_len) src) pk sk ≡ none)
        → let (len, m) = decryptmsg box dest src n pk sk in
          (len ≡ n) × (slice 0 n m ≡ slice 0 n src) × (drop n m ≡ drop n dest)
    unfolding decryptmsg return_original
    decryptmsg_returns closed = elim (Bool-cases (leb n header_len)) [
      | inl bare ↦ rw bare returned
      | inr long ↦
          let rest : sub_size n header_len ≡ n - header_len =
            omega (arith, leb-false n header_len long) in
          rw (long, rest, closed (leb-false n header_len long)) returned
    ]

  module _ (r s : ℕ) (src : Bytes) (n maxlen : ℕ) (dest dest' : Bytes) (long : header_len ≤ n)
      (inside : n ≤ length src) (room : n + sealbytes ≤ maxlen) (fits : maxlen ≤ length dest)
      (fits' : n ≤ length dest') (small : maxlen < 2 ^ 64) (proper : 0 < sealbytes) where
    abbrev cipher : Bytes
    cipher = sealed r src n (public_key s) dest

    length-box :
        length (seal r (slice header_len (n - header_len) src) (public_key s))
        ≡ n - header_len + sealbytes
    length-box =
        length-seal r _ _
        ∙ ap (λ k. k + sealbytes) (length-slice header_len (n - header_len) src (omega arith))

    length-cipher : length cipher ≡ length dest
    length-cipher = length-write_at header_len _ _ ∙ length-write_at 0 (take header_len src) dest

    box-cipher :
        slice header_len (n + sealbytes - header_len) cipher
        ≡ seal r (slice header_len (n - header_len) src) (public_key s)
    box-cipher =
        slice-write_at_self header_len _ _ (n + sealbytes - header_len) (omega (arith, length-box))
          (omega (arith, length-write_at 0 (take header_len src) dest))

    header-cipher : slice 0 header_len cipher ≡ slice 0 header_len src
    header-cipher =
        slice-write_at_before header_len 0 header_len _ _ (omega arith)
        ∙ slice-write_at_self 0 (take header_len src) dest header_len
            (omega (arith, length-take header_len src)) (omega arith)

    -- A packed message that was encrypted for the owner of a key pair, in a buffer that has room for
    -- it, and decrypted with that pair: both steps succeed, the length is the one before, and so are
    -- the header and the data.
    pub decryptmsg-encryptmsg :
        (encryptmsg box r dest maxlen src n (public_key s) ≡ some (n + sealbytes, cipher))
        × (let (len, m) =
              decryptmsg box dest' cipher (n + sealbytes) (public_key s) (secret_key s) in
            (len ≡ n)
            × (slice 0 header_len m ≡ slice 0 header_len src)
            × (slice header_len (n - header_len) m ≡ slice header_len (n - header_len) src))
    decryptmsg-encryptmsg = (
      encryptmsg_fits r src n maxlen dest (public_key s) long inside room small,
      rw
          (decryptmsg_opens cipher (n + sealbytes) dest' (public_key s) (secret_key s)
            (slice header_len (n - header_len) src) (omega arith) (omega arith)
            (ap (λ b. seal_open b (public_key s) (secret_key s)) box-cipher ∙ seal_open-seal r s _))
          (
            omega arith,
            slice-write_at_before header_len 0 header_len (slice header_len (n - header_len) src)
                  (write_at 0 (take header_len cipher) dest') (omega arith)
                ∙ slice-write_at_self 0 (take header_len cipher) dest' header_len
                    (omega (arith, length-take header_len cipher, length-cipher)) (omega arith)
                ∙ header-cipher,
            slice-write_at_self header_len (slice header_len (n - header_len) src)
                (write_at 0 (take header_len cipher) dest') (n - header_len)
                (length-slice header_len (n - header_len) src (omega arith))
                (omega (arith, length-write_at 0 (take header_len cipher) dest')),
          ),
    )
