-- ===== src/Message/Tests.antt =====
-- A packed message in a buffer of twelve bytes.
use libov.Prelude.{◌≡◌, refl, none, some, [], ◌∷◌, slice, replicate, drop, length, arith, le_bytes}
use libov.Message.{Bytes, packmsg, set_secret, set_callerid, set_port, set_seq}
use libov.Message.Crypt.{encryptmsg, decryptmsg}
use libov.Message.Crypt.Plain.{plain_box}
use libov.Message.Crypt.Laws.{decryptmsg-encryptmsg, decryptmsg_returns, encryptmsg_short}
use libov.Message.Laws.{Packed, packmsg-Packed}

abbrev blank : Bytes
blank = replicate 12 0xee

abbrev hello : Bytes
hello = b'h' ∷ b'i' ∷ []

packed_bytes :
    packmsg blank 12 0x01020304 7 4464 258 hello 2
    ≡ (11, 0x04 ∷ 0x03 ∷ 0x02 ∷ 0x01 ∷ 7 ∷ 0x70 ∷ 0x11 ∷ 2 ∷ 1 ∷ b'h' ∷ b'i' ∷ 0xee ∷ [])
unfolding packmsg set_secret set_callerid set_port set_seq le_bytes
packed_bytes = refl

packmsg-Packed_example :
    let (n, m) = packmsg blank 12 0x01020304 7 4464 258 hello 2 in
    Packed n 0x01020304 7 4464 258 hello m × (length m ≡ 12) × (drop n m ≡ drop n blank)
packmsg-Packed_example =
    packmsg-Packed blank 12 0x01020304 7 4464 258 hello (omega arith) (omega arith) (omega arith)
      (omega arith) (omega arith) (omega arith) (omega arith)

-- 64 bytes with a header of nine bytes and the data "hi".
abbrev clear : Bytes
clear = (packmsg (replicate 64 0) 64 0x01020304 7 4464 258 hello 2).1

abbrev sealed_clear : Bytes
sealed_clear = elim (encryptmsg plain_box 5 (replicate 64 0) 64 clear 11 (3 ∷ [])) [
  | none ↦ []
  | some (n, m) ↦ m
]

decryptmsg-encryptmsg_example :
    (encryptmsg plain_box 5 (replicate 64 0) 64 clear 11 (3 ∷ []) ≡ some (59, sealed_clear))
    × (let (len, m) = decryptmsg plain_box (replicate 64 0) sealed_clear 59 (3 ∷ []) (3 ∷ []) in
        (len ≡ 11) × (slice 0 9 m ≡ slice 0 9 clear) × (slice 9 2 m ≡ hello))
unfolding encryptmsg packmsg set_seq set_port set_callerid set_secret le_bytes
decryptmsg-encryptmsg_example =
    decryptmsg-encryptmsg plain_box 5 3 clear 11 64 (replicate 64 0) (replicate 64 0) (omega arith)
      (omega arith) (omega arith) (omega arith) (omega arith) (omega arith) (omega arith)

-- Nine bytes are a header without data.
decryptmsg_returns_example :
    let (len, m) = decryptmsg plain_box (replicate 12 1) (replicate 12 2) 9 (3 ∷ []) (3 ∷ []) in
    (len ≡ 9) × (slice 0 9 m ≡ slice 0 9 (replicate 12 2)) × (drop 9 m ≡ drop 9 (replicate 12 1))
decryptmsg_returns_example =
    decryptmsg_returns plain_box (replicate 12 2) 9 (replicate 12 1) (3 ∷ []) (3 ∷ []) (omega arith)
      (omega arith) (omega arith) (λ h. absurd (omega (arith, h)))

too_short_to_encrypt : encryptmsg plain_box 5 (replicate 64 0) 64 clear 0 (3 ∷ []) ≡ none
unfolding packmsg set_seq set_port set_callerid set_secret le_bytes
too_short_to_encrypt =
    encryptmsg_short plain_box 5 clear 0 64 (replicate 64 0) (3 ∷ []) (omega arith) (omega arith)
      (omega arith) (omega arith)
