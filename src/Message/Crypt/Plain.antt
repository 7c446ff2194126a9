-- ===== src/Message/Crypt/Plain.antt =====
-- Sealed boxes that keep every promise and hide nothing: the message behind 48 bytes.
use libov.Prelude.{◌+◌, ◌≡◌, refl, some, [], ◌∷◌, ◌++◌, length, drop, replicate, arith}
use libov.Message.{Bytes}
use libov.Message.Crypt.{SealedBox}

pub length-padded : (m : Bytes) → length (replicate 48 0 ++ m) ≡ length m + 48
length-padded m = omega arith

abbrev pub plain_box : SealedBox
plain_box = record {
  sealbytes = 48;
  seal = λ r m pk. replicate 48 0 ++ m;
  seal_open = λ c pk sk. some (drop 48 c);
  public_key = λ s. s ∷ [];
  secret_key = λ s. s ∷ [];
  length-seal = λ r m pk. length-padded m;
  seal_open-seal = λ r s m. refl;
}
