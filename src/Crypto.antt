-- ===== src/Crypto.antt =====
-- shared/crypto.py: encryption of packets. The cipher is a parameter.
pub mod Jwt
use quickonnect.Prelude.{
  ℕ, ◌+◌, ◌-◌, Option, some, List, ◌++◌, ◌≡◌, refl, sym, ap, ◌∙◌, arith, length, take, drop,
  length-take, length-append,
}
use quickonnect.Stt.{Bytes}

-- `AESGCM(key)`: `seal` is `encrypt`, whose result ends with the tag, and `unseal` is `decrypt`, which
-- gives `none` where it raises `InvalidTag`. Each takes the key, the nonce, the text and the data that
-- is authenticated along with it.
pub record Cipher : Type 0 where
  pub seal : Bytes → Bytes → Bytes → Bytes → Bytes
  pub unseal : Bytes → Bytes → Bytes → Bytes → Option Bytes

-- What the documentation of AES-GCM says of it.
pub record IsCipher (c : Cipher) : Type 0 where
  pub opens :
      (key nonce text aad : Bytes) → c.unseal key nonce (c.seal key nonce text aad) aad ≡ some text
  pub tagged : (key nonce text aad : Bytes) → length (c.seal key nonce text aad) ≡ length text + 16

-- `aes_encrypt`, less the nonce, which is `os.urandom(12)`: the ciphertext and the tag.
unfoldable pub aes_encrypt : Cipher → Bytes → Bytes → Bytes → Bytes → Bytes × Bytes
aes_encrypt c key nonce plaintext aad =
    let ct_and_tag = c.seal key nonce plaintext aad in
    (take (length ct_and_tag - 16) ct_and_tag, drop (length ct_and_tag - 16) ct_and_tag)

unfoldable pub aes_decrypt : Cipher → Bytes → Bytes → Bytes → Bytes → Bytes → Option Bytes
aes_decrypt c key nonce ciphertext tag aad = c.unseal key nonce (ciphertext ++ tag) aad
