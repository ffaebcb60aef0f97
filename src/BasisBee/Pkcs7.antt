-- ===== src/BasisBee/Pkcs7.antt =====
-- security/basisbee/validator.go: `pkcs7Unpad` and `decryptBasisBytes`.
use Prim.Native.Nat.{bit_or, bit_xor}
pub mod RoundTrip
use bee_ba.Common.{
  ℕ, ◌+◌, ◌-◌, ◌%◌, Bool, ◌||◌, not, List, [], ◌∷◌, ◌++◌, Option, Result, ok, ◌>>=◌, ◌>>◌, fail_if,
  or_fail, ltb, ◌==◌, if◌then◌else◌, length, take, drop, replicate, last_or,
}
use bee_ba.Common.Text.{Bytes}
use bee_ba.BasisBee.Types.{
  Error, encrypted_min_length, block_size, password_required, encrypted_short, not_block_aligned,
  bad_cipher_key, pkcs7_length, pkcs7_padding,
}

-- subtle.ConstantTimeByteEq
unfoldable pub constant_time_byte_eq : ℕ → ℕ → ℕ
constant_time_byte_eq x y = if x == y then 1 else 0

-- The loop `invalid |= byte(ConstantTimeByteEq(value, padding) ^ 1)`.
unfoldable pub scan_padding : ℕ → ℕ → Bytes → ℕ
unfolding constant_time_byte_eq
scan_padding padding invalid [] = invalid
scan_padding padding invalid (value ∷ values) =
    scan_padding padding (bit_or invalid (bit_xor (constant_time_byte_eq value padding) 1)) values

unfoldable pub pkcs7_unpad : Bytes → ℕ → Result Error Bytes
pkcs7_unpad buf size = do
  fail_if (length buf == 0 || not (length buf % size == 0)) pkcs7_length
  let padding = last_or 0 buf
  fail_if (padding == 0 || ltb size padding || ltb (length buf) padding) pkcs7_padding
  let invalid = scan_padding padding 0 (drop (length buf - padding) buf)
  fail_if (not (invalid == 0)) pkcs7_padding
  ok (take (length buf - padding) buf)

-- What an encoder appends: the count of padding bytes, that many times.
unfoldable pub pkcs7_pad : Bytes → ℕ → Bytes
pkcs7_pad buf size = let padding = size - length buf % size in buf ++ replicate padding padding

-- pbkdf2.Key with SHA-1 and 10000 rounds, aes.NewCipher and cipher.NewCBCDecrypter. `new_cipher`
-- is none where aes.NewCipher refuses the key.
pub record Crypto : Type 1 where
  pub Cipher : Type 0
  pub derive_key : Bytes → Bytes → Bytes
  pub new_cipher : Bytes → Option Cipher
  pub cbc_decrypt : Cipher → Bytes → Bytes → Bytes

unfoldable pub decrypt_basis_bytes : Crypto → Bytes → Bytes → Result Error Bytes
unfolding pkcs7_unpad
decrypt_basis_bytes c password encrypted = do
  fail_if (length password == 0) password_required
  fail_if (ltb (length encrypted) encrypted_min_length) encrypted_short
  let salt = take 16 encrypted
  let iv = take 16 (drop 16 encrypted)
  let ciphertext = drop 32 encrypted
  fail_if (not (length ciphertext % block_size == 0)) not_block_aligned
  let key = c.derive_key password salt
  block ← or_fail (c.new_cipher key) bad_cipher_key
  pkcs7_unpad (c.cbc_decrypt block iv ciphertext) block_size
