-- ===== src/Controls/Hash.antt =====
-- The 64-bit FNV-1a hash of hash/fnv, and the bytes of a string, which internal/ops/ramp.go assigns
-- customers to buckets by.
use Prim.Native.Nat.{bit_xor}
use bruiser_gateway.Prelude.{
  ℕ, ◌+◌, ◌*◌, ◌/◌, ◌%◌, ◌^◌, List, [], ◌∷◌, ◌++◌, if◌then◌else◌, ltb, Text,
}

-- The UTF-8 bytes of a rune.
unfoldable pub utf8_of : ℕ → List ℕ
utf8_of r =
    if ltb r 128
    then r ∷ []
    else if ltb r 2048
    then (192 + r / 64) ∷ (128 + r % 64) ∷ []
    else if ltb r 65536
    then (224 + r / 4096) ∷ (128 + r / 64 % 64) ∷ (128 + r % 64) ∷ []
    else (240 + r / 262144) ∷ (128 + r / 4096 % 64) ∷ (128 + r / 64 % 64) ∷ (128 + r % 64) ∷ []

unfoldable pub bytes : Text → List ℕ
bytes [] = []
bytes (r ∷ s) = utf8_of r ++ bytes s

abbrev offset_64 : ℕ
offset_64 = 14695981039346656037

abbrev prime_64 : ℕ
prime_64 = 1099511628211

-- Write: each byte is mixed in, and the product wraps around at 64 bits.
unfoldable pub write : ℕ → List ℕ → ℕ
write h [] = h
write h (b ∷ bs) = write (bit_xor h b * prime_64 % 2 ^ 64) bs

-- Of the salt, a zero byte and the customer.
unfoldable pub fnv_1a : Text → Text → ℕ
fnv_1a salt customer_id = write (write (write offset_64 (bytes salt)) (0 ∷ [])) (bytes customer_id)
