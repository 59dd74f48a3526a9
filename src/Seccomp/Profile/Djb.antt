-- ===== src/Seccomp/Profile/Djb.antt =====
-- `hash` of stage3/extension/seccomp.c as a polynomial.
use saphire.Prelude.{ℕ, ◌+◌, ◌*◌, ◌%◌, ◌^◌, ◌<◌, ◌≡◌, refl, ◌∙◌, ap, [], ◌∷◌, arith}
use saphire.Clib.{Bytes}
use saphire.Seccomp.Profile.{num_buckets, char_to_ulong, hash_loop, hash}

-- The polynomial in `x` with the leading coefficient `h` and the characters, with no wrap-around.
unfoldable pub horner : ℕ → ℕ → Bytes → ℕ
horner x h [] = h
horner x h (c ∷ str) = horner x (h * x + char_to_ulong c) str

hash_loop-horner : (h : ℕ) (str : Bytes) → hash_loop (h % 2 ^ 64) str ≡ horner 33 h str % 2 ^ 64
unfolding hash_loop horner
hash_loop-horner h [] = refl
hash_loop-horner h (c ∷ str) =
    ap (λ k. hash_loop k str) (round h (char_to_ulong c))
    ∙ hash_loop-horner (h * 33 + char_to_ulong c) str
  where
    round :
        (h k : ℕ)
        → ((h % 2 ^ 64 * 2 ^ 5 % 2 ^ 64 + h % 2 ^ 64) % 2 ^ 64 + k) % 2 ^ 64 ≡ (h * 33 + k) % 2 ^ 64
    round h k = omega arith

-- The hash is the polynomial in 33 that starts at 5381, modulo 2 ^ 64 and then modulo the number of
-- buckets, although the code wraps at each character; and it is an index of a bucket.
pub hash-horner :
    (str : Bytes)
    → (hash str ≡ horner 33 5381 str % 2 ^ 64 % num_buckets) × (hash str < num_buckets)
unfolding hash
hash-horner str = (ap (λ k. k % num_buckets) (hash_loop-horner 5381 str), omega arith)
