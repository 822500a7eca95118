-- ===== src/HashFunc.antt =====
-- src/kvs_hash.c, `default_hash`, and src/kvs_hash.h's `KVS_KEY_STR` convention.
-- `k` is the memory from the key's first byte on; `*klen` is an `int`, kept as its 32-bit pattern.
-- `kvs_hash_new` stores `default_hash` in `hash_func` and nothing else writes that field, so the
-- table calls `default_hash` itself.
use ckv.Base.{
  ℕ, ◌+◌, ◌-◌, ◌*◌, ◌/◌, ◌%◌, ◌^◌, ◌<◌, ◌≡◌, List, [], ◌∷◌, arith, ltb, ◌==◌, if◌then◌else◌, length,
  take, take-length, ap, sym, ◌∙◌,
}

-- KVS_KEY_STR, which is -1.
abbrev pub key_str : ℕ
key_str = 2 ^ 32 - 1

-- The bytes before the first NUL.
unfoldable pub c_str : List ℕ → List ℕ
c_str [] = []
c_str (c ∷ cs) = if c == 0 then [] else c ∷ c_str cs

-- `hash = hash * 33 + *p` over the bytes that the loop visits.
unfoldable pub hash_bytes : ℕ → List ℕ → ℕ
hash_bytes hash [] = hash
hash_bytes hash (c ∷ cs) = hash_bytes ((hash * 33 + c) % 2 ^ 32) cs

-- The rounds of `for (i = *klen; i > 0; i--)`: none for a negative length.
unfoldable pub rounds : ℕ → ℕ
rounds klen = if ltb klen (2 ^ 31) then klen else 0

-- The hash, and what `*klen` holds afterwards.
unfoldable pub default_hash : List ℕ → ℕ → ℕ × ℕ
unfolding rounds c_str hash_bytes
default_hash k klen =
    if klen == key_str
    then (hash_bytes 0 (c_str k), length (c_str k) % 2 ^ 32)
    else (hash_bytes 0 (take (rounds klen) k), klen)

-- The call `hash_func(k, (int *)klen)` on a `size_t`: the low half is read and written
-- (a 64-bit little-endian machine).
unfoldable pub hash_func : List ℕ → ℕ → ℕ × ℕ
unfolding default_hash
hash_func k klen =
    let (hash, low) = default_hash k (klen % 2 ^ 32) in (hash, klen / 2 ^ 32 * 2 ^ 32 + low)

-- The hash of a whole key.
unfoldable pub key_hash : List ℕ → ℕ
key_hash q = (hash_func q (length q)).0

hash_func_short :
    (k : List ℕ) (klen : ℕ) → klen < 2 ^ 31 → hash_func k klen ≡ (hash_bytes 0 (take klen k), klen)
unfolding hash_func
hash_func_short k klen h = ground arith

-- The memory at `k` and the length `klen` stand for the key `q`: the length is one that an `int`
-- holds, and that many bytes are there.
pub record IsKey (k : List ℕ) (klen : ℕ) (q : List ℕ) : Type 0 where
  pub short : klen < 2 ^ 31
  pub held : length q ≡ klen
  pub bytes : take klen k ≡ q

-- Such a length is left alone, and the hash is that of the key's bytes.
pub hash_func_lem :
    (k : List ℕ) (klen : ℕ) (q : List ℕ) → IsKey k klen q → hash_func k klen ≡ (key_hash q, klen)
unfolding key_hash
hash_func_lem k klen q a =
    hash_func_short k klen a.short ∙ ap (λ x. (x, klen)) (ap (hash_bytes 0) a.bytes ∙ sym whole)
  where
    whole : key_hash q ≡ hash_bytes 0 q
    whole =
        ap (λ p. p.0) (hash_func_short q (length q) (omega (arith, a.held, a.short)))
        ∙ ap (hash_bytes 0) (take-length q)
