-- ===== src/Prototype/BloomFilter.antt =====
-- The Bloom filter is a copy of libbloom and a parameter; the two functions that the repository adds
-- to it save and load its bytes (prototype/bloom.c).
use freqanalysis.Common.{
  ℕ, ◌+◌, ◌*◌, ◌<◌, ◌≡◌, refl, Bool, true, false, Option, none, some, List, ltb, if◌then◌else◌,
  length, All, Run, ok, stop, undefined, arith,
}
use freqanalysis.Bytes.{Key}
use freqanalysis.Prototype.Bits.{key_bits, read_bytes, read_bytes-bits, length-key_bits}

-- `struct bloom` with `bloom_check` and `bloom_add`, and its bytes `bf`.
pub record Bloom : Type 1 where
  pub Filter : Type 0
  pub check : Filter → Key → Bool
  pub add : Filter → Key → Filter
  pub bf : Filter → List ℕ
  pub with_bf : Filter → List ℕ → Filter

-- `bloom_conf_out`: the text of `./conf/bloomConf`
unfoldable pub bloom_conf_out : List ℕ → List ℕ
unfolding key_bits
bloom_conf_out bf = key_bits bf

-- `bloom_init_conf`: the bytes of the filter from the text, if there is a file; a file that is too
-- short is read behind its end.
unfoldable pub bloom_init_conf : List ℕ → Option (List ℕ) → Run (List ℕ × Bool)
unfolding read_bytes
bloom_init_conf bf none = ok (bf, false)
bloom_init_conf bf (some contents) =
    if ltb (length contents + 1) (8 * length bf)
    then stop undefined
    else ok (read_bytes (length bf) contents, true)

-- The bytes that `bloom_conf_out` saves are those that `bloom_init_conf` loads into any filter of
-- the same size.
pub bloom_init_conf-bloom_conf_out :
    (bf old : List ℕ)
    → All (λ b. b < 256) bf
    → length old ≡ length bf
    → bloom_init_conf old (some (bloom_conf_out bf)) ≡ ok (bf, true)
unfolding bloom_init_conf bloom_conf_out
bloom_init_conf-bloom_conf_out bf old h size =
    let long : ltb (length (key_bits bf) + 1) (8 * length old) ≡ false =
      ground (arith, length-key_bits bf, size) in
    rw (long, size, read_bytes-bits bf h) refl
