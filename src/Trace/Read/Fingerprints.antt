-- ===== src/Trace/Read/Fingerprints.antt =====
-- What is read as a fingerprint is one: six bytes.
use freqanalysis.Common.{
  ℕ, zero, suc, ◌<◌, ◌≡◌, refl, ap, Option, none, some, List, length, replicate, length-replicate,
  All, arith,
}
use freqanalysis.Bytes.{IsFingerprint, fp_size}
use freqanalysis.Trace.Read.{first_delims, next_delims, fill_hash, parse_hash}
use freqanalysis.Trace.Text.{strtok}

length-fill_hash : (n : ℕ) (item : Option (List ℕ × List ℕ)) → length (fill_hash n item).0 ≡ n
unfolding fill_hash
length-fill_hash zero item = refl
length-fill_hash (suc n) none = length-replicate {A = ℕ} (suc n) 0
length-fill_hash (suc n) (some (item, rest)) =
    ap ℕ.suc (length-fill_hash n (strtok next_delims rest))

zeros-are_bytes : (n : ℕ) → All (λ b. b < 256) (replicate n 0)
zeros-are_bytes zero = tt
zeros-are_bytes (suc n) = (omega arith, zeros-are_bytes n)

fill_hash-bytes :
    (n : ℕ) (item : Option (List ℕ × List ℕ)) → All (λ b. b < 256) (fill_hash n item).0
unfolding fill_hash
fill_hash-bytes zero item = tt
fill_hash-bytes (suc n) none = zeros-are_bytes (suc n)
fill_hash-bytes (suc n) (some (item, rest)) =
    (omega arith, fill_hash-bytes n (strtok next_delims rest))

pub parse_hash-IsFingerprint : (read_buffer : List ℕ) → IsFingerprint (parse_hash read_buffer).0
unfolding parse_hash
parse_hash-IsFingerprint read_buffer = record {
  size = length-fill_hash fp_size (strtok first_delims read_buffer);
  bytes = fill_hash-bytes fp_size (strtok first_delims read_buffer);
}
