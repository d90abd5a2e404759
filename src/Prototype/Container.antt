-- ===== src/Prototype/Container.antt =====
-- prototype/container_manager.cc: unique fingerprints are collected in memory and written to one
-- container file after another; `MAINFEST` holds the number of the next one. A file system is a
-- function from paths to contents, and `fopen` for writing succeeds. Numbers of containers stay
-- below 2 ^ 31 in the program; a size is the bit pattern of an `int`.
pub mod Names
pub mod Stored
pub mod Collected
pub mod Inserted
use freqanalysis.Common.{
  ℕ, zero, suc, ◌+◌, ◌*◌, ◌-◌, ◌/◌, ◌%◌, ◌^◌, Bool, true, false, ◌&&◌, ◌||◌, Option, none, some,
  List, [], ◌∷◌, ◌++◌, ltb, leb, ◌==◌, if◌then◌else◌, length, take, Run, ok, stop, undefined,
  assertion, ◌>>=◌,
}
use freqanalysis.Bytes.Decimal.{decimal}
use freqanalysis.Bytes.{Key, key_eq, fp_size}
use freqanalysis.Prototype.Bits.{key_bits, lines_of, read_keys}
use freqanalysis.Trace.Text.{codes, c_string, atoi}

abbrev pub Files : Type 0
Files = List ℕ → Option (List ℕ)

-- The file holds the text after `fopen(path, "w")`, `fprintf` and `fclose`.
abbrev pub write_file : Files → List ℕ → List ℕ → Files
write_file files path text = λ p. if key_eq p path then some text else files p

-- `4*1024*1024`
abbrev pub max_size : ℕ
max_size = 4 * 1024 * 1024

pub record Manager : Type 0 where
  pub now_id : ℕ
  pub tmp : List Key
  pub now_size : ℕ
  pub files : Files

abbrev pub manifest_name : List ℕ
manifest_name = codes "MAINFEST"

-- The number that `fscanf(fl, "%d", …)` reads, if the text begins with one.
unfoldable pub starts_number : List ℕ → Bool
starts_number [] = false
starts_number (c ∷ s) =
    let later = starts_number s in
    let digit_next : Bool = elim s [ [] ↦ false | d ∷ _ ↦ leb 48 d && leb d 57 ] in
    if c == 32 || leb 9 c && leb c 13
    then later
    else if c == b'-' || c == b'+'
    then digit_next
    else leb 48 c && leb c 57

-- A new container directory gets its manifest and the flag 0; otherwise the number is read, and the
-- flag is 1.
unfoldable pub init : Files → List ℕ → Run (Manager × ℕ)
unfolding starts_number
init files path =
    let fresh : Manager × ℕ = (
      record {
        now_id = 0;
        tmp = [];
        now_size = 0;
        files = write_file files (path ++ manifest_name) (b'0' ∷ b'\n' ∷ []);
      },
      0,
    ) in
    elim (files (path ++ manifest_name)) [
      | none ↦ ok fresh
      | some text ↦
          if starts_number text
          then ok (record { now_id = atoi text; tmp = []; now_size = 0; files = files }, 1)
          else stop assertion
    ]

-- `fi`: the digits of `ee` from the last to the first; fuel `ee` is enough for the loop.
pub digits_up : ℕ → ℕ → List ℕ
digits_up zero ee = []
digits_up (suc f) zero = []
digits_up (suc f) (suc e) = (suc e % 10 + b'0') ∷ digits_up f (suc e / 10)

pub reverse_onto : List ℕ → List ℕ → List ℕ
reverse_onto [] s = s
reverse_onto (c ∷ fi) s = reverse_onto fi (c ∷ s)

-- `filename`, which is `fi` reversed
unfoldable pub file_number : ℕ → List ℕ
unfolding digits_up reverse_onto
file_number zero = b'0' ∷ []
file_number (suc e) = reverse_onto (digits_up (suc e) (suc e)) []

-- One line of a container. `temp` ends at the first zero byte of the fingerprint; `temp[k]` may be
-- that byte, and no byte behind it.
unfoldable pub container_line : Key → Run (List ℕ)
unfolding key_bits c_string
container_line hash =
    let temp = c_string hash in
    if ltb (length temp + 1) fp_size
    then stop undefined
    else ok (key_bits (take fp_size (temp ++ (0 ∷ []))) ++ (b'\n' ∷ []))

unfoldable pub container_text : List Key → Run (List ℕ)
unfolding container_line
container_text [] = ok []
container_text (hash ∷ rest) = do
  line ← container_line hash
  more ← container_text rest
  ok (line ++ more)

-- `pocessw`: the container in memory becomes a file, and the next one begins.
unfoldable pub pocessw : List ℕ → Manager → Run (Manager × Bool)
unfolding container_text file_number
pocessw path s =
    let id = (s.now_id + 1) % 2 ^ 32 in
    let written : List ℕ → Manager × Bool = λ text. (
      record {
        now_id = id;
        tmp = [];
        now_size = 0;
        files =
            write_file (write_file s.files (path ++ file_number s.now_id) text)
              (path ++ manifest_name) (decimal id ++ (b'\n' ∷ []));
      },
      true,
    ) in
    elim s.tmp [ [] ↦ ok (s, false) | _ ∷ _ ↦ container_text s.tmp >>= λ text. ok (written text) ]

-- `now_size + size > MAX_SIZE`, as `int`
abbrev pub exceeds : ℕ → ℕ → Bool
exceeds now_size size = let sum = (now_size + size) % 2 ^ 32 in ltb max_size sum && ltb sum (2 ^ 31)

-- `insert`: a full container is written first.
unfoldable pub insert : List ℕ → Key → ℕ → Manager → Run Manager
unfolding pocessw
insert path str size s = do
  t ← if exceeds s.now_size size then (pocessw path s >>= λ r. ok r.0) else ok s
  ok (record t { now_size = (t.now_size + size) % 2 ^ 32; tmp = t.tmp ++ (str ∷ []) })

-- `loadtonode`: the fingerprints of a container, from its file, or from memory if it is the current
-- one; otherwise the call fails.
unfoldable pub loadtonode : List ℕ → ℕ → Manager → Run (Option (List Key))
unfolding read_keys lines_of
loadtonode path id s = elim (s.files (path ++ decimal id)) [
  | none ↦ if id == s.now_id then ok (some s.tmp) else ok none
  | some text ↦ read_keys (lines_of text) >>= λ ans. ok (some ans)
]
