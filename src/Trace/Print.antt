-- ===== src/Trace/Print.antt =====
-- The `printf` lines of the defenses, in the format that the traces come in.
pub mod Characters
use freqanalysis.Common.{ℕ, ◌+◌, ◌/◌, ◌%◌, List, [], ◌∷◌, ◌++◌, ltb, if◌then◌else◌}
use freqanalysis.Bytes.Decimal.{decimal}
use freqanalysis.Bytes.{Key}

unfoldable pub hex_digit : ℕ → ℕ
hex_digit d = if ltb d 10 then 48 + d else 87 + d

-- `printf("%.2hhx", b)`
unfoldable pub print_byte : ℕ → List ℕ
unfolding hex_digit
print_byte b = hex_digit (b / 16) ∷ hex_digit (b % 16) ∷ []

-- `printf(":%.2hhx", …)` for the bytes after the first
unfoldable pub print_more : List ℕ → List ℕ
unfolding print_byte
print_more [] = []
print_more (b ∷ bs) = 58 ∷ (print_byte b ++ print_more bs)

unfoldable pub print_key : Key → List ℕ
unfolding print_byte print_more
print_key [] = []
print_key (b ∷ bs) = print_byte b ++ print_more bs

-- One chunk: the fingerprint, `"\t\t%lu "` and `"\t\t\t10\n"`.
unfoldable pub print_chunk : Key → ℕ → List ℕ
unfolding print_key decimal
print_chunk key size =
    print_key key ++ (9 ∷ 9 ∷ (decimal size ++ (32 ∷ 9 ∷ 9 ∷ 9 ∷ 49 ∷ 48 ∷ 10 ∷ [])))
