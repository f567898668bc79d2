-- ===== src/Checksum/Examples.antt =====
-- The checksum theorems at concrete buffers.
use sing_tun.Base.{ℕ, ◌+◌, ◌≡◌, refl, true, false, some, List, [], ◌∷◌, arith, All}
use sing_tun.Checksum.Ones.{canon, word_sum, odd_after}
use sing_tun.Checksum.Words.{IsByte}
use sing_tun.Checksum.Unsafe.{calculate_checksum}
use sing_tun.Checksum.Unsafe.Sound.{calculate_checksum_lem}
use sing_tun.Checksum.Generic.{checksum_generic64}
use sing_tun.Checksum.Generic.Sound.{checksum_generic64_lem}
use sing_tun.Checksum.Alternate.{checksum_generic64_alternate}
use sing_tun.Checksum.Alternate.Sound.{checksum_generic64_alternate_lem}
use sing_tun.Checksum.Header.{combine}
use sing_tun.Checksum.Header.Update.{combine_lem}

-- The example of RFC 1071, and the address 192.0.2.1.
abbrev words : List ℕ
words = 0 ∷ 1 ∷ 242 ∷ 3 ∷ 244 ∷ 245 ∷ 246 ∷ 247 ∷ 9 ∷ []

abbrev address : List ℕ
address = 192 ∷ 0 ∷ 2 ∷ 1 ∷ []

abbrev address' : List ℕ
address' = 10 ∷ 0 ∷ 0 ∷ 1 ∷ []

words_bytes : All IsByte words
words_bytes = grind arith

address_bytes : All IsByte address
address_bytes = grind arith

address'_bytes : All IsByte address'
address'_bytes = grind arith

sum_of_words : canon (word_sum false (0 ∷ 1 ∷ 242 ∷ 3 ∷ 244 ∷ 245 ∷ 246 ∷ 247 ∷ [])) ≡ 56818
unfolding canon word_sum
sum_of_words = refl

calculate_checksum_lem_example :
    calculate_checksum false 3 words true 7
    ≡ some (canon (7 + word_sum true words), odd_after true words)
calculate_checksum_lem_example =
    calculate_checksum_lem false 3 words true 7 words_bytes (omega arith) (λ e. λ h. cc)

checksum_generic64_lem_example : checksum_generic64 false words 7 ≡ canon (7 + word_sum false words)
checksum_generic64_lem_example = checksum_generic64_lem false words 7 words_bytes (omega arith)

combine_lem_example : combine 65535 2 ≡ canon (65535 + 2)
combine_lem_example = combine_lem 65535 2 (omega arith) (omega arith)

checksum_generic64_alternate_lem_example :
    checksum_generic64_alternate false words 7 ≡ canon (7 + word_sum false words)
checksum_generic64_alternate_lem_example =
    checksum_generic64_alternate_lem false words 7 words_bytes (omega arith) (omega arith)
