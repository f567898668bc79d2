-- ===== src/Header/Parts.antt =====
-- Fields of a part of a buffer.
use sing_tun.Base.{
  ℕ, zero, suc, ◌+◌, ◌-◌, ◌≤◌, ◌≡◌, refl, ap, ◌∙◌, sym, some, ◌*◌, ◌%◌, List, [], ◌∷◌, ◌++◌, length,
  drop, take, take-take, take_all, arith, drop-drop,
}
use sing_tun.Base.Bytes.{window, get8}
use sing_tun.Header.{header_length}

pub drop-take : (k n : ℕ) (b : List ℕ) → k ≤ n → drop k (take n b) ≡ take (n - k) (drop k b)
drop-take zero n b h = ap (λ (k : ℕ). take k b) (omega arith)
drop-take (suc k) zero b h = absurd (omega arith)
drop-take (suc k) (suc n) [] h = sym (take_all (suc n - suc k) [] (omega arith))
drop-take (suc k) (suc n) (x ∷ b) h =
    drop-take k n b (omega arith) ∙ ap (λ (m : ℕ). take m (drop k b)) (omega arith)

pub window-take : (n lo m : ℕ) (b : List ℕ) → lo + m ≤ n → window (take n b) lo m ≡ window b lo m
window-take n zero m b h = take-take m n b (omega arith)
window-take zero (suc lo) m b h = absurd (omega arith)
window-take (suc n) (suc lo) m [] h = refl
window-take (suc n) (suc lo) m (x ∷ b) h = window-take n lo m b (omega arith)

take-append : (m : ℕ) (b d : List ℕ) → m ≤ length b → take m (b ++ d) ≡ take m b
take-append zero b d h = refl
take-append (suc m) [] d h = absurd (omega arith)
take-append (suc m) (x ∷ b) d h = ap (◌∷◌ x) (take-append m b d (omega arith))

pub window-append :
    (lo m : ℕ) (b d : List ℕ) → lo + m ≤ length b → window (b ++ d) lo m ≡ window b lo m
window-append zero m b d h = take-append m b d (omega arith)
window-append (suc lo) m [] d h = absurd (omega arith)
window-append (suc lo) m (x ∷ b) d h = window-append lo m b d (omega arith)

pub drop_later : (k n : ℕ) (r b : List ℕ) → k ≤ n → drop k r ≡ drop k b → drop n r ≡ drop n b
drop_later k n r b h e =
    let split : k + (n - k) ≡ n = omega arith in
    ap (λ (x : ℕ). drop x r) (sym split)
    ∙ sym (drop-drop (n - k) k r)
    ∙ ap (drop (n - k)) e
    ∙ drop-drop (n - k) k b
    ∙ ap (λ (x : ℕ). drop x b) split

abbrev head_byte : List ℕ → ℕ
head_byte [] = 0
head_byte (x ∷ b) = x

-- The length of a header stands in its first byte.
pub header_length_front :
    (n : ℕ) (h r : List ℕ)
    → 1 ≤ length h
    → window r 0 (suc n) ≡ window h 0 (suc n)
    → header_length r ≡ header_length h
unfolding header_length get8
header_length_front n [] r room e = absurd (omega arith)
header_length_front n (x ∷ h) [] room e = cc
header_length_front n (x ∷ h) (y ∷ r) room e = ap (λ (k : ℕ). some (k % 16 * 4)) (ap head_byte e)
