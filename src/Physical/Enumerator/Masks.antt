-- ===== src/Physical/Enumerator/Masks.antt =====
-- optimizer/join_enumerator.cpp: masks of relations, one bit put in at a time.
use sql_query_optimizer.Prelude.{
  ℕ, zero, suc, ◌+◌, ◌/◌, ◌%◌, ◌^◌, ◌≤◌, ◌<◌, ◌≡◌, refl, ap, ◌∙◌, true, false, eqb, arith,
}
use sql_query_optimizer.Physical.Enumerator.{test_bit, popcount}

pub pow_positive : (n : ℕ) → 1 ≤ 2 ^ n
pow_positive zero = omega arith
pow_positive (suc n) = omega (arith, pow_positive n)

pub even_of : (mask : ℕ) → eqb (mask % 2) 1 ≡ false → mask % 2 ≡ 0
even_of mask h = ground arith

-- A bit that is put in is set.
pub test_bit-put : (r mask : ℕ) → test_bit mask r ≡ false → test_bit (mask + 2 ^ r) r ≡ true
unfolding test_bit
test_bit-put zero mask h =
    let even = even_of mask h in let odd : (mask + 1) % 2 ≡ 1 = omega (arith, even) in rw odd refl
test_bit-put (suc r) mask h =
    let half : (mask + 2 ^ suc r) / 2 ≡ mask / 2 + 2 ^ r = omega arith in
    rw half (test_bit-put r (mask / 2) h)

-- The mask stays among those of `n` relations.
pub put-lt : (n r mask : ℕ) → r < n → mask < 2 ^ n → test_bit mask r ≡ false → mask + 2 ^ r < 2 ^ n
unfolding test_bit
put-lt zero r mask h k off = omega arith
put-lt (suc n) zero mask h k off = let even = even_of mask off in omega (arith, even)
put-lt (suc n) (suc r) mask h k off =
    omega (arith, put-lt n r (mask / 2) (omega arith) (omega arith) off)

-- One bit more.
pub popcount-put :
    (width r mask : ℕ)
    → r < width
    → test_bit mask r ≡ false
    → popcount width (mask + 2 ^ r) ≡ popcount width mask + 1
unfolding test_bit popcount
popcount-put zero r mask h off = omega arith
popcount-put (suc width) zero mask h off =
    let even = even_of mask off in
    let half : (mask + 1) / 2 ≡ mask / 2 = omega (arith, even) in
    let odd : (mask + 1) % 2 ≡ 1 = omega (arith, even) in rw (half, odd, even) omega arith
popcount-put (suc width) (suc r) mask h off =
    let half : (mask + 2 ^ suc r) / 2 ≡ mask / 2 + 2 ^ r = omega arith in
    let same : (mask + 2 ^ suc r) % 2 ≡ mask % 2 = omega arith in
    rw (half, same) omega (arith, popcount-put width r (mask / 2) (omega arith) off)

popcount-zero : (width : ℕ) → popcount width 0 ≡ 0
unfolding popcount
popcount-zero zero = refl
popcount-zero (suc width) = omega (arith, popcount-zero width)

test_bit-zero : (r : ℕ) → test_bit 0 r ≡ false
unfolding test_bit
test_bit-zero zero = refl
test_bit-zero (suc r) = test_bit-zero r

pub pow-lt : (n r : ℕ) → r < n → 2 ^ r < 2 ^ n
pow-lt n r h = omega (arith, put-lt n r 0 h (pow_positive n) (test_bit-zero r))

pub popcount-one : (width r : ℕ) → r < width → popcount width (2 ^ r) ≡ 1
popcount-one width r h =
    let same : 2 ^ r ≡ 0 + 2 ^ r = omega arith in
    ap (popcount width) same
    ∙ omega (arith, popcount-put width r 0 h (test_bit-zero r), popcount-zero width)

-- Fewer than `2 ^ n`, at most `n` bits.
pub popcount-le : (width n mask : ℕ) → mask < 2 ^ n → popcount width mask ≤ n
unfolding popcount
popcount-le zero n mask h = omega arith
popcount-le (suc width) zero mask h =
    let nothing : mask ≡ 0 = omega arith in rw nothing omega (arith, popcount-zero width)
popcount-le (suc width) (suc n) mask h = omega (arith, popcount-le width n (mask / 2) (omega arith))

pub lt-of_pow : (r n : ℕ) → 2 ^ r < 2 ^ n → r < n
lt-of_pow zero zero h = omega arith
lt-of_pow zero (suc n) h = omega arith
lt-of_pow (suc r) zero h = omega (arith, pow_positive r)
lt-of_pow (suc r) (suc n) h = omega (arith, lt-of_pow r n (omega arith))
