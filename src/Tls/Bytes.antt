-- ===== src/Tls/Bytes.antt =====
-- The bytes of integers that internal/tlsutil works with: `big.Int.Bytes`, `SetBytes`, `copy` into the end of
-- a buffer, and `binary.LittleEndian.PutUint32`.
use limiz.Base.{
  ◌≡◌, refl, ◌∙◌, ℕ, zero, suc, ◌+◌, ◌-◌, ◌*◌, ◌/◌, ◌%◌, ◌^◌, ◌≤◌, ◌<◌, List, [], ◌∷◌, ◌++◌, Option,
  none, some, if◌then◌else◌, ltb, ◌==◌, arith, length, length-append, Bool-cases, inl, inr,
}

-- the bytes of a number, the high ones first and no zero in front; on fuel, for which the number is enough
unfoldable pub bytes_from : ℕ → ℕ → List ℕ
bytes_from zero n = []
bytes_from (suc fuel) n =
    let rest = bytes_from fuel (n / 256) in if n == 0 then [] else rest ++ (n % 256) ∷ []

-- `n.Bytes()`
unfoldable pub bytes : ℕ → List ℕ
unfolding bytes_from
bytes n = bytes_from n n

-- the number that bytes continue
unfoldable pub value_from : ℕ → List ℕ → ℕ
value_from n [] = n
value_from n (b ∷ bs) = value_from (n * 256 + b) bs

-- `new(big.Int).SetBytes(bs)`
unfoldable pub set_bytes : List ℕ → ℕ
unfolding value_from
set_bytes bs = value_from 0 bs

unfoldable pub zeros : ℕ → List ℕ
zeros zero = []
zeros (suc n) = 0 ∷ zeros n

-- `copy(pad[size-len(bs):], bs)` on a new buffer of a size: the slice panics where there are more bytes
unfoldable pub pad : ℕ → List ℕ → Option (List ℕ)
unfolding zeros
pad size bs = if ltb size (length bs) then none else some (zeros (size - length bs) ++ bs)

-- `binary.LittleEndian.PutUint32`
unfoldable pub put_uint32 : ℕ → List ℕ
put_uint32 n = n % 256 ∷ n / 256 % 256 ∷ n / 65536 % 256 ∷ n / 16777216 % 256 ∷ []

-- the number that four bytes of that order are
unfoldable pub uint32 : List ℕ → ℕ
uint32 [] = 0
uint32 (b ∷ bs) = b + 256 * uint32 bs

value_from-append :
    (bs cs : List ℕ) (n : ℕ) → value_from n (bs ++ cs) ≡ value_from (value_from n bs) cs
unfolding value_from
value_from-append [] cs n = refl
value_from-append (b ∷ bs) cs n = value_from-append bs cs (n * 256 + b)

value_from-bytes_from : (fuel n : ℕ) → n ≤ fuel → value_from 0 (bytes_from fuel n) ≡ n
unfolding value_from bytes_from
value_from-bytes_from zero n h = omega arith
value_from-bytes_from (suc fuel) n h = elim (Bool-cases (n == 0)) [
  | inl e ↦ rw (bytes_from, e) (ground (arith, e))
  | inr e ↦
      let small : n / 256 ≤ fuel = ground (arith, e) in
      rw (bytes_from, e, value_from-append (bytes_from fuel (n / 256)) ((n % 256) ∷ []) 0)
        (rw (value_from-bytes_from fuel (n / 256) small) (omega arith))
]

pub set_bytes-bytes : (n : ℕ) → set_bytes (bytes n) ≡ n
unfolding set_bytes bytes
set_bytes-bytes n = value_from-bytes_from n n (omega arith)

value_from-zeros : (k : ℕ) (bs : List ℕ) → value_from 0 (zeros k ++ bs) ≡ value_from 0 bs
unfolding value_from zeros
value_from-zeros zero bs = refl
value_from-zeros (suc k) bs = value_from-zeros k bs

length-zeros : (k : ℕ) → length (zeros k) ≡ k
unfolding zeros
length-zeros zero = omega arith
length-zeros (suc k) = omega (arith, length-zeros k)

-- a number below 256^size has at most size bytes
length-bytes_from : (size fuel n : ℕ) → n < 256 ^ size → length (bytes_from fuel n) ≤ size
unfolding bytes_from
length-bytes_from size zero n h = omega arith
length-bytes_from zero (suc fuel) n h = let e : n ≡ 0 = omega arith in rw e (omega arith)
length-bytes_from (suc size) (suc fuel) n h = elim (Bool-cases (n == 0)) [
  | inl e ↦ rw (bytes_from, e) (omega arith)
  | inr e ↦
      let small : n / 256 < 256 ^ size = omega arith in
      rw (bytes_from, e)
        (omega (
          arith,
          length-append {0} (bytes_from fuel (n / 256)) ((n % 256) ∷ []),
          length-bytes_from size fuel (n / 256) small,
        ))
]

-- A number below 256^size fits a buffer of that size, and is read from it again.
pub pad-bytes :
    (size n : ℕ)
    → n < 256 ^ size
    → (bs : List ℕ) × (pad size (bytes n) ≡ some bs) × (length bs ≡ size) × (set_bytes bs ≡ n)
unfolding pad bytes set_bytes
pad-bytes size n h =
    let short = length-bytes_from size n n h in
    (
      zeros (size - length (bytes_from n n)) ++ bytes_from n n,
      ground (arith, short),
      omega (
        arith,
        short,
        length-append {0} (zeros (size - length (bytes_from n n))) (bytes_from n n),
        length-zeros (size - length (bytes_from n n)),
      ),
      value_from-zeros (size - length (bytes_from n n)) (bytes_from n n)
          ∙ value_from-bytes_from n n (omega arith),
    )

pub uint32-put_uint32 : (n : ℕ) → n < 2 ^ 32 → uint32 (put_uint32 n) ≡ n
unfolding uint32 put_uint32
uint32-put_uint32 n h = omega arith
