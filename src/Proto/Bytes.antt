-- ===== src/Proto/Bytes.antt =====
-- include/mf/proto/read_be.hpp, and how the parsers read memory. A buffer is the list of its bytes. A
-- `memcpy` from a buffer is checked: `none` stands for a read outside it, which in the source has no
-- defined result. A host integer is little-endian.
use hft_feed_handler.Common.{
  length-take, length-drop, length-append, ℕ, zero, suc, ◌+◌, ◌*◌, ◌/◌, ◌%◌, ◌^◌, ◌≤◌, ◌<◌, ◌≡◌,
  refl, sym, ap, ◌∙◌, Option, none, some, List, [], ◌∷◌, ◌++◌, leb, if◌then◌else◌, length, get_or,
  set, take, drop, arith, take-drop-take, drop-drop,
}
use hft_feed_handler.Phase2.Tracker.{inc64}

abbrev pub Bytes : Type 0
Bytes = List ℕ

-- `n` bytes at an offset.
abbrev pub slice : Bytes → ℕ → ℕ → Bytes
slice bytes off n = take n (drop off bytes)

unfoldable pub read : Bytes → ℕ → ℕ → Option Bytes
read bytes off n = if leb (off + n) (length bytes) then some (slice bytes off n) else none

-- An integer loaded from memory, and the bytes that it is stored as.
unfoldable pub load_le : Bytes → ℕ
load_le [] = 0
load_le (b ∷ bs) = b + 256 * load_le bs

unfoldable pub store_le : ℕ → ℕ → Bytes
store_le zero v = []
store_le (suc n) v = v % 256 ∷ store_le n (v / 256)

unfoldable pub reversed : Bytes → Bytes
reversed [] = []
reversed (b ∷ bs) = reversed bs ++ b ∷ []

-- `__builtin_bswap16`, `32` and `64`: the value with its `n` bytes in the other order.
unfoldable pub bswap : ℕ → ℕ → ℕ
unfolding load_le store_le reversed
bswap n v = load_le (reversed (store_le n v))

-- `read_be<T>` on the bytes of a `T`.
unfoldable pub read_be : Bytes → ℕ
read_be bytes = bswap (length bytes) (load_le bytes)

-- The number that bytes spell, the highest first.
unfoldable pub value_be : ℕ → Bytes → ℕ
value_be high [] = high
value_be high (b ∷ bs) = value_be (high * 256 + b) bs

-- An array of 256 counters.
abbrev pub count : List ℕ → ℕ → List ℕ
count counts i = set counts i (inc64 (get_or counts i 0))

abbrev pub AreBytes : Bytes → Type 0
AreBytes [] = Unit {0}
AreBytes (b ∷ bs) = (b < 256) × AreBytes bs

store_le-load_le : (bs : Bytes) → AreBytes bs → store_le (length bs) (load_le bs) ≡ bs
unfolding store_le load_le
store_le-load_le [] h = refl
store_le-load_le (b ∷ bs) (lt, h) =
    let low : (b + 256 * load_le bs) % 256 ≡ b = omega arith in
    let high : (b + 256 * load_le bs) / 256 ≡ load_le bs = omega arith in
    rw (low, high) (ap (λ xs. b ∷ xs) (store_le-load_le bs h))

value_be-append :
    (high : ℕ) (xs : Bytes) (b : ℕ) → value_be high (xs ++ b ∷ []) ≡ value_be high xs * 256 + b
unfolding value_be
value_be-append high [] b = refl
value_be-append high (x ∷ xs) b = value_be-append (high * 256 + x) xs b

load_le-reversed : (bs : Bytes) → load_le bs ≡ value_be 0 (reversed bs)
unfolding load_le reversed value_be
load_le-reversed [] = refl
load_le-reversed (b ∷ bs) = omega (arith, value_be-append 0 (reversed bs) b, load_le-reversed bs)

reversed-append : (xs : Bytes) (b : ℕ) → reversed (xs ++ b ∷ []) ≡ b ∷ reversed xs
unfolding reversed
reversed-append [] b = refl
reversed-append (x ∷ xs) b = ap (λ ys. ys ++ x ∷ []) (reversed-append xs b)

reversed_twice : (bs : Bytes) → reversed (reversed bs) ≡ bs
unfolding reversed
reversed_twice [] = refl
reversed_twice (b ∷ bs) = reversed-append (reversed bs) b ∙ ap (λ xs. b ∷ xs) (reversed_twice bs)

-- On bytes, `read_be` is the number that they spell with the highest first.
pub read_be-value_be : (bs : Bytes) → AreBytes bs → read_be bs ≡ value_be 0 bs
unfolding read_be bswap
read_be-value_be bs h =
    ap (λ xs. load_le (reversed xs)) (store_le-load_le bs h)
    ∙ load_le-reversed (reversed bs)
    ∙ ap (value_be 0) (reversed_twice bs)

-- The bytes of a number, the highest first.
unfoldable pub store_be : ℕ → ℕ → Bytes
store_be n v = reversed (store_le n v)

pub load_le-store_le : (n v : ℕ) → v < 256 ^ n → load_le (store_le n v) ≡ v
unfolding load_le store_le
load_le-store_le zero v h = omega arith
load_le-store_le (suc n) v h = omega (arith, load_le-store_le n (v / 256) (omega arith))

store_le-AreBytes : (n v : ℕ) → AreBytes (store_le n v)
unfolding store_le
store_le-AreBytes zero v = tt
store_le-AreBytes (suc n) v = (omega arith, store_le-AreBytes n (v / 256))

AreBytes-append : (xs ys : Bytes) → AreBytes xs → AreBytes ys → AreBytes (xs ++ ys)
AreBytes-append [] ys h k = k
AreBytes-append (x ∷ xs) ys (lt, h) k = (lt, AreBytes-append xs ys h k)

reversed-AreBytes : (bs : Bytes) → AreBytes bs → AreBytes (reversed bs)
unfolding reversed
reversed-AreBytes [] h = tt
reversed-AreBytes (b ∷ bs) (lt, h) =
    AreBytes-append (reversed bs) (b ∷ []) (reversed-AreBytes bs h) (lt, tt)

-- `read_be` gives back a number of `n` bytes that was stored with the highest first.
pub read_be-store_be : (n v : ℕ) → v < 256 ^ n → read_be (store_be n v) ≡ v
unfolding store_be
read_be-store_be n v h =
    read_be-value_be (reversed (store_le n v)) (reversed-AreBytes _ (store_le-AreBytes n v))
    ∙ sym (load_le-reversed (store_le n v))
    ∙ load_le-store_le n v h

-- A read within the buffer gives its bytes.
pub read_within :
    (bytes : Bytes) (off n : ℕ)
    → off + n ≤ length bytes
    → read bytes off n ≡ some (slice bytes off n)
unfolding read
read_within bytes off n h = ground arith

pub length-slice :
    (bytes : Bytes) (off n : ℕ) → off + n ≤ length bytes → length (slice bytes off n) ≡ n
length-slice bytes off n h = length-take n (drop off bytes) (omega (arith, length-drop off bytes))

-- A piece of a piece.
pub slice-slice :
    (bytes : Bytes) (off k m n : ℕ)
    → m + n ≤ k
    → slice (slice bytes off k) m n ≡ slice bytes (off + m) n
slice-slice bytes off k m n h =
    take-drop-take m n k (drop off bytes) h ∙ ap (take n) (drop-drop m off bytes)

pub slice-AreBytes : (xs : Bytes) (off n : ℕ) → AreBytes xs → AreBytes (slice xs off n)
slice-AreBytes xs zero zero h = tt
slice-AreBytes [] zero (suc n) h = tt
slice-AreBytes (x ∷ xs) zero (suc n) (lt, h) = (lt, slice-AreBytes xs 0 n h)
slice-AreBytes [] (suc off) zero h = tt
slice-AreBytes [] (suc off) (suc n) h = tt
slice-AreBytes (x ∷ xs) (suc off) n (lt, h) = slice-AreBytes xs off n h

load_le-lt : (n : ℕ) (bs : Bytes) → AreBytes bs → length bs ≤ n → load_le bs < 256 ^ n
unfolding load_le
load_le-lt zero [] h le = omega arith
load_le-lt zero (b ∷ bs) h le = absurd (omega arith)
load_le-lt (suc n) [] h le = omega (arith, load_le-lt n [] tt (omega arith))
load_le-lt (suc n) (b ∷ bs) (lt, h) le = omega (arith, load_le-lt n bs h (omega arith))

length-reversed : (bs : Bytes) → length (reversed bs) ≡ length bs
unfolding reversed
length-reversed [] = refl
length-reversed (b ∷ bs) = omega (arith, length-append (reversed bs) (b ∷ []), length-reversed bs)

length-store_le : (n v : ℕ) → length (store_le n v) ≡ n
unfolding store_le
length-store_le zero v = refl
length-store_le (suc n) v = ap suc (length-store_le n (v / 256))

-- A big-endian number of at most `n` bytes.
pub read_be-lt : (n : ℕ) (bs : Bytes) → length bs ≤ n → read_be bs < 256 ^ n
unfolding read_be bswap
read_be-lt n bs le =
    load_le-lt n (reversed (store_le (length bs) (load_le bs)))
      (reversed-AreBytes _ (store_le-AreBytes (length bs) (load_le bs)))
      (omega (
        arith,
        length-reversed (store_le (length bs) (load_le bs)),
        length-store_le (length bs) (load_le bs),
        le,
      ))
