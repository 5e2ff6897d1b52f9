-- ===== src/Base/Bytes.antt =====
-- Memory as a list of bytes: `memcpy`, and the 4-byte and 8-byte words that the code reads through a
-- cast pointer (little-endian).
use Prim.Native.Nat.{ℕ, zero, suc, ◌+◌, ◌*◌, ◌/◌, ◌%◌, ◌≤◌, ◌<◌}
use mathlib.Core.Path.{◌≡◌, refl, ap, ◌∙◌}
use mathlib.Core.List.{List, [], ◌∷◌}
use native.Mathlib.Omega.{arith}
use mosito.Base.Lists.{length, take, drop, length-take, length-drop}

-- `memcpy(mem + off, bs, |bs|)`. What would fall behind the end of the memory is not written.
unfoldable pub write_bytes : List ℕ → ℕ → List ℕ → List ℕ
write_bytes [] off bs = []
write_bytes (m ∷ ms) zero [] = m ∷ ms
write_bytes (m ∷ ms) zero (b ∷ bs) = b ∷ write_bytes ms zero bs
write_bytes (m ∷ ms) (suc off) bs = m ∷ write_bytes ms off bs

unfoldable pub read_bytes : List ℕ → ℕ → ℕ → List ℕ
read_bytes mem off n = take n (drop off mem)

pub length-write_bytes :
    (mem : List ℕ) (off : ℕ) (bs : List ℕ) → length (write_bytes mem off bs) ≡ length mem
unfolding write_bytes
length-write_bytes [] off bs = refl
length-write_bytes (m ∷ ms) zero [] = refl
length-write_bytes (m ∷ ms) zero (b ∷ bs) = ap suc (length-write_bytes ms zero bs)
length-write_bytes (m ∷ ms) (suc off) bs = ap suc (length-write_bytes ms off bs)

pub read-write_self :
    (mem : List ℕ) (off : ℕ) (bs : List ℕ)
    → off + length bs ≤ length mem
    → read_bytes (write_bytes mem off bs) off (length bs) ≡ bs
unfolding write_bytes read_bytes
read-write_self [] zero [] h = refl
read-write_self [] zero (b ∷ bs) h = absurd (omega arith)
read-write_self [] (suc off) [] h = absurd (omega arith)
read-write_self [] (suc off) (b ∷ bs) h = absurd (omega arith)
read-write_self (m ∷ ms) zero [] h = refl
read-write_self (m ∷ ms) zero (b ∷ bs) h = ap (◌∷◌ b) (read-write_self ms zero bs (omega arith))
read-write_self (m ∷ ms) (suc off) bs h = read-write_self ms off bs (omega arith)

-- A read that ends before the write.
pub read-write_before :
    (mem : List ℕ) (off : ℕ) (bs : List ℕ) (o n : ℕ)
    → o + n ≤ off
    → read_bytes (write_bytes mem off bs) o n ≡ read_bytes mem o n
unfolding write_bytes read_bytes
read-write_before [] off bs o n h = refl
read-write_before (m ∷ ms) zero [] o n h = refl
read-write_before (m ∷ ms) zero (b ∷ bs) zero zero h = refl
read-write_before (m ∷ ms) zero (b ∷ bs) zero (suc n) h = absurd (omega arith)
read-write_before (m ∷ ms) zero (b ∷ bs) (suc o) n h = absurd (omega arith)
read-write_before (m ∷ ms) (suc off) bs zero zero h = refl
read-write_before (m ∷ ms) (suc off) bs zero (suc n) h =
    ap (◌∷◌ m) (read-write_before ms off bs zero n (omega arith))
read-write_before (m ∷ ms) (suc off) bs (suc o) n h = read-write_before ms off bs o n (omega arith)

-- A read that begins after the write.
pub read-write_after :
    (mem : List ℕ) (off : ℕ) (bs : List ℕ) (o n : ℕ)
    → off + length bs ≤ o
    → read_bytes (write_bytes mem off bs) o n ≡ read_bytes mem o n
unfolding write_bytes read_bytes
read-write_after [] off bs o n h = refl
read-write_after (m ∷ ms) zero [] o n h = refl
read-write_after (m ∷ ms) zero (b ∷ bs) zero n h = absurd (omega arith)
read-write_after (m ∷ ms) zero (b ∷ bs) (suc o) n h = read-write_after ms zero bs o n (omega arith)
read-write_after (m ∷ ms) (suc off) bs zero n h = absurd (omega arith)
read-write_after (m ∷ ms) (suc off) bs (suc o) n h = read-write_after ms off bs o n (omega arith)

-- The bytes of a word of `w` bytes, and back.
unfoldable pub to_bytes : ℕ → ℕ → List ℕ
to_bytes zero x = []
to_bytes (suc w) x = x % 256 ∷ to_bytes w (x / 256)

unfoldable pub of_bytes : List ℕ → ℕ
of_bytes [] = 0
of_bytes (b ∷ bs) = b + 256 * of_bytes bs

pub length-to_bytes : (w x : ℕ) → length (to_bytes w x) ≡ w
unfolding to_bytes
length-to_bytes zero x = refl
length-to_bytes (suc w) x = ap suc (length-to_bytes w (x / 256))

-- `*(unsigned *)(mem + off)` and `*(unsigned long *)(mem + off)`. An `int` is its bit pattern.
unfoldable pub get_u32 : List ℕ → ℕ → ℕ
unfolding of_bytes read_bytes
get_u32 mem off = of_bytes (read_bytes mem off 4)

unfoldable pub get_u64 : List ℕ → ℕ → ℕ
unfolding of_bytes read_bytes
get_u64 mem off = of_bytes (read_bytes mem off 8)

unfoldable pub set_u32 : List ℕ → ℕ → ℕ → List ℕ
unfolding write_bytes to_bytes
set_u32 mem off x = write_bytes mem off (to_bytes 4 x)

of_bytes-to_bytes_u32 : (x : ℕ) → x < 4294967296 → of_bytes (to_bytes 4 x) ≡ x
unfolding of_bytes to_bytes
of_bytes-to_bytes_u32 x h = omega arith

pub get_u32-set_u32 :
    (mem : List ℕ) (off x : ℕ)
    → off + 4 ≤ length mem
    → x < 4294967296
    → get_u32 (set_u32 mem off x) off ≡ x
unfolding get_u32 set_u32
get_u32-set_u32 mem off x h hx =
    ap of_bytes (read-write_self mem off (to_bytes 4 x) h) ∙ of_bytes-to_bytes_u32 x hx

pub length-set_u32 : (mem : List ℕ) (off x : ℕ) → length (set_u32 mem off x) ≡ length mem
unfolding set_u32
length-set_u32 mem off x = length-write_bytes mem off (to_bytes 4 x)

pub read-set_u32_before :
    (mem : List ℕ) (off x o n : ℕ)
    → o + n ≤ off
    → read_bytes (set_u32 mem off x) o n ≡ read_bytes mem o n
unfolding set_u32
read-set_u32_before mem off x o n h = read-write_before mem off (to_bytes 4 x) o n h

pub length-read_bytes :
    (mem : List ℕ) (o n : ℕ) → o + n ≤ length mem → length (read_bytes mem o n) ≡ n
unfolding read_bytes
length-read_bytes mem o n h = omega (arith, length-take n (drop o mem), length-drop o mem)
