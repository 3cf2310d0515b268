-- ===== src/Base/Buffer.antt =====
-- A byte buffer of fixed length, read and written in place: `buf[at..at + n]`, `copy_from_slice`,
-- `fill(0)` and `copy_within`. The source panics on a range past the end; here a write past the
-- end is cut, and the theorems that use it keep to the buffer.
use Prim.Native.Nat.{ℕ, zero, suc, ◌+◌, ◌≤◌, ◌<◌}
use mathlib.Core.Path.{◌≡◌, refl, ap, ◌∙◌}
use mathlib.Core.List.{[], ◌∷◌}
use native.Mathlib.Omega.{arith}
use trunkdb.Base.ByteString.{Bytes, to_le, from_le, length-to_le, from_le-to_le}
use trunkdb.Base.Lists.{get_or, length, take, replicate}

unfoldable pub slice : Bytes → ℕ → ℕ → Bytes
slice buf zero n = take n buf
slice [] (suc at) n = []
slice (b ∷ buf) (suc at) n = slice buf at n

unfoldable pub splice : Bytes → ℕ → Bytes → Bytes
splice [] at bytes = []
splice (b ∷ buf) zero [] = b ∷ buf
splice (b ∷ buf) zero (c ∷ bytes) = c ∷ splice buf zero bytes
splice (b ∷ buf) (suc at) bytes = b ∷ splice buf at bytes

-- `buf[at..at + n].fill(0)`
unfoldable pub clear_range : Bytes → ℕ → ℕ → Bytes
clear_range buf at n = splice buf at (replicate n 0)

-- `buf.copy_within(from..from + n, to)`
unfoldable pub copy_within : Bytes → ℕ → ℕ → ℕ → Bytes
copy_within buf from n to = splice buf to (slice buf from n)

unfoldable pub get_u16 : Bytes → ℕ → ℕ
get_u16 buf at = from_le (slice buf at 2)

unfoldable pub set_u16 : Bytes → ℕ → ℕ → Bytes
set_u16 buf at v = splice buf at (to_le 2 v)

pub length-splice :
    (buf : Bytes) (at : ℕ) (bytes : Bytes) → length (splice buf at bytes) ≡ length buf
unfolding splice
length-splice [] at bytes = refl
length-splice (b ∷ buf) zero [] = refl
length-splice (b ∷ buf) zero (c ∷ bytes) = ap suc (length-splice buf zero bytes)
length-splice (b ∷ buf) (suc at) bytes = ap suc (length-splice buf at bytes)

pub length-slice : (buf : Bytes) (at n : ℕ) → at + n ≤ length buf → length (slice buf at n) ≡ n
unfolding slice
length-slice buf zero zero h = refl
length-slice [] zero (suc n) h = absurd (omega arith)
length-slice (b ∷ buf) zero (suc n) h = ap suc (length-slice buf zero n (omega arith))
length-slice [] (suc at) n h = absurd (omega arith)
length-slice (b ∷ buf) (suc at) n h = length-slice buf at n (omega arith)

-- What was written is read back.
pub slice-splice_self :
    (buf : Bytes) (at : ℕ) (bytes : Bytes)
    → at + length bytes ≤ length buf
    → slice (splice buf at bytes) at (length bytes) ≡ bytes
unfolding slice splice
slice-splice_self [] zero [] h = refl
slice-splice_self [] zero (c ∷ bytes) h = absurd (omega arith)
slice-splice_self [] (suc at) bytes h = absurd (omega arith)
slice-splice_self (b ∷ buf) zero [] h = refl
slice-splice_self (b ∷ buf) zero (c ∷ bytes) h =
    ap (◌∷◌ c) (slice-splice_self buf zero bytes (omega arith))
slice-splice_self (b ∷ buf) (suc at) bytes h = slice-splice_self buf at bytes (omega arith)

-- A range before the bytes written stays as it was.
pub slice-splice_before :
    (buf : Bytes) (at : ℕ) (bytes : Bytes) (i n : ℕ)
    → i + n ≤ at
    → slice (splice buf at bytes) i n ≡ slice buf i n
unfolding slice splice
slice-splice_before [] at bytes i n h = refl
slice-splice_before (b ∷ buf) at bytes zero zero h = refl
slice-splice_before (b ∷ buf) zero bytes zero (suc n) h = absurd (omega arith)
slice-splice_before (b ∷ buf) (suc at) bytes zero (suc n) h =
    ap (◌∷◌ b) (slice-splice_before buf at bytes zero n (omega arith))
slice-splice_before (b ∷ buf) zero bytes (suc i) n h = absurd (omega arith)
slice-splice_before (b ∷ buf) (suc at) bytes (suc i) n h =
    slice-splice_before buf at bytes i n (omega arith)

-- And so does one behind them.
pub slice-splice_after :
    (buf : Bytes) (at : ℕ) (bytes : Bytes) (i n : ℕ)
    → at + length bytes ≤ i
    → slice (splice buf at bytes) i n ≡ slice buf i n
unfolding slice splice
slice-splice_after [] at bytes i n h = refl
slice-splice_after (b ∷ buf) zero [] i n h = refl
slice-splice_after (b ∷ buf) zero (c ∷ bytes) zero n h = absurd (omega arith)
slice-splice_after (b ∷ buf) zero (c ∷ bytes) (suc i) n h =
    slice-splice_after buf zero bytes i n (omega arith)
slice-splice_after (b ∷ buf) (suc at) bytes zero n h = absurd (omega arith)
slice-splice_after (b ∷ buf) (suc at) bytes (suc i) n h =
    slice-splice_after buf at bytes i n (omega arith)

pub get_u16-set_self :
    (buf : Bytes) (at v : ℕ) → at + 2 ≤ length buf → v < 65536 → get_u16 (set_u16 buf at v) at ≡ v
unfolding get_u16 set_u16
get_u16-set_self buf at v h k =
    let size = length-to_le 2 v in
    let written : slice (splice buf at (to_le 2 v)) at 2 ≡ to_le 2 v =
      rw size at (slice-splice_self buf at (to_le 2 v) (omega (arith, size))) in
    ap from_le written ∙ from_le-to_le 2 v (omega arith)

pub get_u16-splice_before :
    (buf : Bytes) (at : ℕ) (bytes : Bytes) (i : ℕ)
    → i + 2 ≤ at
    → get_u16 (splice buf at bytes) i ≡ get_u16 buf i
unfolding get_u16
get_u16-splice_before buf at bytes i h = ap from_le (slice-splice_before buf at bytes i 2 h)

pub get_u16-splice_after :
    (buf : Bytes) (at : ℕ) (bytes : Bytes) (i : ℕ)
    → at + length bytes ≤ i
    → get_u16 (splice buf at bytes) i ≡ get_u16 buf i
unfolding get_u16
get_u16-splice_after buf at bytes i h = ap from_le (slice-splice_after buf at bytes i 2 h)

pub get_u16-set_before :
    (buf : Bytes) (at v i : ℕ) → i + 2 ≤ at → get_u16 (set_u16 buf at v) i ≡ get_u16 buf i
unfolding set_u16
get_u16-set_before buf at v i h = get_u16-splice_before buf at (to_le 2 v) i h

pub get_u16-set_after :
    (buf : Bytes) (at v i : ℕ) → at + 2 ≤ i → get_u16 (set_u16 buf at v) i ≡ get_u16 buf i
unfolding set_u16
get_u16-set_after buf at v i h =
    get_u16-splice_after buf at (to_le 2 v) i (omega (arith, length-to_le 2 v))

pub length-set_u16 : (buf : Bytes) (at v : ℕ) → length (set_u16 buf at v) ≡ length buf
unfolding set_u16
length-set_u16 buf at v = length-splice buf at (to_le 2 v)

pub slice-set_before :
    (buf : Bytes) (at v i n : ℕ) → i + n ≤ at → slice (set_u16 buf at v) i n ≡ slice buf i n
unfolding set_u16
slice-set_before buf at v i n h = slice-splice_before buf at (to_le 2 v) i n h

pub slice-set_after :
    (buf : Bytes) (at v i n : ℕ) → at + 2 ≤ i → slice (set_u16 buf at v) i n ≡ slice buf i n
unfolding set_u16
slice-set_after buf at v i n h =
    slice-splice_after buf at (to_le 2 v) i n (omega (arith, length-to_le 2 v))

-- The first byte, where something behind it is written.
pub get_or-splice :
    (buf : Bytes) (at : ℕ) (bytes : Bytes)
    → 0 < at
    → get_or (splice buf at bytes) 0 0 ≡ get_or buf 0 0
unfolding splice
get_or-splice [] at bytes h = refl
get_or-splice (b ∷ buf) zero bytes h = absurd (omega arith)
get_or-splice (b ∷ buf) (suc at) bytes h = refl
