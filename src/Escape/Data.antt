-- ===== src/Escape/Data.antt =====
-- `nl_count_data_escapes` and `nl_escape_data` of src/escape.c: escaping of raw data inside its buffer,
-- from the end to the start.
pub mod InPlace
pub mod RoundTrip
pub mod Round
pub mod Spec
use nlutils.Prelude.{
  ℕ, zero, suc, ◌+◌, ◌-◌, ◌/◌, ◌%◌, Bool, true, false, ◌&&◌, ◌||◌, not, Option, none, some, List,
  [], ◌∷◌, ltb, leb, ◌==◌, if◌then◌else◌,
}
use nlutils.Ctype.{Bytes, hex_digit}
use nlutils.Escape.Table.{escape_char, get_escape}

-- The tests of the loops, in their order: a character of the table but `:`, then an unprintable one.
unfoldable pub in_table : ℕ → Bool
in_table c = not (c == b':') && not (get_escape c == 0)

unfoldable pub unprintable : ℕ → Bool
unprintable c = ltb c 0x20 || ltb 0x7e c || c == escape_char

-- The bytes of the data buffer.
abbrev pub Mem : Type 0
Mem = ℕ → ℕ

-- `for(i = 0; i < data_size; i++)`, with `rounds` left
unfoldable pub count_data_loop : (rounds i : ℕ) → Mem → ℕ → ℕ
count_data_loop zero i mem count = count
count_data_loop (suc rounds) i mem count =
    count_data_loop rounds (i + 1) mem
      (if in_table (mem i) then count + 1 else if unprintable (mem i) then count + 3 else count)

unfoldable pub nl_count_data_escapes : Mem → ℕ → ℕ
unfolding count_data_loop
nl_count_data_escapes mem data_size = count_data_loop data_size 0 mem 0

-- `end[-back] = v` in a buffer of `size` bytes; `none` is a write outside of it.
unfoldable pub poke : (size end back v : ℕ) → Mem → Option Mem
poke size end back v mem =
    if ltb 0 back && leb back end && ltb (end - back) size
    then some (λ i. if i == end - back then v else mem i)
    else none

infixl 5 ◌>>=◌
abbrev pub ◌>>=◌ {ℓ κ} : {A : Type ℓ} {B : Type κ} → Option A → (A → Option B) → Option B
none >>= f = none
some a >>= f = f a

-- One round: the byte `c` is written before `end`, which is `dst + 1`. The four bytes of a
-- hexadecimal escape come from `snprintf` and go to `dst - 3`.
unfoldable pub emit : (size c end : ℕ) → Mem → Option (ℕ × Mem)
unfolding poke
emit size c end mem =
    if in_table c
    then (do
      mem ← poke size end 1 (get_escape c) mem
      mem ← poke size end 2 escape_char mem
      some (end - 2, mem))
    else if unprintable c
    then (do
      mem ← poke size end 4 escape_char mem
      mem ← poke size end 3 b'x' mem
      mem ← poke size end 2 (hex_digit (c / 16)) mem
      mem ← poke size end 1 (hex_digit (c % 16)) mem
      some (end - 4, mem))
    else (do mem ← poke size end 1 c mem; some (end - 1, mem))

-- `while(dst >= *data && src >= *data)`: the first argument is `src + 1`, `end` is `dst + 1`.
unfoldable pub escape_data_loop : ℕ → (size end : ℕ) → Mem → Option Mem
escape_data_loop zero size end mem = some mem
escape_data_loop (suc src) size end mem =
    if end == 0
    then some mem
    else (do (end, mem) ← emit size (mem src) end mem; escape_data_loop src size end mem)

-- `*data`, `*data_size` and `*buf_size`.
pub record DataBuffer : Type 0 where
  pub mem : Mem
  pub data_size : ℕ
  pub buf_size : ℕ

-- The final zero byte, then the loop.
unfoldable pub fill : Bool → (new_size : ℕ) → DataBuffer → Option (Bool × DataBuffer)
fill add_null new_size b =
    if add_null
    then (do
      mem ← poke b.buf_size new_size 1 0 b.mem
      mem ← escape_data_loop b.data_size b.buf_size (new_size - 1) mem
      some (true, record b { mem = mem; data_size = new_size }))
    else (do
      mem ← escape_data_loop b.data_size b.buf_size new_size b.mem
      some (true, record b { mem = mem; data_size = new_size }))

-- With parameters that are not NULL. The result is the return value (`true` for 0, `false` for -1)
-- and the buffer; `none` is a write outside of the buffer.
unfoldable pub escape_buffer :
    (realloc_ok add_null : Bool) → DataBuffer → Option (Bool × DataBuffer)
escape_buffer realloc_ok add_null b =
    let new_size =
      b.data_size + (if add_null then 1 else 0) + nl_count_data_escapes b.mem b.data_size in
    if new_size == b.data_size
    then some (true, b)
    else if ltb b.buf_size new_size
    then if realloc_ok
      then fill add_null new_size (record b { buf_size = new_size })
      else some (false, b)
    else fill add_null new_size b

-- What stands at the three pointers; `none` is a NULL pointer.
pub record DataArgs : Type 0 where
  pub data_at : Option Mem
  pub data_size_at : Option ℕ
  pub buf_size_at : Option ℕ

abbrev pub args_of : DataBuffer → DataArgs
args_of b = record {
  data_at = some b.mem;
  data_size_at = some b.data_size;
  buf_size_at = some b.buf_size;
}

abbrev pub with_args :
    DataArgs
    → Option Mem
    → Option ℕ
    → Option ℕ
    → (DataBuffer → Option (Bool × DataBuffer))
    → Option (Bool × DataArgs)
with_args a (some mem) (some data_size) (some buf_size) f = do
  (done, b) ← f (record { mem = mem; data_size = data_size; buf_size = buf_size })
  some (done, args_of b)
with_args a _ _ _ f = some (false, a)

-- `same_place` says that the two size pointers are one.
unfoldable pub nl_escape_data :
    (realloc_ok same_place add_null : Bool) → DataArgs → Option (Bool × DataArgs)
nl_escape_data realloc_ok same_place add_null a =
    with_args a a.data_at a.data_size_at a.buf_size_at
      λ b. if same_place then some (false, b) else escape_buffer realloc_ok add_null b
