-- ===== src/Escape/Data/InPlace.antt =====
-- `nl_escape_data` works inside one buffer and gives what a pass into a second one would give.
use Prim.Native.Nat.{max}
use native.Mathlib.Nat.{add-zero, zero-add}
use nlutils.Prelude.{
  ℕ, zero, suc, ◌+◌, ◌-◌, ◌<◌, ◌≤◌, ◌≡◌, refl, sym, ap, ◌∙◌, Bool, true, false, some, [], ◌∷◌, ltb,
  ◌==◌, if◌then◌else◌, ◌++◌, append-nil, arith, length, length-append, Bool-cases, inl, inr,
}
use nlutils.Ctype.{Bytes}
use nlutils.Escape.Data.{
  in_table, unprintable, Mem, count_data_loop, nl_count_data_escapes, emit, escape_data_loop,
  DataBuffer, fill, escape_buffer, DataArgs, args_of, nl_escape_data,
}
use nlutils.Escape.Data.Spec.{
  prefix, hide, escaped_data, escaped_data-prefix, length-prefix, prefix-same, length-hide,
  length-escaped_data,
}
use nlutils.Escape.Data.Round.{Written, emit-hide, update, poke-update, prefix_one}

-- From `src` bytes on, with `length t` as the end to write before, the loop leaves `t`, and nothing
-- beyond its end changes. No write leaves the buffer.
abbrev pub LoopLeaves : (src size : ℕ) → Mem → Bytes → Type 0
LoopLeaves src size mem t =
    (mem' : Mem) × (escape_data_loop src size (length t) mem ≡ some mem')
    × (prefix mem' (length t) ≡ t)
    × ((j : ℕ) → length t ≤ j → mem' j ≡ mem j)

module _ (src size : ℕ) (mem mem₁ mem₂ : Mem) (t : Bytes) where
  -- One round at the last byte, and the loop over those before it.
  loop_round :
      emit size (mem src) (length t + length (hide (mem src))) mem ≡ some (length t, mem₁)
      → Written (hide (mem src)) (length t) mem mem₁
      → escape_data_loop src size (length t) mem₁ ≡ some mem₂
      → prefix mem₂ (length t) ≡ t
      → ((j : ℕ) → length t ≤ j → mem₂ j ≡ mem₁ j)
      → LoopLeaves (suc src) size mem (t ++ hide (mem src))
  unfolding escape_data_loop
  loop_round e w e' p same = rw (length-append t (hide (mem src))) (
    mem₂,
    ground (arith, length-hide (mem src), e, e'),
    w.at mem₂ (λ j h _. same j h) ∙ rw p,
    λ j h. same j (omega arith) ∙ w.above j h,
  )

escape_data_loop-escaped :
    (src size : ℕ) (mem : Mem)
    → length (escaped_data (prefix mem src)) ≤ size
    → LoopLeaves src size mem (escaped_data (prefix mem src))
escape_data_loop-escaped zero size mem h = (
  mem,
  unfold prefix escaped_data escape_data_loop in refl,
  unfold prefix escaped_data in refl,
  λ j _. refl,
)
escape_data_loop-escaped (suc src) size mem h =
    let c = mem src in
    let t = escaped_data (prefix mem src) in
    let split : escaped_data (prefix mem (suc src)) ≡ t ++ hide c = escaped_data-prefix mem src in
    let room : length t + length (hide c) ≤ size =
      omega (arith, h, ap length split, length-append t (hide c)) in
    let (mem₁, e, w) = emit-hide size c (length t) mem room in
    let front : prefix mem₁ src ≡ prefix mem src = prefix-same mem mem₁ src (λ j l.
      w.below j (omega (arith, length-escaped_data (prefix mem src), length-prefix mem src))) in
    let rest : LoopLeaves src size mem₁ t =
      rw front at (escape_data_loop-escaped src size mem₁ (rw front (omega (arith, room)))) in
    let (mem₂, e', p, same) = rest in rw split (loop_round src size mem mem₁ mem₂ t e w e' p same)

unfoldable pub weight : ℕ → ℕ
weight c = if in_table c then 1 else if unprintable c then 3 else 0

pub length-hide-weight : (c : ℕ) → length (hide c) ≡ 1 + weight c
unfolding hide weight
length-hide-weight c = ground arith

count_data_loop-suc :
    (n i : ℕ) (mem : Mem) (k : ℕ)
    → count_data_loop (suc n) i mem k ≡ count_data_loop n i mem k + weight (mem (i + n))
unfolding count_data_loop weight
count_data_loop-suc zero i mem k = rw add-zero (ground arith)
count_data_loop-suc (suc n) i mem k =
    let e : i + 1 + n ≡ i + suc n = omega arith in
    rw e at (
      count_data_loop-suc n (i + 1) mem
        (if in_table (mem i) then k + 1 else if unprintable (mem i) then k + 3 else k))

count_data_loop-last :
    (n : ℕ) (mem : Mem)
    → count_data_loop (suc n) 0 mem 0 ≡ count_data_loop n 0 mem 0 + weight (mem n)
count_data_loop-last n mem =
    let e : 0 + n ≡ n = zero-add n in rw e at (count_data_loop-suc n 0 mem 0)

-- `nl_count_data_escapes` is the number of bytes that escaping adds.
pub length-escaped_data-count :
    (mem : Mem) (n : ℕ) → length (escaped_data (prefix mem n)) ≡ n + nl_count_data_escapes mem n
unfolding nl_count_data_escapes
length-escaped_data-count mem zero = unfold prefix escaped_data count_data_loop in refl
length-escaped_data-count mem (suc n) =
    rw (escaped_data-prefix mem n, length-append)
      (omega (
        arith,
        length-escaped_data-count mem n,
        length-hide-weight (mem n),
        count_data_loop-last n mem,
      ))

hide_one : (c : ℕ) → length (hide c) ≡ 1 → hide c ≡ c ∷ []
unfolding hide
hide_one c h = ground arith

-- Where nothing is to be escaped, the escaped form is the data itself.
escaped_data_same : (d : Bytes) → length (escaped_data d) ≡ length d → escaped_data d ≡ d
unfolding escaped_data
escaped_data_same [] h = refl
escaped_data_same (c ∷ d) h =
    let sizes : length (hide c) + length (escaped_data d) ≡ length (c ∷ d) =
      sym (length-append (hide c) (escaped_data d)) ∙ h in
    rw (
      hide_one c (omega (arith, sizes, length-hide c, length-escaped_data d)),
      escaped_data_same d (omega (arith, sizes, length-hide c, length-escaped_data d)),
    )

abbrev terminated : Bool → Bytes → Bytes
terminated add_null t = t ++ (if add_null then 0 ∷ [] else [])

-- The data with its final zero byte or without, and what `fill` makes of it.
abbrev Filled : Bool → DataBuffer → Bytes → Type 0
Filled add_null b t =
    (mem' : Mem) × (fill add_null (length t) b
      ≡ some (true, record b { mem = mem'; data_size = length t }))
    × (prefix mem' (length t) ≡ t)

module _ (b : DataBuffer) (t : Bytes) (mem₂ : Mem) where
  fill_null :
      length t < b.buf_size
      → escape_data_loop b.data_size b.buf_size (length t) (update b.mem (length t) 0) ≡ some mem₂
      → prefix mem₂ (length t) ≡ t
      → ((j : ℕ) → length t ≤ j → mem₂ j ≡ update b.mem (length t) 0 j)
      → Filled true b (t ++ 0 ∷ [])
  unfolding fill
  fill_null h e p same =
      let back : length t + 1 - 1 ≡ length t = omega arith in
      let last : mem₂ (length t) ≡ 0 = same (length t) (omega arith) ∙ ground arith in
      rw (length-append t (0 ∷ [])) (
        mem₂,
        rw (
          poke-update b.buf_size (length t + 1) 1 0 (length t) b.mem (omega arith) refl h,
          back,
          e,
        ),
        prefix_one mem₂ (length t) ∙ rw (p, last),
      )

  fill_bare :
      escape_data_loop b.data_size b.buf_size (length t) b.mem ≡ some mem₂
      → prefix mem₂ (length t) ≡ t
      → Filled false b (t ++ [])
  unfolding fill
  fill_bare e p = rw append-nil (mem₂, rw e, p)

fill-terminated :
    (add_null : Bool) (b : DataBuffer)
    → length (terminated add_null (escaped_data (prefix b.mem b.data_size))) ≤ b.buf_size
    → Filled add_null b (terminated add_null (escaped_data (prefix b.mem b.data_size)))
fill-terminated true b h =
    let t = escaped_data (prefix b.mem b.data_size) in
    let mem₁ = update b.mem (length t) 0 in
    let room : length t < b.buf_size = omega (arith, h, length-append t (0 ∷ [])) in
    let front : prefix mem₁ b.data_size ≡ prefix b.mem b.data_size =
      prefix-same b.mem mem₁ b.data_size (λ j l.
        ground (
          arith,
          length-escaped_data (prefix b.mem b.data_size),
          length-prefix b.mem b.data_size,
        )) in
    let rest : LoopLeaves b.data_size b.buf_size mem₁ t =
      rw front at
        (escape_data_loop-escaped b.data_size b.buf_size mem₁ (rw front (omega (arith, room)))) in
    let (mem₂, e, p, same) = rest in fill_null b t mem₂ room e p same
fill-terminated false b h =
    let (mem₂, e, p, same) =
      escape_data_loop-escaped b.data_size b.buf_size b.mem (rw append-nil at h) in
    fill_bare b (escaped_data (prefix b.mem b.data_size)) mem₂ e p

new_size-terminated :
    (add_null : Bool) (b : DataBuffer)
    → b.data_size + (if add_null then 1 else 0) + nl_count_data_escapes b.mem b.data_size
      ≡ length (terminated add_null (escaped_data (prefix b.mem b.data_size)))
new_size-terminated true b = omega (
  arith,
  length-append (escaped_data (prefix b.mem b.data_size)) (0 ∷ []),
  length-escaped_data-count b.mem b.data_size,
)
new_size-terminated false b =
    rw append-nil (omega (arith, length-escaped_data-count b.mem b.data_size))

-- The branch with nothing to do.
terminated_same :
    (add_null : Bool) (b : DataBuffer)
    → length (terminated add_null (escaped_data (prefix b.mem b.data_size))) ≡ b.data_size
    → terminated add_null (escaped_data (prefix b.mem b.data_size)) ≡ prefix b.mem b.data_size
terminated_same true b h = absurd (
    omega (
      arith,
      h,
      length-append (escaped_data (prefix b.mem b.data_size)) (0 ∷ []),
      length-escaped_data-count b.mem b.data_size,
    ))
terminated_same false b h =
    append-nil (escaped_data (prefix b.mem b.data_size))
    ∙ escaped_data_same (prefix b.mem b.data_size)
        (rw append-nil at h ∙ sym (length-prefix b.mem b.data_size))

escape_buffer-terminated :
    (add_null : Bool) (b : DataBuffer)
    → b.data_size ≤ b.buf_size
    → (let t = terminated add_null (escaped_data (prefix b.mem b.data_size)) in
        (mem' : Mem) × (escape_buffer true add_null b
          ≡ some (
            true,
            record { mem = mem'; data_size = length t; buf_size = max b.buf_size (length t) },
          ))
        × (prefix mem' (length t) ≡ t))
unfolding escape_buffer
escape_buffer-terminated add_null b h =
    let t = terminated add_null (escaped_data (prefix b.mem b.data_size)) in
    rw (new_size-terminated add_null b) (elim (Bool-cases (length t == b.data_size)) [
      | inl e ↦
          let n : length t ≡ b.data_size = ground arith in
          (b.mem, rw e (ground arith), rw n (sym (terminated_same add_null b n)))
      | inr e ↦ elim (Bool-cases (ltb b.buf_size (length t))) [
        | inl small ↦
            let (mem', filled, p) =
              fill-terminated add_null (record b { buf_size = length t }) (omega arith) in
            (mem', rw (e, small, filled) (ground arith), p)
        | inr large ↦
            let (mem', filled, p) = fill-terminated add_null b (ground arith) in
            (mem', rw (e, large, filled) (ground arith), p)
      ]
    ])

-- With NULL nowhere, two size variables and enough memory, `nl_escape_data` leaves the escaped form of
-- the data, with a zero byte behind it if asked for. It sets both sizes, enlarges the buffer only if
-- it was too small, and never writes outside of it. The data fits its buffer.
pub nl_escape_data-escaped :
    (add_null : Bool) (b : DataBuffer)
    → b.data_size ≤ b.buf_size
    → (let t = escaped_data (prefix b.mem b.data_size) ++ (if add_null then 0 ∷ [] else []) in
        (mem' : Mem) × (nl_escape_data true false add_null (args_of b)
          ≡ some (
            true,
            args_of
                (record { mem = mem'; data_size = length t; buf_size = max b.buf_size (length t) }),
          ))
        × (prefix mem' (length t) ≡ t))
unfolding nl_escape_data
nl_escape_data-escaped add_null b h =
    let (mem', e, p) = escape_buffer-terminated add_null b h in (mem', rw e, p)

-- When `nl_escape_data` returns -1, nothing has changed: not the data, and neither size.
pub nl_escape_data-fails :
    (realloc_ok same_place add_null : Bool) (a a' : DataArgs)
    → nl_escape_data realloc_ok same_place add_null a ≡ some (false, a')
    → a' ≡ a
unfolding nl_escape_data escape_buffer fill
nl_escape_data-fails r s n a a' h = ground arith
