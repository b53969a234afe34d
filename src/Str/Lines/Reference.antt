-- ===== src/Str/Lines/Reference.antt =====
-- `nl_split_lines` makes the calls that the lines of the text ask for.
use native.Mathlib.Nat.{add-zero, zero-add}
use nlutils.Prelude.{
  drop-drop, drop-append, take-append, ℕ, zero, suc, ◌+◌, ◌-◌, ◌≤◌, ◌≡◌, refl, sym, ap, ◌∙◌, true,
  false, ◌&&◌, ◌||◌, some, List, [], ◌∷◌, ◌++◌, arith, ltb, ◌==◌, if◌then◌else◌, append_assoc,
  length, length-append, drop, length-drop, Bool-cases, inl, inr,
}
use nlutils.Ctype.{Bytes, byte_at}
use nlutils.Str.Lines.{
  cr, lf, Callback, Split, going, slice, deliver, split_loop, last_line, nl_split_lines, lines_from,
  feed,
}

byte_at-drop : (n i : ℕ) (d : Bytes) → byte_at (drop n d) i ≡ byte_at d (n + i)
byte_at-drop zero i d = rw zero-add
byte_at-drop (suc n) i [] = refl
byte_at-drop (suc n) i (c ∷ d) =
    let e : suc n + i ≡ suc (n + i) = omega arith in rw e (byte_at-drop n i d)

byte_at-append : (xs ys : Bytes) (i : ℕ) → byte_at (xs ++ ys) (length xs + i) ≡ byte_at ys i
byte_at-append [] ys i = rw zero-add
byte_at-append (x ∷ xs) ys i =
    let e : suc (length xs) + i ≡ suc (length xs + i) = omega arith in rw e (byte_at-append xs ys i)

-- `cur` stands in `d` from `start` to `off`, and `rest` behind it.
record At (d : Bytes) (off start : ℕ) (cur rest : Bytes) : Type 0 where
  fits : start ≤ length d
  place : off ≡ start + length cur
  text : drop start d ≡ cur ++ rest

module _ {d : Bytes} {off start : ℕ} {cur rest : Bytes} (at : At d off start cur rest) where
  At-length : length d ≡ off + length rest
  At-length =
      omega
        (arith, at.fits, at.place, length-drop start d, ap length at.text, length-append cur rest)

  At-byte : (i : ℕ) → byte_at d (off + i) ≡ byte_at rest i
  At-byte i =
      let e : off + i ≡ start + (length cur + i) = omega (arith, at.place) in
      rw e (sym (byte_at-drop start (length cur + i) d) ∙ rw at.text (byte_at-append cur rest i))

  At-slice : slice d start (off - start) ≡ cur
  At-slice =
      let e : off - start ≡ length cur = omega (arith, at.place) in
      rw (e, at.text) (take-append cur rest)

  At-drop : drop off d ≡ rest
  At-drop = rw at.place (sym (drop-drop (length cur) start d) ∙ rw at.text (drop-append cur rest))

At-inside :
    {d cur rest : Bytes} {off start c : ℕ}
    → At d off start cur (c ∷ rest)
    → ltb off (length d) ≡ true
At-inside at = ground (arith, At-length at)

At-head : {d cur rest : Bytes} {off start c : ℕ} → At d off start cur (c ∷ rest) → byte_at d off ≡ c
At-head at = rw add-zero at (At-byte at 0)

-- The byte behind the end of the line: none, or one that may belong to it.
At-last :
    {d cur : Bytes} {off start c : ℕ}
    → At d off start cur (c ∷ [])
    → (if ltb off (length d - 1) && c == cr && byte_at d (off + 1) == lf then off + 1 else off)
      ≡ off
At-last {d} {off} at = let e : ltb off (length d - 1) ≡ false = ground (arith, At-length at) in rw e

At-next_line :
    {d cur rest : Bytes} {off start c e : ℕ}
    → At d off start cur (c ∷ e ∷ rest)
    → (if ltb off (length d - 1) && c == cr && byte_at d (off + 1) == lf then off + 1 else off)
      ≡ (if c == cr && e == lf then off + 1 else off)
At-next_line {d} {off} at =
    let inside : ltb off (length d - 1) ≡ true = ground (arith, At-length at) in
    rw (inside, At-byte at 1)

-- Behind a line.
At-next :
    {d cur rest : Bytes} {off start : ℕ} (front : Bytes) (n : ℕ)
    → At d off start cur (front ++ rest)
    → n ≡ off + length front
    → At d n n [] rest
At-next {d} {rest} {off} front n at e = record {
  fits = omega (arith, At-length at, length-append front rest);
  place = omega arith;
  text = rw e (sym (drop-drop (length front) off d) ∙ rw (At-drop at) (drop-append front rest));
}

-- One byte further in the line.
At-snoc :
    {d cur rest : Bytes} {off start c : ℕ}
    → At d off start cur (c ∷ rest)
    → At d (off + 1) start (cur ++ c ∷ []) rest
At-snoc {cur} {c} at = record {
  fits = at.fits;
  place = omega (arith, at.place, length-append cur (c ∷ []));
  text = at.text ∙ sym (append_assoc cur (c ∷ []) _);
}

module _ {S : Type 0} (d : Bytes) (cb : Callback S) where
  -- The end of the data.
  last_line-feed :
      (cur : Bytes) (off start count : ℕ) (s : S)
      → At d off start cur []
      → last_line d cb (going start count s) ≡ feed cb (lines_from cur []) count s
  unfolding last_line feed lines_from
  last_line-feed [] off start count s at = ground (arith, At-length at, at.place)
  last_line-feed (b ∷ cur) off start count s at =
      let end : length d ≡ off = omega (arith, At-length at) in
      let inside : ltb start (length d) ≡ true = ground (arith, At-length at, at.place) in
      rw (inside, end, At-slice at) (ground arith)

  split_loop-end :
      (fuel : ℕ) (cur : Bytes) (off start count : ℕ) (s : S)
      → At d off start cur []
      → split_loop fuel d cb off start count s ≡ going start count s
  unfolding split_loop
  split_loop-end zero cur off start count s at = refl
  split_loop-end (suc fuel) cur off start count s at =
      let out : ltb off (length d) ≡ false = ground (arith, At-length at) in rw out

  -- A byte that ends no line.
  split_loop-pass :
      (fuel : ℕ) (cur rest : Bytes) (c off start count : ℕ) (s : S)
      → At d off start cur (c ∷ rest)
      → (c == cr || c == lf) ≡ false
      → split_loop (suc fuel) d cb off start count s ≡ split_loop fuel d cb (off + 1) start count s
  unfolding split_loop
  split_loop-pass fuel cur rest c off start count s at e = rw (At-inside at, At-head at, e)

  -- A byte that ends a line, and the place where the next one begins.
  split_loop-line :
      (fuel : ℕ) (cur rest : Bytes) (c off start count next : ℕ) (s : S)
      → At d off start cur (c ∷ rest)
      → (c == cr || c == lf) ≡ true
      → (if ltb off (length d - 1) && c == cr && byte_at d (off + 1) == lf then off + 1 else off)
        ≡ next
      → split_loop (suc fuel) d cb off start count s
        ≡ deliver (cb cur s) count (λ s'. split_loop fuel d cb (next + 1) (next + 1) (count + 1) s')
  unfolding split_loop
  split_loop-line fuel cur rest c off start count next s at e e' =
      rw (At-inside at, At-head at, e, e', At-slice at)

  delivered :
      (cur : Bytes) (count : ℕ) (s : S) (next : S → Split S) (ls : List Bytes)
      → ((s' : S) → last_line d cb (next s') ≡ feed cb ls (count + 1) s')
      → last_line d cb (deliver (cb cur s) count next) ≡ feed cb (cur ∷ ls) count s
  unfolding feed last_line
  delivered cur count s next ls h = elim (Bool-cases (cb cur s).0) [
    | inl e ↦ rw e
    | inr e ↦ rw e (h (cb cur s).1)
  ]

  -- The loop with what is done behind it, from any place in the data.
  split_loop-feed :
      (fuel : ℕ) (rest cur : Bytes) (off start count : ℕ) (s : S)
      → length rest ≤ fuel
      → At d off start cur rest
      → last_line d cb (split_loop fuel d cb off start count s)
        ≡ feed cb (lines_from cur rest) count s
  unfolding lines_from
  split_loop-feed fuel [] cur off start count s h at =
      rw (split_loop-end fuel cur off start count s at) (last_line-feed cur off start count s at)
  split_loop-feed zero (c ∷ rest) cur off start count s h at = absurd (omega arith)
  split_loop-feed (suc fuel) (c ∷ []) cur off start count s h at =
      elim (Bool-cases (c == cr || c == lf)) [
        | inl e ↦
            rw (e, split_loop-line fuel cur [] c off start count off s at e (At-last at))
              (delivered cur count s _ [] λ s'.
                split_loop-feed fuel [] [] (off + 1) (off + 1) (count + 1) s' (omega arith)
                  (At-next (c ∷ []) (off + 1) at (omega arith)))
        | inr e ↦
            rw (e, split_loop-pass fuel cur [] c off start count s at e)
              (split_loop-feed fuel [] (cur ++ c ∷ []) (off + 1) start count s (omega arith)
                (At-snoc at))
      ]
  split_loop-feed (suc fuel) (c ∷ e ∷ rest) cur off start count s h at =
      elim (Bool-cases (c == cr || c == lf)) [
        | inl ends ↦ elim (Bool-cases (c == cr && e == lf)) [
          | inl two ↦
              rw
                (
                  ends,
                  two,
                  split_loop-line fuel cur (e ∷ rest) c off start count (off + 1) s at ends
                      (At-next_line at ∙ rw two),
                )
                (delivered cur count s _ (lines_from [] rest) λ s'.
                  split_loop-feed fuel rest [] (off + 1 + 1) (off + 1 + 1) (count + 1) s'
                    (omega arith) (At-next (c ∷ e ∷ []) (off + 1 + 1) at (omega arith)))
          | inr one ↦
              rw
                (
                  ends,
                  one,
                  split_loop-line fuel cur (e ∷ rest) c off start count off s at ends
                      (At-next_line at ∙ rw one),
                )
                (delivered cur count s _ (lines_from [] (e ∷ rest)) λ s'.
                  split_loop-feed fuel (e ∷ rest) [] (off + 1) (off + 1) (count + 1) s'
                    (omega arith) (At-next (c ∷ []) (off + 1) at (omega arith)))
        ]
        | inr ends ↦
            rw (ends, split_loop-pass fuel cur (e ∷ rest) c off start count s at ends)
              (split_loop-feed fuel (e ∷ rest) (cur ++ c ∷ []) (off + 1) start count s (omega arith)
                (At-snoc at))
      ]

-- `nl_split_lines` of data and a callback that are not NULL calls the callback on each line of the
-- data in order, with `\r\n`, `\r` and `\n` as the ends of lines, until it asks to stop. It returns the
-- number of calls, and the callback's state is the one after them.
pub nl_split_lines-feed :
    {S : Type 0} (d : Bytes) (cb : Callback S) (s : S)
    → nl_split_lines (some d) (some cb) s ≡ feed cb (lines_from [] d) 0 s
unfolding nl_split_lines
nl_split_lines-feed d cb s =
    split_loop-feed d cb (length d) d [] 0 0 0 s (omega arith)
      (record { fits = omega arith; place = refl; text = refl })
