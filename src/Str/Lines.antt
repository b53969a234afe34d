-- ===== src/Str/Lines.antt =====
-- `nl_split_lines` of src/str.c. The data is a list of bytes; the callback takes a line and the state
-- behind `cb_data`, and says whether to stop.
pub mod Reference
use native.Mathlib.Nat.{add-zero, zero-add}
use nlutils.Prelude.{
  ℕ, zero, suc, ◌+◌, ◌-◌, ◌≤◌, ◌<◌, ◌≡◌, ◌≢◌, refl, sym, ap, ◌∙◌, Bool, true, false, ◌&&◌, ◌||◌,
  not, Option, none, some, List, [], ◌∷◌, ◌++◌, arith, ltb, leb, ◌==◌, if◌then◌else◌, append-nil,
  append_assoc, length, length-append, drop, take, length-drop, Bool-cases, inl, inr,
}
use nlutils.Prelude.Int.{ℤ, pos, negsuc}
use nlutils.Ctype.{Bytes, byte_at}

abbrev pub cr : ℕ
cr = 13

abbrev pub lf : ℕ
lf = 10

abbrev pub Callback : Type 0 → Type 0
Callback S = Bytes → S → Bool × S

-- Where the loop stands, or the early return.
pub data Split (S : Type 0) : Type 0 where
  going : (start count : ℕ) → S → Split S
  stopped : (count : ℕ) → S → Split S

-- `data.data + start` with `size` bytes
abbrev pub slice : Bytes → (start size : ℕ) → Bytes
slice d start size = take size (drop start d)

module _ {S : Type 0} where
  -- A line that ends at `off`: the callback's answer decides.
  abbrev pub deliver : Bool × S → ℕ → (S → Split S) → Split S
  deliver (true, s) count next = stopped (count + 1) s
  deliver (false, s) count next = next s

  -- `for(; off < data.size; off++)`, bounded by the first argument
  unfoldable pub split_loop : ℕ → Bytes → Callback S → (off start count : ℕ) → S → Split S
  split_loop zero d cb off start count s = going start count s
  split_loop (suc fuel) d cb off start count s =
      let c = byte_at d off in
      let next =
        if ltb off (length d - 1) && c == cr && byte_at d (off + 1) == lf then off + 1 else off in
      let after = λ (s' : S). split_loop fuel d cb (next + 1) (next + 1) (count + 1) s' in
      let pass = split_loop fuel d cb (off + 1) start count s in
      if not (ltb off (length d))
      then going start count s
      else if c == cr || c == lf
      then deliver (cb (slice d start (off - start)) s) count after
      else pass

  -- The final line without a terminator.
  unfoldable pub last_line : Bytes → Callback S → Split S → ℤ × S
  last_line d cb (stopped count s) = (pos count, s)
  last_line d cb (going start count s) =
      if ltb start (length d)
      then (pos (count + 1), (cb (slice d start (length d - start)) s).1)
      else (pos count, s)

  -- `none` is a NULL callback, and NULL data.
  unfoldable pub nl_split_lines : Option Bytes → Option (Callback S) → S → ℤ × S
  nl_split_lines d none s = (negsuc 0, s)
  nl_split_lines none (some cb) s = (pos 0, s)
  nl_split_lines (some d) (some cb) s = last_line d cb (split_loop (length d) d cb 0 0 0 s)

-- The lines of a text: `cur` is what has been read of the first one.
unfoldable pub lines_from : Bytes → Bytes → List Bytes
lines_from [] [] = []
lines_from (b ∷ cur) [] = (b ∷ cur) ∷ []
lines_from cur (c ∷ []) =
    let go = lines_from (cur ++ c ∷ []) [] in if c == cr || c == lf then cur ∷ [] else go
lines_from cur (c ∷ e ∷ rest) =
    let skip = lines_from [] rest in
    let after = lines_from [] (e ∷ rest) in
    let go = lines_from (cur ++ c ∷ []) (e ∷ rest) in
    if c == cr || c == lf then cur ∷ (if c == cr && e == lf then skip else after) else go

module _ {S : Type 0} where
  -- The callback on each line until it asks to stop: the number of calls, and the state.
  unfoldable pub feed : Callback S → List Bytes → ℕ → S → ℤ × S
  feed cb [] count s = (pos count, s)
  feed cb (l ∷ ls) count s =
      let rest = feed cb ls (count + 1) (cb l s).1 in
      if (cb l s).0 then (pos (count + 1), (cb l s).1) else rest
