-- ===== src/Escape/String.antt =====
-- `nl_count_escapes` and `nl_escape_string` of src/escape.c, on a buffer that holds a C string.
use nlutils.Prelude.{
  ℕ, ◌+◌, Bool, true, false, Option, none, some, [], ◌∷◌, ◌++◌, ltb, ◌==◌, if◌then◌else◌, length,
}
use nlutils.Ctype.{Bytes}
use nlutils.Escape.Table.{escape_char, get_escape}

unfoldable pub count_escapes_loop : Bytes → ℕ → ℕ
count_escapes_loop [] count = count
count_escapes_loop (c ∷ str) count =
    count_escapes_loop str (if get_escape c == 0 then count else count + 1)

unfoldable pub nl_count_escapes : Bytes → ℕ
unfolding count_escapes_loop
nl_count_escapes str = count_escapes_loop str 0

-- The copying loop: `tmp` is what is left at `ptr2`, `out` what stands before `ptr`.
unfoldable pub escape_loop : Bytes → Bytes → Bytes
escape_loop [] out = out
escape_loop (c ∷ tmp) out = escape_loop tmp (
    let replace = get_escape c in
    if replace == 0 then out ++ c ∷ [] else out ++ escape_char ∷ replace ∷ [])

-- The allocator's answers to `realloc` and `nl_strdup` are arguments. `none` is a NULL parameter;
-- the result is the return value (`true` for 0, `false` for -1) and the buffer afterwards.
unfoldable pub nl_escape_string :
    (realloc_ok strdup_ok : Bool) → Option Bytes → Option ℕ → Bool × Option Bytes × Option ℕ
unfolding nl_count_escapes escape_loop
nl_escape_string realloc_ok strdup_ok none size = (false, none, size)
nl_escape_string realloc_ok strdup_ok (some str) none = (false, some str, none)
nl_escape_string realloc_ok strdup_ok (some str) (some size) =
    let len = length str + nl_count_escapes str + 1 in
    if ltb size len
    then if realloc_ok
      then if strdup_ok
        then (true, some (escape_loop str []), some len)
        else (false, some str, some len)
      else (false, some str, some size)
    else if strdup_ok
    then (true, some (escape_loop str []), some size)
    else (false, some str, some size)
