-- ===== src/Escape/Main.antt =====
-- The loops of `nl_unescape_string`: they end, they never write past what they have read, and the
-- first two only save time.
use nlutils.Prelude.{
  ℕ, zero, suc, ◌<◌, ◌≡◌, sym, ◌∙◌, Bool, true, not, inl, inr, [], ◌∷◌, ◌==◌, arith, Bool-cases,
  length, length-drop,
}
use nlutils.Prelude.Loop.{while, while-step, while-stop}
use nlutils.Ctype.{Bytes, byte_at}
use nlutils.Escape.Unescape.{Unescape, more, plain, skip_step, unescape_step, unescape_from}

more_pos : (s : Unescape) → more s ≡ true → 0 < length s.unread
more_pos s h = go s.unread h
  where
    go : (str : Bytes) → not (byte_at str 0 == 0) ≡ true → 0 < length str
    go [] e = ground arith
    go (c ∷ str) e = omega arith

module _ (include_zero dequoting : Bool) where
  -- Each round reads at least one byte.
  pub length-unescape_step :
      (s : Unescape)
      → more s ≡ true
      → length (unescape_step include_zero dequoting s).unread < length s.unread
  unfolding unescape_step
  length-unescape_step s h = ground (
    arith,
    more_pos s h,
    length-drop 1 s.unread,
    length-drop 2 s.unread,
    length-drop 3 s.unread,
    length-drop 4 s.unread,
  )

  -- The number of rounds allowed does not matter once it exceeds what is left to read.
  while_fuel :
      (f g : ℕ) (s : Unescape)
      → length s.unread < f
      → length s.unread < g
      → while f more (unescape_step include_zero dequoting) s
        ≡ while g more (unescape_step include_zero dequoting) s
  unfolding while
  while_fuel zero g s hf hg = absurd (omega arith)
  while_fuel (suc f) zero s hf hg = absurd (omega arith)
  while_fuel (suc f) (suc g) s hf hg =
      ground
        (arith, length-unescape_step s, while_fuel f g (unescape_step include_zero dequoting s))

  -- On a byte that the first loops pass over, the main loop does the same.
  unescape_step-skip_step :
      (s : Unescape)
      → plain dequoting s ≡ true
      → unescape_step include_zero dequoting s ≡ skip_step s
  unfolding unescape_step skip_step
  unescape_step-skip_step s h = ground arith

  length-skip_step :
      (s : Unescape) → plain dequoting s ≡ true → length (skip_step s).unread < length s.unread
  unfolding skip_step
  length-skip_step s h = ground (arith, more_pos s, length-drop 1 s.unread)

  abbrev pub main_loop : Unescape → Unescape
  main_loop s = while (suc (length s.unread)) more (unescape_step include_zero dequoting) s

  pub main_loop-step :
      (s : Unescape)
      → more s ≡ true
      → main_loop s ≡ main_loop (unescape_step include_zero dequoting s)
  main_loop-step s h =
      while-step more (unescape_step include_zero dequoting) (length s.unread) s h
      ∙ while_fuel (length s.unread) _ (unescape_step include_zero dequoting s)
          (length-unescape_step s h) (omega arith)

  skip-main_loop :
      (f : ℕ) (s : Unescape)
      → length s.unread < f
      → main_loop (while f (plain dequoting) skip_step s) ≡ main_loop s
  skip-main_loop zero s h = absurd (omega arith)
  skip-main_loop (suc f) s h = elim (Bool-cases (plain dequoting s)) [
    | inl go ↦ rw (while-step (plain dequoting) skip_step f s go) (
        skip-main_loop f (skip_step s) (omega (arith, length-skip_step s go))
        ∙ rw (← unescape_step-skip_step s go) (sym (main_loop-step s (plain-more s go))))
    | inr stop ↦ rw (while-stop (plain dequoting) skip_step (suc f) s stop)
  ]
    where
      plain-more : (t : Unescape) → plain dequoting t ≡ true → more t ≡ true
      plain-more t e = ground arith

  -- The loops before the main loop change nothing about the outcome, whatever the text: wherever
  -- they stop, the whole function ends as the main loop alone would.
  pub unescape_from-main_loop :
      (s : Unescape) → unescape_from include_zero dequoting s ≡ main_loop s
  unfolding unescape_from
  unescape_from-main_loop s = skip-main_loop (suc (length s.unread)) s (omega arith)
