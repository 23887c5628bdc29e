-- ===== src/Util/Replace.antt =====
-- ReplaceStr and ReplaceMark of base/util.cc.
pub mod Ended
use filehub_cloud.Base.{
  ℕ, zero, suc, ◌+◌, ◌%◌, ◌^◌, ◌==◌, Option, none, some, List, [], ◌∷◌, ◌++◌, Text, decimal, length,
  take, drop, get_elem?, set, if◌then◌else◌,
}

-- The loop of ReplaceStr over the memory that `src` points to: the memory as it is left; a read behind
-- its end; or more rounds than given.
pub data Looped : Type 0 where
  ended : Text → Looped
  reads_behind runs_on : Looped

module _ (old_char new_char : ℕ) where
  -- The body, at a character.
  abbrev pub replaced_at : Text → ℕ → ℕ → Text
  replaced_at memory head c = if c == old_char then set memory head new_char else memory

  -- A character, and the rest of the loop.
  abbrev pub looked : Text → (ℕ → Looped) → Option ℕ → Looped
  looked memory go_on none = reads_behind
  looked memory go_on (some c) = let rest = go_on c in if c == 0 then ended memory else rest

  -- `while (*head != '\0')`
  pub replace_loop : ℕ → Text → ℕ → Looped
  replace_loop zero memory head = runs_on
  replace_loop (suc rounds) memory head =
      looked memory (λ c. replace_loop rounds (replaced_at memory head c) (suc head))
        (get_elem? memory head)

  -- With as many rounds as the memory has bytes, and one; none for NULL.
  pub replace_str : Option Text → Option Looped
  unfolding replace_loop
  replace_str none = none
  replace_str (some memory) = some (replace_loop (suc (length memory)) memory 0)

-- `str.find('?', begin_pos)`, counted from a position; none for npos.
find_mark : Text → ℕ → ℕ → Option ℕ
find_mark [] begin_pos i = none
find_mark (c ∷ s) (suc begin_pos) i = find_mark s begin_pos (suc i)
find_mark (c ∷ s) zero i = let rest = find_mark s zero (suc i) in if c == 63 then some i else rest

-- The text and the position, as they are left.
abbrev pub put_mark : Text → Text → ℕ → Option ℕ → Text × ℕ
put_mark str value begin_pos none = (str, begin_pos)
put_mark str value begin_pos (some pos) =
    (take pos str ++ (value ++ drop (suc pos) str), (pos + length value) % 2 ^ 32)

-- ReplaceMark with a text, in quotes.
unfoldable pub replace_mark : Text → Text → ℕ → Text × ℕ
unfolding find_mark
replace_mark str new_value begin_pos =
    put_mark str (39 ∷ new_value ++ 39 ∷ []) begin_pos (find_mark str begin_pos 0)

-- ReplaceMark with a number.
unfoldable pub replace_mark_number : Text → ℕ → ℕ → Text × ℕ
unfolding find_mark
replace_mark_number str new_value begin_pos =
    put_mark str (decimal new_value) begin_pos (find_mark str begin_pos 0)
