-- ===== src/Fs/Path.antt =====
-- fs/filesystem.c: `normalize_path` and `split_path`, on paths without their NUL. The output buffers
-- have room: the callers' 256 bytes hold a path of up to 254.
pub mod Components
pub mod Normal
pub mod Split
use ephemeral_os.Base.{
  ℕ, ◌+◌, ◌-◌, Bool, true, false, not, ◌&&◌, [], ◌∷◌, ◌++◌, ltb, ◌==◌, if◌then◌else◌, get_or,
  length, take, drop, Bytes, str_eq,
}

abbrev pub slash : ℕ
slash = b'/'

-- One round of the loop: what is written so far, `last_was_slash`, and the byte `path[i]`.
unfoldable pub normalize_step : Bytes → Bool → ℕ → Bytes × Bool
normalize_step out last c =
    if c == slash
    then if not last && ltb 0 (length out)
      then (out ++ slash ∷ [], true)
      else if length out == 0
      then (out ++ slash ∷ [], true)
      else (out, last)
    else (out ++ c ∷ [], false)

unfoldable pub normalize_loop : Bytes → Bool → Bytes → Bytes
normalize_loop out last [] = out
normalize_loop out last (c ∷ cs) =
    let next = normalize_step out last c in normalize_loop next.0 next.1 cs

abbrev pub starts_with_slash : Bytes → Bool
starts_with_slash [] = false
starts_with_slash (c ∷ cs) = c == slash

-- `if (j > 1 && normalized[j-1] == '/') j--`
unfoldable pub drop_last_slash : Bytes → Bytes
drop_last_slash out =
    if ltb 1 (length out) && get_or out (length out - 1) 0 == slash
    then take (length out - 1) out
    else out

unfoldable pub normalize_path : Bytes → Bytes
unfolding normalize_loop normalize_step drop_last_slash
normalize_path path =
    let first = starts_with_slash path in
    let out = drop_last_slash (normalize_loop (if first then [] else slash ∷ []) first path) in
    if length out == 0 then slash ∷ [] else out

-- The loop over `p`: the index of the last slash so far, and the index of `p`.
unfoldable pub last_slash : ℕ → ℕ → Bytes → ℕ
last_slash best i [] = best
last_slash best i (c ∷ cs) = last_slash (if c == slash then i else best) (i + 1) cs

-- `(parent, name)`
unfoldable pub split_path : Bytes → Bytes × Bytes
unfolding normalize_path last_slash str_eq
split_path path =
    let normalized = normalize_path path in
    if str_eq normalized (slash ∷ [])
    then (slash ∷ [], [])
    else let at = last_slash 0 0 normalized in
      if at == 0
      then (slash ∷ [], drop (at + 1) normalized)
      else (take at normalized, drop (at + 1) normalized)
