-- ===== src/Fs/Path/Normal.antt =====
-- fs/filesystem.c: `normalize_path` writes the components of the path, each behind one slash.
use ephemeral_os.Base.{
  ℕ, suc, ◌-◌, ◌≡◌, ◌≢◌, ◌∙◌, sym, ap, refl, Bool, true, false, [], ◌∷◌, ◌++◌, List, Bytes, ltb,
  ◌==◌, if◌then◌else◌, arith, length, get_or, take, append_assoc, append-nil,
}
use ephemeral_os.Fs.Path.{
  slash, normalize_step, normalize_loop, drop_last_slash, normalize_path, starts_with_slash,
}
use ephemeral_os.Fs.Path.Components.{
  pieces, non_empty, components, join, render, components-render, components-IsName,
}

-- The loop without its output buffer.
squeeze : Bool → Bytes → Bytes
squeeze last [] = []
squeeze last (c ∷ cs) =
    if c == slash
    then (if last then squeeze true cs else slash ∷ squeeze true cs)
    else c ∷ squeeze false cs

normalize_loop-squeeze :
    (cs : Bytes) (o : ℕ) (out : Bytes) (last : Bool)
    → normalize_loop (o ∷ out) last cs ≡ (o ∷ out) ++ squeeze last cs
unfolding normalize_loop normalize_step squeeze
normalize_loop-squeeze [] o out last = rw append-nil
normalize_loop-squeeze (c ∷ cs) o out last = ground (
  arith,
  normalize_loop-squeeze cs o out last,
  normalize_loop-squeeze cs o (out ++ c ∷ []) false,
  normalize_loop-squeeze cs o (out ++ slash ∷ []) true,
  append_assoc (o ∷ out) (c ∷ []) (squeeze false cs),
  append_assoc (o ∷ out) (slash ∷ []) (squeeze true cs),
)

-- The bytes without the slash at the end.
trim : Bytes → Bytes
trim [] = []
trim (c ∷ []) = if c == slash then [] else c ∷ []
trim (c ∷ d ∷ r) = c ∷ trim (d ∷ r)

trim_lem :
    (c : ℕ) (r : Bytes)
    → trim (c ∷ r)
      ≡ (if get_or (c ∷ r) (length r) 0 == slash then take (length r) (c ∷ r) else c ∷ r)
unfolding trim
trim_lem c [] = refl
trim_lem c (d ∷ r) = ground (arith, trim_lem d r)

drop_last_slash-trim : (c d : ℕ) (r : Bytes) → drop_last_slash (c ∷ d ∷ r) ≡ trim (c ∷ d ∷ r)
unfolding drop_last_slash
drop_last_slash-trim c d r =
    let e : suc (suc (length r)) - 1 ≡ suc (length r) = omega arith in
    let t : ltb 1 (suc (suc (length r))) ≡ true = ground arith in
    rw (e, t) (sym (trim_lem c (d ∷ r)))

abbrev joined : Bytes × List Bytes → Bytes
joined (w, ws) = join (non_empty (w ∷ ws))

mutual
  unfolding trim squeeze pieces non_empty join

  trim-squeeze-slash : (cs : Bytes) → trim (slash ∷ squeeze true cs) ≡ joined (pieces cs)
  trim-squeeze-slash [] = refl
  trim-squeeze-slash (c ∷ cs) = ground (arith, trim-squeeze-slash cs, trim-squeeze_name cs c)

  trim-squeeze_name :
      (cs : Bytes) (x : ℕ)
      → x ≢ slash
      → trim (x ∷ squeeze false cs) ≡ x ∷ (pieces cs).0 ++ join (non_empty (pieces cs).1)
  trim-squeeze_name [] x h = ground arith
  trim-squeeze_name (c ∷ cs) x h = ground (arith, trim-squeeze-slash cs, trim-squeeze_name cs c)

or_root : Bytes → Bytes
or_root out = if length out == 0 then slash ∷ [] else out

or_root-join : (ws : List Bytes) → or_root (join ws) ≡ render ws
unfolding or_root render
or_root-join [] = refl
or_root-join (w ∷ ws) = ground arith

or_root-trim : (r : Bytes) → or_root (drop_last_slash (slash ∷ r)) ≡ or_root (trim (slash ∷ r))
unfolding or_root trim drop_last_slash
or_root-trim [] = refl
or_root-trim (d ∷ r) = ap or_root (drop_last_slash-trim slash d r)

normalize_loop_start :
    (path : Bytes)
    → let first = starts_with_slash path in
      normalize_loop (if first then [] else slash ∷ []) first path ≡ slash ∷ squeeze true path
unfolding normalize_loop normalize_step squeeze
normalize_loop_start [] = refl
normalize_loop_start (c ∷ cs) =
    ground (
      arith,
      normalize_loop-squeeze cs slash [] true,
      normalize_loop-squeeze cs slash (c ∷ []) false,
    )

-- `normalize_path` returns the path's components, each behind one slash, and a single slash for a
-- path with none.
pub normalize_path_lem : (path : Bytes) → normalize_path path ≡ render (components path)
unfolding normalize_path components or_root
normalize_path_lem path =
    ap or_root (ap drop_last_slash (normalize_loop_start path))
    ∙ or_root-trim (squeeze true path)
    ∙ ap or_root (trim-squeeze-slash path)
    ∙ or_root-join (non_empty ((pieces path).0 ∷ (pieces path).1))

-- `normalize_path` of its own result changes nothing.
pub normalize_path_idem :
    (path : Bytes) → normalize_path (normalize_path path) ≡ normalize_path path
normalize_path_idem path = rw (normalize_path_lem path) (
    normalize_path_lem (render (components path))
    ∙ ap render (components-render (components path) (components-IsName path)))
