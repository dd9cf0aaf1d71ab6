-- ===== src/Fs/Dir/RoundTrip.antt =====
-- fs/filesystem.c: a directory block through the drive. The sector holds the first fourteen entries,
-- and eight bytes of the last.
use mathlib.Core.Path.{ap₂}
use native.Mathlib.Nat.{zero-add}
use ephemeral_os.Base.{
  length-take, drop-append_past, take-append_within, take-append_past, take-take, ◌≢◌, replicate,
  ◌*◌, append-nil, sym, ◌-◌, subst, ℕ, suc, ◌+◌, ◌^◌, ◌<◌, ◌≡◌, refl, ap, ◌∙◌, [], ◌∷◌, ◌++◌,
  append_assoc, arith, Bytes, All, length, get_or, take, drop, length-append, take-append,
  drop-append,
}
use ephemeral_os.Fs.State.{read_inode_block, write_inode_block}
use ephemeral_os.Fs.State.Blocks.{read-write_inode_block}
use ephemeral_os.Fs.Dir.{
  write_inode_block, read_inode_block, write_dir, read_dir, Fs, DirEntry, DirBlock, le_bytes,
  le_value, encode_entry, encode_dir, decode_entry, decode_dir,
}

-- An entry as C can hold it: 28 bytes of name and a 32-bit inode number.
pub record IsEntry (e : DirEntry) : Type 0 where
  pub name : length e.name ≡ 28
  pub inode : e.inode < 2 ^ 32

entry_tail : DirEntry → Bytes → Bytes
entry_tail e r = le_bytes e.inode ++ e.in_use ∷ 0 ∷ 0 ∷ 0 ∷ r

encode_entry-append : (e : DirEntry) (r : Bytes) → encode_entry e ++ r ≡ e.name ++ entry_tail e r
unfolding encode_entry entry_tail
encode_entry-append e r = append_assoc e.name (entry_tail e []) r

drop-name :
    (e : DirEntry) (r : Bytes)
    → length e.name ≡ 28
    → drop 28 (e.name ++ entry_tail e r) ≡ entry_tail e r
drop-name e r h =
    subst (λ n. drop n (e.name ++ entry_tail e r) ≡ entry_tail e r) h (drop-append e.name _)

take-name :
    (e : DirEntry) (r : Bytes) → length e.name ≡ 28 → take 28 (e.name ++ entry_tail e r) ≡ e.name
take-name e r h = subst (λ n. take n (e.name ++ entry_tail e r) ≡ e.name) h (take-append e.name _)

le_value_tail : (e : DirEntry) (r : Bytes) → e.inode < 2 ^ 32 → le_value (entry_tail e r) ≡ e.inode
unfolding entry_tail
le_value_tail e r h = omega arith

in_use_tail : (e : DirEntry) (r : Bytes) → get_or (entry_tail e r) 4 0 ≡ e.in_use
unfolding entry_tail
in_use_tail e r = refl

decode-encode_entry :
    (e : DirEntry) (r : Bytes) → IsEntry e → decode_entry (encode_entry e ++ r) ≡ e
unfolding decode_entry
decode-encode_entry e r h = rw (
  encode_entry-append e r,
  take-name e r h.name,
  drop-name e r h.name,
  le_value_tail e r h.inode,
  in_use_tail e r,
)

length-entry_tail : (e : DirEntry) → length (entry_tail e []) ≡ 8
unfolding entry_tail
length-entry_tail e = refl

length-encode_entry : (e : DirEntry) → IsEntry e → length (encode_entry e) ≡ 36
unfolding encode_entry entry_tail
length-encode_entry e h =
    length-append e.name (entry_tail e []) ∙ omega (arith, h.name, length-entry_tail e)

drop-entry : (e : DirEntry) (r : Bytes) → IsEntry e → drop 36 (encode_entry e ++ r) ≡ r
drop-entry e r h =
    subst (λ n. drop n (encode_entry e ++ r) ≡ r) (length-encode_entry e h)
      (drop-append (encode_entry e) r)

decode-encode_dir :
    (d : DirBlock) (k : ℕ) (r : Bytes)
    → All IsEntry d
    → decode_dir (length d + k) (encode_dir d ++ r) ≡ d ++ decode_dir k r
unfolding decode_dir encode_dir
decode-encode_dir [] k r h = rw zero-add
decode-encode_dir (e ∷ d) k r h =
    rw (suc-add (length d) k, append_assoc (encode_entry e) (encode_dir d) r)
      (ap₂ ◌∷◌ (decode-encode_entry e (encode_dir d ++ r) h.0) (
        ap (decode_dir (length d + k)) (drop-entry e (encode_dir d ++ r) h.0)
        ∙ decode-encode_dir d k r h.1))
  where
    suc-add : (a b : ℕ) → suc a + b ≡ suc (a + b)
    suc-add a b = omega arith

length-encode_dir : (d : DirBlock) → All IsEntry d → length (encode_dir d) ≡ length d * 36
unfolding encode_dir
length-encode_dir [] h = refl
length-encode_dir (e ∷ d) h =
    length-append (encode_entry e) (encode_dir d)
    ∙ omega (arith, length-encode_entry e h.0, length-encode_dir d h.1)

-- What comes back of a fifteenth entry: the first eight bytes of its name.
abbrev pub stump : DirEntry → DirEntry
stump e = record { name = take 8 e.name ++ replicate 20 0; inode = 0; in_use = 0 }

encode_dir-append :
    (d : DirBlock) (e : DirEntry) → encode_dir (d ++ e ∷ []) ≡ encode_dir d ++ encode_entry e
unfolding encode_dir
encode_dir-append [] e = append-nil (encode_entry e)
encode_dir-append (x ∷ d) e =
    rw (encode_dir-append d e) (sym (append_assoc (encode_entry x) (encode_dir d) (encode_entry e)))

eight : (e : DirEntry) → IsEntry e → take 8 (encode_entry e) ≡ take 8 e.name
unfolding encode_entry
eight e h = take-append_within 8 e.name _ (omega (arith, h.name))

entry_of :
    (t : Bytes)
    → length t ≡ 8
    → decode_entry (t ++ replicate 28 0)
      ≡ record { name = t ++ replicate 20 0; inode = 0; in_use = 0 }
unfolding decode_entry
entry_of t h = rw (first, rest)
  where
    first : take 28 (t ++ replicate 28 0) ≡ t ++ replicate 20 0
    first =
        take-append_past 28 t (replicate 28 0) (omega arith)
        ∙ ap (λ (k : ℕ). t ++ take k (replicate 28 0)) twenty
      where
        twenty : 28 - length t ≡ 20
        twenty = omega arith

    rest : drop 28 (t ++ replicate 28 0) ≡ replicate 8 0
    rest =
        drop-append_past 28 t (replicate 28 0) (omega arith)
        ∙ ap (λ (k : ℕ). drop k (replicate 28 0)) twenty'
      where
        twenty' : 28 - length t ≡ 20
        twenty' = omega arith

module _ (d : DirBlock) (e : DirEntry) (n : length d ≡ 14) (hd : All IsEntry d)
    (he : IsEntry e) where
  eight_left : 512 - length (encode_dir d) ≡ 8
  eight_left = omega (arith, length-encode_dir d hd)

  sector : take 512 (encode_dir (d ++ e ∷ [])) ≡ encode_dir d ++ take 8 e.name
  sector =
      ap (take 512) (encode_dir-append d e)
      ∙ take-append_past 512 (encode_dir d) (encode_entry e) (omega (arith, length-encode_dir d hd))
      ∙ ap (λ k. encode_dir d ++ take k (encode_entry e)) eight_left
      ∙ ap (λ t. encode_dir d ++ t) (eight e he)

  last-stump : decode_dir 1 (take 8 e.name ++ replicate 28 0) ≡ stump e ∷ []
  unfolding decode_dir
  last-stump =
      ap (λ x. x ∷ []) (entry_of (take 8 e.name) (length-take 8 e.name ∙ omega (arith, he.name)))

  -- With fourteen entries and a fifteenth, all as C can hold them, a directory block that is written
  -- to a block of the drive other than block 0 reads back with its fourteen entries, and with the
  -- fifteenth not in use.
  pub read_dir-write_dir :
      (fs : Fs) (block : ℕ)
      → block ≢ 0
      → block < 512
      → read_dir (write_dir fs block (d ++ e ∷ [])) block ≡ d ++ stump e ∷ []
  unfolding read_dir write_dir
  read_dir-write_dir fs block nz l =
      ap (λ t. decode_dir 15 (take 512 t ++ replicate 28 0)) back
      ∙ ap (λ t. decode_dir 15 (t ++ replicate 28 0))
          (take-take 512 (encode_dir (d ++ e ∷ [])) ∙ sector)
      ∙ ap (decode_dir 15) (append_assoc (encode_dir d) (take 8 e.name) (replicate 28 0))
      ∙ (rw count at (decode-encode_dir d 1 (take 8 e.name ++ replicate 28 0) hd))
      ∙ ap (λ t. d ++ t) last-stump
    where
      back :
          read_inode_block (write_inode_block fs block (encode_dir (d ++ e ∷ []))) block
          ≡ take 512 (encode_dir (d ++ e ∷ []))
      back = ground (arith, read-write_inode_block fs block block (encode_dir (d ++ e ∷ [])) nz l)

      count : length d + 1 ≡ 15
      count = omega arith
