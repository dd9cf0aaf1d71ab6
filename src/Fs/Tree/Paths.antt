-- ===== src/Fs/Tree/Paths.antt =====
-- fs/filesystem.c: where paths lead before and after a new entry is made.
use ephemeral_os.Base.{
  true, false, ℕ, List, ◌++◌, take, replicate, get_or, sym, ap, ◌∙◌, ◌<◌, ◌≢◌, subst, ◌||◌, ◌∷◌, [],
  str_eq_refl, str_eq→eq, ◌≡◌, refl, inl, inr, arith, Bytes, All, no_index, str_eq, leb, ◌==◌,
  if◌then◌else◌, Bool-cases,
}
use ephemeral_os.Fs.State.{Fs, inode_at, first_block, read_inode_block}
use ephemeral_os.Fs.Dir.{DirBlock, DirEntry, read_dir, find_entry, decode_dir}
use native.Mathlib.Decide.{ℕ_discrete}
use ephemeral_os.Fs.Dir.Entries.{find_entry-append}
use ephemeral_os.Fs.Lookup.{find_component, find_inode_by_path}
use ephemeral_os.Fs.Lookup.Resolve.{resolve, find_inode_by_path_lem}
use ephemeral_os.Fs.Path.{split_path}
use ephemeral_os.Fs.Path.Components.{components, components-render, components-IsName, IsName}
use ephemeral_os.Fs.Path.Split.{split_path_lem, split_path_root, snoc_cases}
use ephemeral_os.Fs.Create.Total.{All-init}
use ephemeral_os.Fs.Tree.{
  Added, find_entry-Absent, Passed, find_component-Passed, Passed-find_component, Room,
}

-- The path's components, when its last one is not empty.
components-snoc :
    (path w : Bytes)
    → (split_path path).1 ≡ w
    → w ≢ []
    → (ws : List Bytes) × (components path ≡ ws ++ w ∷ []) × (components (split_path path).0 ≡ ws)
components-snoc path w e ne = elim (snoc_cases (components path)) [
  | inl h ↦ absurd (ne (sym e ∙ ap (λ r. r.1) (split_path_root path h)))
  | inr (ws, v, h) ↦
      let q = split_path_lem path ws v h in
      let same : v ≡ w = sym (ap (λ r. r.1) q) ∙ e in
      let names : All IsName (ws ++ v ∷ []) = subst (All IsName) h (components-IsName path) in
      (
        ws,
        h ∙ ap (λ x. ws ++ x ∷ []) same,
        ap components (ap (λ r. r.0) q) ∙ components-render ws (All-init ws v names),
      )
]

some_index : (a : ℕ) → (a == no_index) ≡ false → a ≢ no_index
some_index a z e = ground arith

or_none : (found : ℕ) → (if found == no_index then no_index else found) ≡ found
or_none found = ground arith

resolve-snoc :
    (fs : Fs) (names : List Bytes) (current p : ℕ) (w : Bytes)
    → resolve fs current names ≡ p
    → p ≢ no_index
    → resolve fs current (names ++ w ∷ []) ≡ find_component fs p w
unfolding resolve
resolve-snoc fs [] current p w e ne =
    or_none (find_component fs current w) ∙ ap (λ c. find_component fs c w) e
resolve-snoc fs (v ∷ names) current p w e ne =
    elim (Bool-cases (find_component fs current v == no_index)) [
      | inl y ↦ absurd (ne (sym (rw y at e)))
      | inr z ↦ rw z (resolve-snoc fs names (find_component fs current v) p w (rw z at e) ne)
    ]

module _ (fs : Fs) (path : Bytes) (p : ℕ) (w : Bytes) (d : DirBlock) (last : DirEntry)
    (room : Room fs path p w d last) where
  pub p_ne : p ≢ no_index
  p_ne e = omega (arith, room.parent_lt)

  at_home : Passed fs p w
  at_home = record {
    short = ground (arith, room.short);
    in_table = ground (arith, room.parent_lt);
    is_dir = ground (arith, room.parent_dir);
    in_data = ground (arith, room.dir.block_ne, room.dir.block_lt);
  }

  before : (name : Bytes) → find_entry (read_dir fs (first_block fs p)) name ≡ find_entry d name
  before name =
      ap (λ t. find_entry t name) room.dir.reads ∙ find_entry-append d last name room.dir.last_free

  -- The path leads nowhere yet.
  pub find_inode_by_path-Room : find_inode_by_path fs path ≡ no_index
  find_inode_by_path-Room =
      let (ws, all, front) = components-snoc path w room.name room.non_empty in
      find_inode_by_path_lem fs path
      ∙ ap (resolve fs fs.superblock.root_inode) all
      ∙ resolve-snoc fs ws fs.superblock.root_inode p w
          (ap (resolve fs fs.superblock.root_inode) (sym front)
            ∙ sym (find_inode_by_path_lem fs (split_path path).0)
            ∙ room.parent)
          p_ne
      ∙ Passed-find_component fs p w at_home
      ∙ before w
      ∙ find_entry-Absent d w room.absent

module _ (fs fs' : Fs) (path : Bytes) (p n : ℕ) (w : Bytes) (d : DirBlock) (last : DirEntry)
    (room : Room fs path p w d last) (added : Added fs fs' p n w d) where
  kept_inode :
      (current : ℕ) (name : Bytes)
      → Passed fs current name
      → inode_at fs' current ≡ inode_at fs current
  kept_inode current name h =
      added.inodes current (λ e. ne (ap (λ i. (inode_at fs i).type) e ∙ added.was_free))
    where
      ne : (inode_at fs current).type ≢ 0
      ne = ground (arith, h.is_dir)

  Passed-Added : (current : ℕ) (name : Bytes) → Passed fs current name → Passed fs' current name
  Passed-Added current name h =
      let e = sym (kept_inode current name h) in
      record {
        short = h.short;
        in_table = h.in_table;
        is_dir = subst (λ i. (i.type == 2) ≡ true) e h.is_dir;
        in_data =
            subst (λ i. (get_or i.blocks 0 0 == 0 || leb 512 (get_or i.blocks 0 0)) ≡ false) e
              h.in_data;
      }

  found_in :
      (current : ℕ) (name : Bytes)
      → Passed fs current name
      → find_component fs' current name ≡ find_entry (read_dir fs' (first_block fs current)) name
  found_in current name h =
      Passed-find_component fs' current name (Passed-Added current name h)
      ∙ ap (λ i. find_entry (read_dir fs' (get_or i.blocks 0 0)) name) (kept_inode current name h)

  -- What was found is found.
  find_component-Added :
      (current : ℕ) (name : Bytes)
      → find_component fs current name ≢ no_index
      → find_component fs' current name ≡ find_component fs current name
  unfolding read_dir
  find_component-Added current name h =
      let t = find_component-Passed fs current name h in
      let old = Passed-find_component fs current name t in
      found_in current name t
      ∙ elim (ℕ_discrete (first_block fs current) (first_block fs p)) [
        | yes e ↦
            ap (λ b. find_entry (read_dir fs' b) name) e
            ∙ added.entry name
            ∙ rw (other e old) (
                sym (before fs path p w d last room name)
                ∙ ap (λ b. find_entry (read_dir fs b) name) (sym e))
        | no q ↦ ap (λ t. find_entry (decode_dir 15 (take 512 t ++ replicate 28 0)) name) (same q t)
      ]
      ∙ sym old
    where
      other :
          first_block fs current ≡ first_block fs p
          → find_component fs current name ≡ find_entry (read_dir fs (first_block fs current)) name
          → str_eq w name ≡ false
      other e old = elim (Bool-cases (str_eq w name)) [
        | inr z ↦ z
        | inl y ↦ absurd (
            h (
              old
              ∙ ap (λ b. find_entry (read_dir fs b) name) e
              ∙ before fs path p w d last room name
              ∙ ap (find_entry d) (sym (str_eq→eq w name y))
              ∙ find_entry-Absent d w room.absent))
      ]

      same :
          first_block fs current ≢ first_block fs p
          → Passed fs current name
          → read_inode_block fs' (first_block fs current)
            ≡ read_inode_block fs (first_block fs current)
      same q t =
          let lt : first_block fs current < 512 = ground (arith, t.in_data) in
          let nz : first_block fs current ≢ 0 = ground (arith, t.in_data) in
          added.reads (first_block fs current) lt (room.sound.used current 0 nz) q

  resolve-Added :
      (names : List Bytes) (current : ℕ)
      → resolve fs current names ≢ no_index
      → resolve fs' current names ≡ resolve fs current names
  unfolding resolve
  resolve-Added [] current h = refl
  resolve-Added (v ∷ names) current h =
      elim (Bool-cases (find_component fs current v == no_index)) [
        | inl y ↦ absurd (h (rw y refl))
        | inr z ↦
            rw (find_component-Added current v (some_index (find_component fs current v) z), z)
              (resolve-Added names (find_component fs current v) (rw z at h))
      ]

  -- A path that led somewhere leads there still.
  pub find_inode_by_path-Added :
      (other : Bytes)
      → find_inode_by_path fs other ≢ no_index
      → find_inode_by_path fs' other ≡ find_inode_by_path fs other
  find_inode_by_path-Added other h =
      find_inode_by_path_lem fs' other
      ∙ ap (λ r. resolve fs' r (components other)) added.root
      ∙ resolve-Added (components other) fs.superblock.root_inode
          (λ e. h (find_inode_by_path_lem fs other ∙ e))
      ∙ sym (find_inode_by_path_lem fs other)

  -- The path leads to the new inode.
  pub find_inode_by_path-new : find_inode_by_path fs' path ≡ n
  find_inode_by_path-new =
      let (ws, all, front) = components-snoc path w room.name room.non_empty in
      let at_p : find_inode_by_path fs' (split_path path).0 ≡ p =
        find_inode_by_path-Added (split_path path).0
          (λ e. p_ne fs path p w d last room (sym room.parent ∙ e))
        ∙ room.parent in
      find_inode_by_path_lem fs' path
      ∙ ap (resolve fs' fs'.superblock.root_inode) all
      ∙ resolve-snoc fs' ws fs'.superblock.root_inode p w
          (ap (resolve fs' fs'.superblock.root_inode) (sym front)
            ∙ sym (find_inode_by_path_lem fs' (split_path path).0)
            ∙ at_p)
          (p_ne fs path p w d last room)
      ∙ found_in p w (at_home fs path p w d last room)
      ∙ added.entry w
      ∙ rw (str_eq_refl w) refl
