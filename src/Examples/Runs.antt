-- ===== src/Examples/Runs.antt =====
-- What an installation leaves on a blank drive.
use ephemeral_os.Net.Order.{htons}
use ephemeral_os.Net.Dns.Query.{labels, dns_query}
use ephemeral_os.Fs.Bitmap.{set_bit, mark_block_used, is_block_free, allocate_from, allocate_block}
use ephemeral_os.Fs.Dir.{c_str, add_entry, encode_dir, decode_dir, read_dir, find_entry}
use ephemeral_os.Fs.Inodes.{allocate_inode_from, allocate_inode}
use ephemeral_os.Fs.State.{read_inode_block, write_inode_block, first_block}
use ephemeral_os.Fs.Path.{split_path, normalize_path}
use ephemeral_os.Fs.Lookup.{find_component, find_inode_by_path, fs_dir_exists}
use ephemeral_os.Base.{[], ◌∷◌, str_eq, ◌≡◌, refl, true, none, some, codes}
use ephemeral_os.Fs.Listing.{fs_list_dir}
use ephemeral_os.Fs.File.{fs_create_file, fs_read_file}
use ephemeral_os.Fs.Install.{fs_install}
use ephemeral_os.Examples.Drive.{installed}

documents_inode : find_inode_by_path installed (codes "/home/ana/documents") ≡ 7
unfolding fs_install find_inode_by_path normalize_path find_component split_path write_inode_block
    find_entry read_dir decode_dir read_inode_block encode_dir allocate_inode allocate_inode_from
    allocate_block allocate_from is_block_free add_entry mark_block_used
documents_inode = refl

-- The directory /bin is there, in block 0, and cannot be listed.
bin_unusable :
    (fs_dir_exists installed (codes "/bin") ≡ true)
    × (first_block installed 1 ≡ 0)
    × (fs_list_dir installed (codes "/bin") 2048 ≡ none)
unfolding fs_install find_inode_by_path normalize_path find_component split_path write_inode_block
    find_entry read_dir decode_dir read_inode_block encode_dir allocate_inode allocate_inode_from
    allocate_block allocate_from is_block_free add_entry mark_block_used set_bit str_eq c_str
    fs_dir_exists fs_list_dir
bin_unusable = (refl, refl, refl)

read_back :
    fs_read_file (fs_create_file installed (codes "/tmp/a") (codes "hi")).0 (codes "tmp//a/") 100
    ≡ some (2, codes "hi")
unfolding fs_install find_inode_by_path normalize_path find_component split_path write_inode_block
    find_entry read_dir decode_dir read_inode_block encode_dir allocate_inode allocate_inode_from
    allocate_block allocate_from is_block_free add_entry mark_block_used set_bit str_eq c_str
    fs_create_file fs_read_file
read_back = refl

query_of_a :
    dns_query 1 (codes "a.bc")
    ≡ 0 ∷ 1 ∷ 1 ∷ 0 ∷ 0 ∷ 1 ∷ 0 ∷ 0 ∷ 0 ∷ 0 ∷ 0 ∷ 0 ∷ 1 ∷ b'a' ∷ 2 ∷ b'b' ∷ b'c' ∷ 0 ∷ 0 ∷ 1 ∷ 0 ∷ 1
      ∷ []
unfolding dns_query labels htons
query_of_a = refl
