-- ===== src/Examples/Strings.antt =====
-- The theorems of Text and Fs.Path at concrete strings.
use ephemeral_os.Base.{
  suc, ◌-◌, ◌≡◌, refl, some, [], ◌∷◌, ◌++◌, arith, codes, length, drop, replicate,
}
use ephemeral_os.Text.{strncpy}
use ephemeral_os.Text.Compare.{NulFree}
use ephemeral_os.Text.Copy.{strncpy-overruns}
use ephemeral_os.Fs.Path.{normalize_path, split_path}
use ephemeral_os.Fs.Path.Components.{components, render}
use ephemeral_os.Fs.Path.Normal.{normalize_path_lem}
use ephemeral_os.Fs.Path.Split.{split_path_lem}

ab-NulFree : NulFree (codes "ab")
ab-NulFree = ((λ e. omega arith), ((λ e. omega arith), tt))

strncpy-overruns_example :
    strncpy (codes "uvwxyz") (codes "ab" ++ 0 ∷ []) 4
    ≡ some (codes "ab" ++ replicate (suc (4 - length (codes "ab"))) 0 ++ drop 5 (codes "uvwxyz"))
strncpy-overruns_example =
    strncpy-overruns 4 (codes "uvwxyz") (codes "ab") [] ab-NulFree (omega arith) (omega arith)

normalize_path_lem_example :
    normalize_path (codes "home//ana/") ≡ render (components (codes "home//ana/"))
normalize_path_lem_example = normalize_path_lem (codes "home//ana/")

parts : components (codes "/home//ana") ≡ (codes "home" ∷ []) ++ codes "ana" ∷ []
unfolding components
parts = refl

split_path_lem_example : split_path (codes "/home//ana") ≡ (render (codes "home" ∷ []), codes "ana")
split_path_lem_example = split_path_lem (codes "/home//ana") (codes "home" ∷ []) (codes "ana") parts
