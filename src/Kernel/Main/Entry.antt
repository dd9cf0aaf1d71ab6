-- ===== src/Kernel/Main/Entry.antt =====
-- kernel/kernel.c with fs/filesystem.c: a login on an installed system, in terms of what was given to
-- the installation.
use ephemeral_os.Base.{
  ℕ, ◌≡◌, sym, ap, ◌∙◌, ◌≢◌, ◌↔◌, subst, Bool, true, false, some, List, [], ◌∷◌, Bytes, codes,
  str_eq, str_eq→eq, str_eq_refl, Bool-cases, inl, inr,
}
use ephemeral_os.Fs.State.{Fs}
use ephemeral_os.Fs.Install.{
  hash_bytes, fs_get_username, fs_get_hostname, fs_verify_password, fs_install,
}
use ephemeral_os.Fs.Create.Frame.{identity}
use ephemeral_os.Fs.Install.Password.{fs_install_lem, fs_verify_password-fs_install}
use ephemeral_os.Drivers.Keyboard.{Typed}
use ephemeral_os.Kernel.Login.{
  incorrect, Console, console_of, say, ask_username, ask_password, with_complaint,
}
use ephemeral_os.Kernel.Login.Sound.{Logs, stranger, refused, accepted}

-- The screen after an attempt that failed.
abbrev pub turned_down : Bytes → Console → Console
turned_down hostname c =
    (say (codes "Login incorrect\n" ∷ hostname ∷ codes " login: " ∷ []) c.0, c.1, c.2)

-- Who enters: behind any number of lines that are not the username, and of usernames with a password
-- whose hash is another, the username and a password with the same 32 hash bytes as the one given.
pub data Enters (hostname username password : Bytes) : Console → Console → Type 0 where
  another_name :
      {c c' : Console} (u : Typed × Bool × List ℕ)
      → ask_username c ≡ some u
      → u.0.buffer ≢ username
      → Enters hostname username password (turned_down hostname (console_of u)) c'
      → Enters hostname username password c c'
  another_hash :
      {c c' : Console} (u p : Typed × Bool × List ℕ)
      → ask_username c ≡ some u
      → u.0.buffer ≡ username
      → ask_password (console_of u) ≡ some p
      → hash_bytes p.0.buffer ≢ hash_bytes password
      → Enters hostname username password (turned_down hostname (console_of p)) c'
      → Enters hostname username password c c'
  same_hash :
      {c c' : Console} (u p : Typed × Bool × List ℕ)
      → ask_username c ≡ some u
      → u.0.buffer ≡ username
      → ask_password (console_of u) ≡ some p
      → hash_bytes p.0.buffer ≡ hash_bytes password
      → c' ≡ console_of p
      → Enters hostname username password c c'

apart : {b : Bool} → b ≡ false → b ≢ true
apart e f = cc

not_true : (b : Bool) → b ≢ true → b ≡ false
not_true b n = elim (Bool-cases b) [ inl y ↦ absurd (n y) | inr z ↦ z ]

str_eq-ne : (x y : Bytes) → x ≢ y → str_eq x y ≡ false
str_eq-ne x y n = not_true (str_eq x y) (λ e. n (str_eq→eq x y e))

str_eq-eq : (x y : Bytes) → x ≡ y → str_eq x y ≡ true
str_eq-eq x y e = ap (str_eq x) (sym e) ∙ str_eq_refl x

module _ (fs : Fs) (hostname username password : Bytes) where
  abbrev system : Fs
  system = fs_install fs hostname username password

  username_kept : fs_get_username system ≡ username
  unfolding identity
  username_kept = ap (λ t. t.7) (fs_install_lem fs hostname username password)

  hostname_kept : fs_get_hostname system ≡ hostname
  unfolding identity
  hostname_kept = ap (λ t. t.6) (fs_install_lem fs hostname username password)

  complaint_kept : (c : Console) → with_complaint system c ≡ turned_down hostname c
  unfolding incorrect
  complaint_kept c = ap (λ h. turned_down h c) hostname_kept

  unequal_name :
      (typed : Bytes) → (str_eq typed (fs_get_username system) ≡ false) ↔ (typed ≢ username)
  unequal_name typed = (
    λ h e. apart h (str_eq-eq typed (fs_get_username system) (e ∙ sym username_kept)),
    λ n. str_eq-ne typed (fs_get_username system) (λ e. n (e ∙ username_kept)),
  )

  equal_name : (typed : Bytes) → (str_eq typed (fs_get_username system) ≡ true) ↔ (typed ≡ username)
  equal_name typed = (
    λ h. str_eq→eq typed (fs_get_username system) h ∙ username_kept,
    λ e. str_eq-eq typed (fs_get_username system) (e ∙ sym username_kept),
  )

  equal_hash :
      (typed : Bytes)
      → (fs_verify_password system typed ≡ true) ↔ (hash_bytes typed ≡ hash_bytes password)
  equal_hash typed = fs_verify_password-fs_install fs hostname username password typed

  unequal_hash :
      (typed : Bytes)
      → (fs_verify_password system typed ≡ false) ↔ (hash_bytes typed ≢ hash_bytes password)
  unequal_hash typed = (
    λ h e. apart h ((equal_hash typed).1 e),
    λ n. not_true (fs_verify_password system typed) (λ e. n ((equal_hash typed).0 e)),
  )

  Logs-Enters : {c c' : Console} → Logs system c c' → Enters hostname username password c c'
  Logs-Enters {c' = c'} (stranger u a n r) = another_name u a ((unequal_name u.0.buffer).0 n) (
      subst (λ d. Enters hostname username password d c') (complaint_kept (console_of u))
        (Logs-Enters r))
  Logs-Enters {c' = c'} (refused u p a n b v r) =
      another_hash u p a ((equal_name u.0.buffer).0 n) b ((unequal_hash p.0.buffer).0 v) (
        subst (λ d. Enters hostname username password d c') (complaint_kept (console_of p))
          (Logs-Enters r))
  Logs-Enters (accepted u p a n b v e) =
      same_hash u p a ((equal_name u.0.buffer).0 n) b ((equal_hash p.0.buffer).0 v) e

  Enters-Logs : {c c' : Console} → Enters hostname username password c c' → Logs system c c'
  Enters-Logs {c' = c'} (another_name u a n r) =
      stranger u a ((unequal_name u.0.buffer).1 n)
        (subst (λ d. Logs system d c') (sym (complaint_kept (console_of u))) (Enters-Logs r))
  Enters-Logs {c' = c'} (another_hash u p a n b v r) =
      refused u p a ((equal_name u.0.buffer).1 n) b ((unequal_hash p.0.buffer).1 v)
        (subst (λ d. Logs system d c') (sym (complaint_kept (console_of p))) (Enters-Logs r))
  Enters-Logs (same_hash u p a n b v e) =
      accepted u p a ((equal_name u.0.buffer).1 n) b ((equal_hash p.0.buffer).1 v) e

  pub Logs-iff : (c c' : Console) → Logs system c c' ↔ Enters hostname username password c c'
  Logs-iff c c' = (Logs-Enters, Enters-Logs)
