-- ===== src/Kernel/Login/Sound.antt =====
-- kernel/kernel.c: who gets past `do_login`.
use ephemeral_os.Base.{
  ◌∙◌, ℕ, zero, suc, ◌<◌, ◌≡◌, refl, sym, ap, ◌↔◌, inl, inr, Bool, true, false, Option, none, some,
  List, arith, str_eq, Bool-cases, length,
}
use ephemeral_os.Fs.State.{Fs}
use ephemeral_os.Fs.Install.{fs_get_username, fs_verify_password}
use ephemeral_os.Drivers.Keyboard.{Typed, keyboard_getline, keyboard_getline_password}
use ephemeral_os.Drivers.Keyboard.Rest.{getline-shorter}
use ephemeral_os.Kernel.Login.{
  Console, console_of, ask_username, ask_password, with_complaint, check_password, check_username,
  login_round, do_login,
}

-- A login that ends, attempt by attempt: a line that is not the user's name, the name and a password
-- that does not verify, and at last the name and a password that does.
pub data Logs (fs : Fs) : Console → Console → Type 0 where
  stranger :
      {c c' : Console} (u : Typed × Bool × List ℕ)
      → ask_username c ≡ some u
      → str_eq u.0.buffer (fs_get_username fs) ≡ false
      → Logs fs (with_complaint fs (console_of u)) c'
      → Logs fs c c'
  refused :
      {c c' : Console} (u p : Typed × Bool × List ℕ)
      → ask_username c ≡ some u
      → str_eq u.0.buffer (fs_get_username fs) ≡ true
      → ask_password (console_of u) ≡ some p
      → fs_verify_password fs p.0.buffer ≡ false
      → Logs fs (with_complaint fs (console_of p)) c'
      → Logs fs c c'
  accepted :
      {c c' : Console} (u p : Typed × Bool × List ℕ)
      → ask_username c ≡ some u
      → str_eq u.0.buffer (fs_get_username fs) ≡ true
      → ask_password (console_of u) ≡ some p
      → fs_verify_password fs p.0.buffer ≡ true
      → c' ≡ console_of p
      → Logs fs c c'

module _ (fs : Fs) where
  password_Logs :
      (again : Console → Option Console) (c : Console) {c' : Console} (u p : Typed × Bool × List ℕ)
      → ((d : Console) → again d ≡ some c' → Logs fs d c')
      → ask_username c ≡ some u
      → str_eq u.0.buffer (fs_get_username fs) ≡ true
      → ask_password (console_of u) ≡ some p
      → check_password fs again p ≡ some c'
      → Logs fs c c'
  unfolding check_password
  password_Logs again c {c'} u p ih a n b e = elim (Bool-cases (fs_verify_password fs p.0.buffer)) [
    | inl y ↦ accepted u p a n b y (some_injective (sym (rw y at e)))
    | inr z ↦ refused u p a n b z (ih _ (rw z at e))
  ]
    where
      some_injective : {x y : Console} → some x ≡ some y → x ≡ y
      some_injective h = cc

  username_Logs :
      (again : Console → Option Console) (c : Console) {c' : Console} (u : Typed × Bool × List ℕ)
      → ((d : Console) → again d ≡ some c' → Logs fs d c')
      → ask_username c ≡ some u
      → check_username fs again u ≡ some c'
      → Logs fs c c'
  unfolding check_username
  username_Logs again c {c'} u ih a e = elim (Bool-cases (str_eq u.0.buffer (fs_get_username fs))) [
    | inr z ↦ stranger u a z (ih _ (rw z at e))
    | inl y ↦ go y (ask_password (console_of u)) refl (rw y at e)
  ]
    where
      go :
          str_eq u.0.buffer (fs_get_username fs) ≡ true
          → (o : Option (Typed × Bool × List ℕ)) → ask_password (console_of u) ≡ o
          → elim o [ none ↦ none | some p ↦ check_password fs again p ] ≡ some c'
          → Logs fs c c'
      go y none b d = cc
      go y (some p) b d = password_Logs again c u p ih a y b d

  do_login-Logs :
      (fuel : ℕ) (c : Console) {c' : Console} → do_login fuel fs c ≡ some c' → Logs fs c c'
  unfolding do_login login_round
  do_login-Logs zero c e = cc
  do_login-Logs (suc fuel) c {c'} e = go (ask_username c) refl (λ d. do_login-Logs fuel d) e
    where
      go :
          (o : Option (Typed × Bool × List ℕ))
          → ask_username c ≡ o
          → ((d : Console) → do_login fuel fs d ≡ some c' → Logs fs d c')
          → elim o [ none ↦ none | some u ↦ check_username fs (do_login fuel fs) u ] ≡ some c'
          → Logs fs c c'
      go none a ih d = cc
      go (some u) a ih d = username_Logs (do_login fuel fs) c u ih a d

ask_username-shorter :
    (c : Console) (u : Typed × Bool × List ℕ) → ask_username c ≡ some u → length u.2 < length c.2
unfolding keyboard_getline
ask_username-shorter c (t, shift, rest) e = getline-shorter c.2 _ 64 c.1 _ e

ask_password-shorter :
    (c : Console) (p : Typed × Bool × List ℕ) → ask_password c ≡ some p → length p.2 < length c.2
unfolding keyboard_getline_password
ask_password-shorter c (t, shift, rest) e = getline-shorter c.2 _ 64 c.1 _ e

module _ (fs : Fs) (again : Console → Option Console) where
  login_round-asked :
      (c : Console) {o : Option (Typed × Bool × List ℕ)}
      → ask_username c ≡ o
      → login_round fs again c ≡ elim o [ none ↦ none | some u ↦ check_username fs again u ]
  unfolding login_round
  login_round-asked c a = ap (λ o. elim o [ none ↦ none | some u ↦ check_username fs again u ]) a

  check_username-stranger :
      (u : Typed × Bool × List ℕ)
      → str_eq u.0.buffer (fs_get_username fs) ≡ false
      → check_username fs again u ≡ again (with_complaint fs (console_of u))
  unfolding check_username
  check_username-stranger u n = rw n refl

  check_username-known :
      (u : Typed × Bool × List ℕ) {o : Option (Typed × Bool × List ℕ)}
      → str_eq u.0.buffer (fs_get_username fs) ≡ true
      → ask_password (console_of u) ≡ o
      → check_username fs again u ≡ elim o [ none ↦ none | some p ↦ check_password fs again p ]
  unfolding check_username
  check_username-known u n b =
      (rw n refl) ∙ ap (λ o. elim o [ none ↦ none | some p ↦ check_password fs again p ]) b

Logs-do_login :
    (fs : Fs) (fuel : ℕ) {c c' : Console}
    → Logs fs c c'
    → length c.2 < fuel
    → do_login fuel fs c ≡ some c'
unfolding do_login check_password
Logs-do_login fs zero l h = absurd (omega arith)
Logs-do_login fs (suc fuel) {c} (stranger u a n r) h =
    login_round-asked fs (do_login fuel fs) c a
    ∙ check_username-stranger fs (do_login fuel fs) u n
    ∙ Logs-do_login fs fuel r (omega (arith, ask_username-shorter c u a))
Logs-do_login fs (suc fuel) {c} (refused u p a n b v r) h =
    login_round-asked fs (do_login fuel fs) c a
    ∙ check_username-known fs (do_login fuel fs) u n b
    ∙ rw v (
        Logs-do_login fs fuel r
          (omega (arith, ask_username-shorter c u a, ask_password-shorter (console_of u) p b)))
Logs-do_login fs (suc fuel) {c} (accepted u p a n b v e) h =
    login_round-asked fs (do_login fuel fs) c a
    ∙ check_username-known fs (do_login fuel fs) u n b
    ∙ rw v (ap some (sym e))

-- With one more round than there are scancodes to come, `do_login` returns exactly when the keys make
-- a login: attempts with a wrong name or a wrong password, each followed by the complaint, and at last
-- the user's name and a password that `fs_verify_password` takes.
pub do_login_iff :
    (fs : Fs) (c c' : Console) → (do_login (suc (length c.2)) fs c ≡ some c') ↔ Logs fs c c'
do_login_iff fs c c' = (
  do_login-Logs fs (suc (length c.2)) c,
  λ l. Logs-do_login fs (suc (length c.2)) l (omega arith),
)
