-- ===== src/Keyi/System.antt =====
-- The calls of the system that keyi-sudo/keyi.c makes, and a program that may end at any of them.
use overthinkin.Base.{ℕ, Bool, true, false, List, ◌∷◌, Option, Bytes, ℤ, minus_one, ◌==ℤ◌, Trace}
use overthinkin.Keyi.Env.{Environment, Passwd}

-- What fstat and stat tell; `st_mode` holds the permission bits.
pub record Stat : Type 0 where
  pub is_reg : Bool
  pub st_mode : ℕ
  pub st_size : ℕ
  pub st_ino : ℕ
  pub tv_sec : ℕ
  pub tv_nsec : ℕ

pub data Call : Type 0 where
  open_rdwr open_rdonly unlink stat : Bytes → Call
  fstat close lseek ftruncate fsync : ℤ → Call
  mkostemps : Bytes → ℕ → Call
  sendfile : ℤ → ℤ → ℕ → Call
  fchown : ℤ → ℕ → ℕ → Call
  setgid setuid getpwuid : ℕ → Call
  initgroups : Bytes → ℕ → Call
  exec : Bytes → List Bytes → Environment → Call
  chdir : Bytes → Call
  getcwd readlink getresuid getresgid fork usleep : Call
  waitpid : ℤ → Call
  syslog : List Bytes → Call

-- What a call gives back; each call fills the fields that belong to it.
pub record Answer : Type 0 where
  pub ret : ℤ
  pub info : Stat
  pub name : Bytes
  pub real : ℕ
  pub effective : ℕ
  pub passwd : Option Passwd
  pub wstatus : ℕ

pub data Flow (A : Type 0) : Type 0 where
  next : A → Flow A
  exit : ℕ → Flow A
  -- exec went well, and this program is gone
  replaced : Flow A

abbrev pub History : Type 0
History = Trace Call Answer

abbrev pub M : Type 0 → Type 0
M A = (History → Call → Answer) → History → Flow A × History

abbrev pub pure : {A : Type 0} → A → M A
pure a os t = (next a, t)

abbrev pub stop : {A : Type 0} → ℕ → M A
stop n os t = (exit n, t)

infixl 5 ◌>>=◌ ◌>>◌
abbrev pub ◌>>=◌ : {A B : Type 0} → M A → (A → M B) → M B
◌>>=◌ m f os t =
    let (r, t') = m os t in
    elim r [ next a ↦ f a os t' | exit n ↦ (exit n, t') | replaced ↦ (replaced, t') ]

abbrev pub ◌>>◌ : {A B : Type 0} → M A → M B → M B
m >> k = m >>= λ _. k

abbrev pub call : Call → M Answer
call c os t = let r = os t c in (next r, (c, r) ∷ t)

-- The calls report a failure by -1.
abbrev pub failed : Answer → Bool
failed a = a.ret ==ℤ minus_one

-- `exec`, and `err (1, …)` where it returns.
abbrev pub exec_or_die : {A : Type 0} → Bytes → List Bytes → Environment → M A
exec_or_die path args env os t =
    let r = os t (exec path args env) in
    (elim (failed r) [ true ↦ exit 1 | false ↦ replaced ], (exec path args env, r) ∷ t)
