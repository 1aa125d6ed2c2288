-- ===== src/Config/Bounded.antt =====
-- ReadBounded of internal/config/read.go: a regular file of bounded size, looked at before and after it is
-- opened.
use epoch.Base.{
  ℕ, suc, Bytes, String, Bool, ◌&&◌, length, leb, leb_ℤ, ℤ, pos, Result, ok, err, ◌>>=◌, ◌>>◌,
  guard,
}

pub record Stat : Type 0 where
  pub regular : Bool
  pub size : ℤ

pub data ReadError : Type 0 where
  not_bounded_regular file_quota_exceeded : ReadError
  read_refused : String → ReadError

-- os.Lstat, openRead with Stat on the open file, and io.ReadAll of an io.LimitReader: each call may find the
-- file as another has left it.
pub record Reading : Type 0 where
  pub lstat : String → Result String Stat
  pub open_stat : String → Result String Stat
  pub read_all : ℕ → String → Result String Bytes

refused : {A : Type 0} → Result String A → Result ReadError A
refused (ok a) = ok a
refused (err e) = err (read_refused e)

within_limit : ℕ → Stat → Bool
within_limit limit st = st.regular && leb_ℤ st.size (pos limit)

unfoldable pub read_bounded : Reading → String → ℕ → Result ReadError Bytes
unfolding refused within_limit
read_bounded files path limit = do
  before ← refused (files.lstat path)
  guard (within_limit limit before) not_bounded_regular
  after ← refused (files.open_stat path)
  guard (within_limit limit after) not_bounded_regular
  b ← refused (files.read_all (suc limit) path)
  guard (leb (length b) limit) file_quota_exceeded
  ok b
