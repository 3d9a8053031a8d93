-- ===== src/Base/Result.antt =====
-- What a function that reports an error returns: zero with its result, or a negative code
-- (the names of sdk/inc/sys/errno.h; `minus_one` is a bare -1).

pub data Errno : Type 0 where
  minus_one enoent eio enomem enotdir einval enametoolong enotsup : Errno

pub data Result {ℓ} (A : Type ℓ) : Type ℓ where
  ok : A → Result A
  err : Errno → Result A
