-- ===== src/Extract.antt =====
-- `ExtractResult` and what the callers of `ProtocolAdapter.try_extract` rely on:
-- libs/parser_lib/core/adapter.py.
use zzt_self.Base.{ℕ, ◌≤◌, ◌≡◌, Bytes, length, take}

pub record Extract : Type 0 where
  pub raw : Bytes
  pub consumed : ℕ

-- The result is a nonempty prefix of the buffer, and `consumed` is its length.
pub record IsSlice (buf : Bytes) (res : Extract) : Type 0 where
  pub nonempty : 1 ≤ res.consumed
  pub within : res.consumed ≤ length buf
  pub raw_is : res.raw ≡ take res.consumed buf
