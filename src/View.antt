-- ===== src/View.antt =====
-- byteview.go: immutable values of bytes. A slice is its bytes, so that a clone equals its original.
use cachecore.Base.{ℕ, Bool, true, false, length}
use cachecore.Expiry.{Value}
use cachecore.Go.Bytes.{Bytes}

pub record ByteView : Type 0 where
  pub b : Bytes
  pub not_found : Bool

unfoldable pub len : ByteView → ℕ
len v = length v.b

unfoldable pub clone_bytes : Bytes → Bytes
clone_bytes b = b

unfoldable pub byte_slice : ByteView → Bytes
unfolding clone_bytes
byte_slice v = clone_bytes v.b

-- `ByteView{b: b}`
abbrev pub view : Bytes → ByteView
view b = record { b = b; not_found = false }

unfoldable pub with_not_found : ByteView → ByteView
with_not_found v = record v { not_found = true }

unfoldable pub is_not_found : ByteView → Bool
is_not_found v = v.not_found

instance unfoldable pub view_Value : Value ByteView
unfolding len
view_Value = record { len = len }
