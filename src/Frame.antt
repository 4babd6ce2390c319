-- ===== src/Frame.antt =====
-- The message framing that src/client.rs and src/server.rs share: four little-endian bytes of
-- length, then the message (spec/spec.md, 4.1).
pub mod Reading
pub mod Prefix
use bxp_core.Base.{ℕ, ◌%◌, ◌-◌, List, ◌++◌, Result, map_err, Method, length, drop}
use bxp_core.Base.Bytes.{u32_mod, to_le_bytes}
use bxp_core.Protocol.{Error}

-- `?` on a call of a field's method: the field is `get s`, the error is converted by `e`.
abbrev pub on_field :
    {S P A : Type 0} → (S → P) → (P → S → S) → (ℕ → Error) → (P → Result ℕ A × P) → Method Error S A
on_field get put e m s = (map_err e (m (get s)).0, put (m (get s)).1 s)

-- The buffer that starts as four zero bytes and had the message appended: its first four bytes
-- are overwritten by the payload's length as a u32.
unfoldable pub fill_length : List ℕ → List ℕ
fill_length out_buf = to_le_bytes ((length out_buf - 4) % u32_mod) ++ drop 4 out_buf

-- The frame that the specification describes.
abbrev pub frame : List ℕ → List ℕ
frame payload = to_le_bytes (length payload) ++ payload
