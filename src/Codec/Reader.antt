-- ===== src/Codec/Reader.antt =====
-- codec.py: the reader `_R`, and the packing helpers.
use vaulttls.Prelude.{
  ℕ, ◌+◌, Bool, length, take, drop, Bytes, from_big_endian, ◌==◌, if◌then◌else◌, String,
}
use vaulttls.Errors.{Result, ok, err, truncated, assertion}
use vaulttls.Python.{first}

-- `_d` and `_p`.
pub record Reader : Type 0 where
  pub d : Bytes
  pub p : ℕ

-- `_R(data)`
abbrev pub reader : Bytes → Reader
reader d = record { d = d; p = 0 }

-- A method of `_R`: it returns a value and moves the offset, or raises.
abbrev pub Parser {ℓ} : Type ℓ → Type ℓ
Parser A = Reader → Result (A × Reader)

infixl 5 ◌>>=◌ ◌>>◌
abbrev pub ◌>>=◌ {ℓ} : {A B : Type ℓ} → Parser A → (A → Parser B) → Parser B
◌>>=◌ m f r = elim (m r) [ ok (a, r') ↦ f a r' | err e ↦ err e ]

abbrev pub ◌>>◌ {ℓ} : {A B : Type ℓ} → Parser A → Parser B → Parser B
m >> k = m >>= λ _. k

unfoldable pub pure {ℓ} : {A : Type ℓ} → A → Parser A
pure a r = ok (a, r)

unfoldable pub lift {ℓ} : {A : Type ℓ} → Result A → Parser A
lift m r = elim m [ ok a ↦ ok (a, r) | err e ↦ err e ]

-- `assert b, message` between two reads.
unfoldable pub check : Bool → String → Parser (Unit {0})
check b message r = if b then ok (tt, r) else err (assertion message)

unfoldable pub read : ℕ → Parser Bytes
read n r =
    let c = take n (drop r.p r.d) in
    if length c == n then ok (c, record r { p = r.p + n }) else err (truncated r.p n (length c))

-- `self.read(1)[0]`, and the big-endian reads of `struct.unpack` and `int.from_bytes`.
unfoldable pub u8 : Parser ℕ
u8 = do c ← read 1; lift (first c)

unfoldable pub u16 : Parser ℕ
u16 = do c ← read 2; pure (from_big_endian c)

unfoldable pub u24 : Parser ℕ
u24 = do c ← read 3; pure (from_big_endian c)

unfoldable pub u32 : Parser ℕ
u32 = do c ← read 4; pure (from_big_endian c)

unfoldable pub u64 : Parser ℕ
u64 = do c ← read 8; pure (from_big_endian c)

unfoldable pub v16 : Parser Bytes
v16 = do n ← u16; read n

unfoldable pub v24 : Parser Bytes
v24 = do n ← u24; read n
