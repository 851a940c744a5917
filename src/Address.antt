-- ===== src/Address.antt =====
-- Addresses of allocation headers and of the memory behind them (bootstrap/cpp/runtime/yc_runtime.c):
-- `YcAllocHeader *` and `void *` are 64-bit words, and `header + 1` is the address past the header.
use Prim.Native.Nat.{bit_xor}
use ycpl.Base.{ℕ, ◌+◌, ◌*◌, ◌/◌, ◌%◌, ◌^◌, ◌≡◌, arith}

abbrev pub Ptr : Type 0
Ptr = ℕ

abbrev pub null : Ptr
null = 0

-- `YC_REGISTRY_TOMBSTONE`, no address of a header.
abbrev pub tombstone : Ptr
tombstone = 1

-- `sizeof(YcAllocHeader)` where pointers and `size_t` have 8 bytes.
abbrev pub header_size : ℕ
header_size = 104

-- `SIZE_MAX` is one less.
abbrev pub word : ℕ
word = 2 ^ 64

-- `(void *)(header + 1)`. An allocation never runs past the end of the address space.
unfoldable pub payload : Ptr → Ptr
payload header = header + header_size

-- `yc_ptr_hash`: two multiply-and-shift rounds on a 64-bit word.
unfoldable pub ptr_hash : Ptr → ℕ
ptr_hash ptr =
    let x₁ = bit_xor ptr (ptr / 2 ^ 33) in
    let x₂ = x₁ * 0xff51afd7ed558ccd % word in
    let x₃ = bit_xor x₂ (x₂ / 2 ^ 33) in
    let x₄ = x₃ * 0xc4ceb9fe1a85ec53 % word in bit_xor x₄ (x₄ / 2 ^ 33)

pub payload-injective : (a b : Ptr) → payload a ≡ payload b → a ≡ b
unfolding payload
payload-injective a b e = omega arith
