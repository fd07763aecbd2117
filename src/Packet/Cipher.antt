-- ===== src/Packet/Cipher.antt =====
-- The two loops over the payload in `SetEncodingCode` and `SetDecodingCode`, and the checksum, of
-- ConsoleApplication2/CPacket.cpp. The source computes in `int` on sign-extended `char`s and casts
-- to `BYTE`; a cast keeps the low byte, and the low byte of an exclusive or is that of the operands.
-- The loops work in place; each round reads index `i` before it writes it, so they map the bytes.
use chatting_server.Base.{
  ℕ, ◌+◌, ◌-◌, ◌%◌, ◌^◌, ◌<◌, ◌≡◌, refl, List, [], ◌∷◌, length, arith, ltb, if◌then◌else◌, bit_xor,
  ap, suc,
}
use chatting_server.Base.Xor.{bit_xor_cancel}

-- `FIX_KEY`
abbrev pub fix_key : ℕ
fix_key = 0x32

-- The mask of one round, as a `BYTE`.
abbrev mask : ℕ → ℕ → ℕ → ℕ
mask before key i = (before + key + i + 1) % 256

-- The encoding loop from index `i` on, with `E_n` and `P_n` of the round before.
unfoldable pub encrypt : ℕ → ℕ → ℕ → ℕ → List ℕ → List ℕ
encrypt rand_key i e_n p_n [] = []
encrypt rand_key i e_n p_n (b ∷ bs) =
    let e = bit_xor b (mask e_n rand_key i) in
    let c = bit_xor e (mask p_n fix_key i) in c ∷ encrypt rand_key (i + 1) e c bs

-- The decoding loop from index `i` on, with `E_n` and `P_before` of the round before.
unfoldable pub decrypt : ℕ → ℕ → ℕ → ℕ → List ℕ → List ℕ
decrypt rand_key i e_n p_before [] = []
decrypt rand_key i e_n p_before (c ∷ cs) =
    let p_n = bit_xor c (mask e_n fix_key i) in
    let d_n = bit_xor p_n (mask p_before rand_key i) in d_n ∷ decrypt rand_key (i + 1) c p_n cs

-- A `char` in 32 bits of two's complement.
abbrev sign_extend : ℕ → ℕ
sign_extend b = if ltb b 128 then b else b + (2 ^ 32 - 256)

-- `checkSum += pPayload[i]` over the bytes, in 32 bits
unfoldable pub sum_bytes : ℕ → List ℕ → ℕ
sum_bytes acc [] = acc
sum_bytes acc (b ∷ bs) = sum_bytes ((acc + sign_extend b) % 2 ^ 32) bs

-- `(BYTE)(checkSum % 256)` of a `LONG`, whose remainder has the sign of the number
unfoldable pub long_to_byte : ℕ → ℕ
long_to_byte c = if ltb c (2 ^ 31) then c % 256 else (2 ^ 32 - (2 ^ 32 - c) % 256) % 256

-- `(BYTE)(iCheck % 256)` of a `DWORD`
unfoldable pub dword_to_byte : ℕ → ℕ
dword_to_byte c = c % 256

-- With the same key the decoding loop undoes the encoding loop, from any round on.
pub decrypt-encrypt : (key i e p : ℕ) (bs : List ℕ) → decrypt key i p e (encrypt key i e p bs) ≡ bs
unfolding encrypt decrypt
decrypt-encrypt key i e p [] = refl
decrypt-encrypt key i e p (b ∷ bs) =
    let e' : ℕ = bit_xor b (mask e key i) in
    rw (bit_xor_cancel e' (mask p fix_key i), bit_xor_cancel b (mask e key i))
      (ap (◌∷◌ b) (decrypt-encrypt key (i + 1) e' (bit_xor e' (mask p fix_key i)) bs))

-- And the encoding loop undoes the decoding loop: no two payloads have one cipher text.
pub encrypt-decrypt : (key i e p : ℕ) (cs : List ℕ) → encrypt key i e p (decrypt key i p e cs) ≡ cs
unfolding encrypt decrypt
encrypt-decrypt key i e p [] = refl
encrypt-decrypt key i e p (c ∷ cs) =
    let p_n : ℕ = bit_xor c (mask p fix_key i) in
    rw (bit_xor_cancel p_n (mask e key i), bit_xor_cancel c (mask p fix_key i))
      (ap (◌∷◌ c) (encrypt-decrypt key (i + 1) p_n c cs))

pub length-encrypt : (key i e p : ℕ) (bs : List ℕ) → length (encrypt key i e p bs) ≡ length bs
unfolding encrypt
length-encrypt key i e p [] = refl
length-encrypt key i e p (b ∷ bs) = ap suc (length-encrypt key (i + 1) _ _ bs)

pub length-decrypt : (key i e p : ℕ) (bs : List ℕ) → length (decrypt key i e p bs) ≡ length bs
unfolding decrypt
length-decrypt key i e p [] = refl
length-decrypt key i e p (b ∷ bs) = ap suc (length-decrypt key (i + 1) _ _ bs)

-- The remainder of a `LONG` and that of a `DWORD` have the same low byte.
pub long-eq-dword : (c : ℕ) → c < 2 ^ 32 → long_to_byte c ≡ dword_to_byte c
unfolding long_to_byte dword_to_byte
long-eq-dword c h = ground arith

pub sum_bytes-lt : (acc : ℕ) (bs : List ℕ) → acc < 2 ^ 32 → sum_bytes acc bs < 2 ^ 32
unfolding sum_bytes
sum_bytes-lt acc [] h = h
sum_bytes-lt acc (b ∷ bs) h = sum_bytes-lt ((acc + sign_extend b) % 2 ^ 32) bs (omega arith)

-- The checksum that the sender stores is the one that the receiver computes.
pub checksums_agree : (bs : List ℕ) → long_to_byte (sum_bytes 0 bs) ≡ dword_to_byte (sum_bytes 0 bs)
checksums_agree bs = long-eq-dword (sum_bytes 0 bs) (sum_bytes-lt 0 bs (omega arith))
