-- ===== src/Packet/Value.antt =====
-- `operator<<` and `operator>>` of ConsoleApplication2/CPacket.h: an integer of `w` bytes goes into a
-- packet and comes out of it with its low byte first. A negative number is its two's complement.
use chatting_server.Base.{
  ℕ, zero, suc, ◌+◌, ◌*◌, ◌/◌, ◌%◌, ◌^◌, ◌≤◌, ◌<◌, ◌≡◌, refl, List, [], ◌∷◌, ◌++◌, length, arith,
  ap, sym, ◌∙◌, Option, some, none, length-append, append_inj, append-nil,
}
use native.Mathlib.Nat.{pow-suc}
use chatting_server.Base.Outcome.{Outcome, done, ◌>>=◌}
use chatting_server.Packet.{Packet, Machine, header_size, write_value, get_data}
use chatting_server.Packet.Buffer.{IsValid, payload, write_value_fits, get_data_cases}

-- The `w` bytes of a value in memory.
unfoldable pub bytes_of : ℕ → ℕ → List ℕ
bytes_of zero v = []
bytes_of (suc w) v = (v % 256) ∷ bytes_of w (v / 256)

-- The value that bytes stand for.
unfoldable pub value_of : List ℕ → ℕ
value_of [] = 0
value_of (b ∷ bs) = b + 256 * value_of bs

-- `operator<<` for a value of `w` bytes
unfoldable pub put_value : Machine → Packet → ℕ → ℕ → Outcome Packet
put_value m p w v = write_value m p (bytes_of w v)

-- The variable after `operator>>`: what was read, or what it held if the packet was too short.
abbrev value_or : ℕ → Option (List ℕ) → ℕ
value_or old none = old
value_or old (some bs) = value_of bs

-- `operator>>` into a variable of `w` bytes that holds `old`
unfoldable pub get_value : Packet → ℕ → ℕ → Outcome (Packet × ℕ)
get_value p w old = get_data p w >>= λ r. done (r.0, value_or old r.1)

pub length-bytes_of : (w v : ℕ) → length (bytes_of w v) ≡ w
unfolding bytes_of
length-bytes_of zero v = refl
length-bytes_of (suc w) v = ap suc (length-bytes_of w (v / 256))

-- The bytes of a value that fits its width stand for it.
pub value_of-bytes_of : (w v : ℕ) → v < 256 ^ w → value_of (bytes_of w v) ≡ v
unfolding bytes_of value_of
value_of-bytes_of zero v h = omega arith
value_of-bytes_of (suc w) v h =
    omega (arith, value_of-bytes_of w (v / 256) (omega (arith, pow-suc 256 w)))

-- Reading a value from a packet that begins with its bytes gives the value, and leaves the rest.
pub get_value_lem :
    {p : Packet} (w v old : ℕ) (rest : List ℕ)
    → IsValid p
    → v < 256 ^ w
    → payload p ≡ bytes_of w v ++ rest
    → (q : Packet) × (get_value p w old ≡ done (q, v)) × (payload q ≡ rest) × IsValid q
unfolding get_value
get_value_lem {p} w v old rest valid fits begins =
    let long : w ≤ length (payload p) =
      omega (arith, ap length begins, length-append (bytes_of w v) rest, length-bytes_of w v) in
    let (q, out, runs, size, split, kept) = (get_data_cases w valid).0 long in
    let same : (out ≡ bytes_of w v) × (payload q ≡ rest) =
      append_inj out (bytes_of w v) (payload q) rest (size ∙ sym (length-bytes_of w v))
        (split ∙ begins) in
    (
      q,
      rw runs (ap (λ n. done (q, n)) (ap value_of same.0 ∙ value_of-bytes_of w v fits)),
      same.1,
      kept,
    )

-- Writing a value appends its bytes.
pub put_value_lem :
    (m : Machine) {p : Packet} (w v : ℕ)
    → IsValid p
    → header_size + p.rear + w ≤ p.max_size
    → (q : Packet) × (put_value m p w v ≡ done q)
      × (payload q ≡ payload p ++ bytes_of w v)
      × IsValid q
      × (q.rear ≡ p.rear + w)
      × (q.max_size ≡ p.max_size)
      × (q.front ≡ p.front)
      × (q.is_encoded ≡ p.is_encoded)
unfolding put_value
put_value_lem m {p} w v valid room =
    let size : length (bytes_of w v) ≡ w = length-bytes_of w v in
    let (q, runs, held, kept, rear, cap, start, flag) =
      write_value_fits m (bytes_of w v) valid (omega (arith, size)) in
    (q, runs, held, kept, omega (arith, rear, size), cap, start, flag)

-- A value put into a packet that holds nothing comes back out of it, and nothing is left.
pub get_value-put_value :
    (m : Machine) {p : Packet} (w v old : ℕ)
    → IsValid p
    → payload p ≡ []
    → v < 256 ^ w
    → header_size + p.rear + w ≤ p.max_size
    → (q r : Packet) × (put_value m p w v ≡ done q)
      × (get_value q w old ≡ done (r, v))
      × (payload r ≡ [])
get_value-put_value m {p} w v old valid empty fits room =
    let (q, runs, held, kept, _, _, _, _) = put_value_lem m w v valid room in
    let begins : payload q ≡ bytes_of w v ++ [] =
      held ∙ rw empty (sym (append-nil (bytes_of w v))) in
    let (r, reads, left, _) = get_value_lem w v old [] kept fits begins in (q, r, runs, reads, left)
